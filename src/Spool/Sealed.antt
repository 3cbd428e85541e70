-- ===== src/Spool/Sealed.antt =====
-- The idiom that every control file of the spool shares: bytes with their own CRC32C behind them.
use gasworks.Prelude.{
  ℕ, ◌+◌, ◌≡◌, sym, ap, ◌∙◌, List, [], ◌++◌, append-nil, append_assoc, arith, length, take,
  length-append, take-append_length, drop-append_length, All-append,
}
use gasworks.Spool.Bytes.{
  put_be, get_be, slice, IsByte, IsBytes, put_be-IsBytes, length-put_be, get_be-put_be,
}
use gasworks.Spool.Checks.{Checks}

-- crc32.Checksum of what is in the buffer, put behind it.
abbrev pub with_crc : Checks → List ℕ → List ℕ
with_crc c b = b ++ put_be 4 (c.crc32c b)

module _ (c : Checks) where
  pub length-with_crc : (b : List ℕ) → length (with_crc c b) ≡ length b + 4
  length-with_crc b =
      omega (arith, length-append b (put_be 4 (c.crc32c b)), length-put_be 4 (c.crc32c b))

  pub with_crc-IsBytes : (b : List ℕ) → IsBytes b → IsBytes (with_crc c b)
  with_crc-IsBytes b h =
      All-append IsByte b (put_be 4 (c.crc32c b)) h (put_be-IsBytes 4 (c.crc32c b))

  module _ (b rest : List ℕ) (n : ℕ) (size : length b ≡ n) where
    cut : (with_crc c b ++ rest) ≡ b ++ (put_be 4 (c.crc32c b) ++ rest)
    cut = append_assoc b (put_be 4 (c.crc32c b)) rest

    pub take-with_crc : take n (with_crc c b ++ rest) ≡ b
    take-with_crc = rw cut (take-append_length n b _ size)

    pub crc-with_crc : get_be (slice n 4 (with_crc c b ++ rest)) ≡ c.crc32c b
    crc-with_crc =
        rw
          (
            cut,
            drop-append_length n b (put_be 4 (c.crc32c b) ++ rest) size,
            take-append_length 4 (put_be 4 (c.crc32c b)) rest (length-put_be 4 (c.crc32c b)),
          )
          (get_be-put_be 4 _ (c.crc32c_lt b))

  -- The same where nothing follows.
  module _ (b : List ℕ) (n : ℕ) (size : length b ≡ n) where
    pub take-with_crc_end : take n (with_crc c b) ≡ b
    take-with_crc_end = ap (take n) (sym (append-nil (with_crc c b))) ∙ take-with_crc b [] n size

    pub crc-with_crc_end : get_be (slice n 4 (with_crc c b)) ≡ c.crc32c b
    crc-with_crc_end =
        ap (λ d. get_be (slice n 4 d)) (sym (append-nil (with_crc c b))) ∙ crc-with_crc b [] n size
