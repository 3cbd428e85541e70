-- ===== src/Spool/Sidecar/RoundTrip.antt =====
-- The sidecars are read back as they were written, and nothing else is read.
use gasworks.Prelude.{
  ℕ, ◌+◌, ◌-◌, ◌≤◌, ◌<◌, ◌≡◌, refl, sym, ap, ◌∙◌, false, List, ◌++◌, ok, some, arith, length, take,
  drop, take_all, length-take, length-drop, All-append, All-take, All-drop, take-append_length,
}
use gasworks.Word.{IsNat63, slt}
use gasworks.Spool.Bytes.{
  put_be, get_be, slice, get_be-put_be, IsByte, IsBytes, put_be-IsBytes, put_be-slice, append-slice,
  get_be-lt,
}
use gasworks.Spool.Sealed.{
  with_crc, with_crc-IsBytes, length-with_crc, take-with_crc_end, crc-with_crc_end,
}
use gasworks.Spool.Checks.{Checks}
use gasworks.Spool.Sidecar.{
  Identity, identity_magic, ack_magic, max_source_id_len, encode_identity, decode_identity,
  encode_ack, decode_ack, read_ack, read_identity, content,
}

nonneg : (v : ℕ) → v < 18446744073709551616 → slt v 0 ≡ false → IsNat63 v
nonneg v h p = ground arith

module _ (c : Checks) where
  decode_ack-ok :
      (d : List ℕ) (v : ℕ)
      → length d ≡ 16
      → get_be (slice 0 4 d) ≡ ack_magic
      → c.crc32c (take 12 d) ≡ get_be (slice 12 4 d)
      → get_be (slice 4 8 d) ≡ v
      → IsNat63 v
      → decode_ack c d ≡ ok v
  unfolding decode_ack
  decode_ack-ok d v hl hm hc hv hn = ground arith

  pub encode_ack-IsBytes : (v : ℕ) → IsBytes (encode_ack c v)
  unfolding encode_ack
  encode_ack-IsBytes v = with_crc-IsBytes c (put_be 4 ack_magic ++ put_be 8 v) (
      All-append IsByte (put_be 4 ack_magic) (put_be 8 v) (put_be-IsBytes 4 ack_magic)
        (put_be-IsBytes 8 v))

  -- A watermark that is not negative survives the acknowledgement sidecar.
  pub decode_ack-encode_ack : (v : ℕ) → IsNat63 v → decode_ack c (encode_ack c v) ≡ ok v
  unfolding encode_ack put_be
  decode_ack-encode_ack v h =
      decode_ack-ok _ v refl (get_be-put_be 4 ack_magic (omega arith))
        (sym (get_be-put_be 4 (c.crc32c _) (c.crc32c_lt _))) (get_be-put_be 8 v (omega arith)) h

  pub read_ack-encode_ack : (w : ℕ) → IsNat63 w → read_ack c (content (encode_ack c w)) ≡ ok w
  unfolding read_ack
  read_ack-encode_ack w hw = decode_ack-encode_ack w hw

  decode_ack-inv :
      (d : List ℕ) (v : ℕ)
      → decode_ack c d ≡ ok v
      → (length d ≡ 16)
        × (get_be (slice 0 4 d) ≡ ack_magic)
        × (c.crc32c (take 12 d) ≡ get_be (slice 12 4 d))
        × (get_be (slice 4 8 d) ≡ v)
        × (slt v 0 ≡ false)
  unfolding decode_ack
  decode_ack-inv d v h = ground arith

  -- A file of bytes that the decoder takes for watermark `v` is the file that is written for `v`,
  -- which is not negative.
  pub encode_ack-decode_ack :
      (d : List ℕ) (v : ℕ) → IsBytes d → decode_ack c d ≡ ok v → (encode_ack c v ≡ d) × IsNat63 v
  unfolding encode_ack
  encode_ack-decode_ack d v hb h = (encoded, nat63)
    where
      inv :
          (length d ≡ 16)
          × (get_be (slice 0 4 d) ≡ ack_magic)
          × (c.crc32c (take 12 d) ≡ get_be (slice 12 4 d))
          × (get_be (slice 4 8 d) ≡ v)
          × (slt v 0 ≡ false)
      inv = decode_ack-inv d v h

      size : length d ≡ 16
      size = inv.0

      body : (put_be 4 ack_magic ++ put_be 8 v) ≡ take 12 d
      body =
          append-slice d 4 8 _ _ (put_be-slice 0 4 ack_magic d inv.1 (omega (arith, size)) hb)
            (put_be-slice 4 8 v d inv.3 (omega (arith, size)) hb)

      encoded : with_crc c (put_be 4 ack_magic ++ put_be 8 v) ≡ d
      encoded =
          append-slice d 12 4 _ _ body
            (put_be-slice 12 4 _ d (sym inv.2 ∙ ap c.crc32c (sym body)) (omega (arith, size)) hb)
          ∙ take_all 16 d (omega (arith, size))

      below : v < 18446744073709551616
      below = rw (← inv.3) (
          get_be-lt 8 (slice 4 8 d) (omega (arith, length-take 8 (drop 4 d), length-drop 4 d, size))
            (All-take IsByte 8 (drop 4 d) (All-drop IsByte 4 d hb)))

      nat63 : IsNat63 v
      nat63 = nonneg v below inv.4

  -- What the identity sidecar can hold.
  pub record IsStorable (i : Identity) : Type 0 where
    pub nonempty : 1 ≤ length i.source_id
    pub bounded : length i.source_id ≤ max_source_id_len
    pub version : i.format_version < 4294967296

  decode_identity-ok :
      (d : List ℕ) (n : ℕ) (id : List ℕ) (v : ℕ)
      → 1 ≤ n
      → n ≤ max_source_id_len
      → length d ≡ n + 14
      → get_be (slice 0 4 d) ≡ identity_magic
      → get_be (slice 8 2 d) ≡ n
      → c.crc32c (take (10 + n) d) ≡ get_be (slice (10 + n) 4 d)
      → slice 10 n d ≡ id
      → get_be (slice 4 4 d) ≡ v
      → decode_identity c d ≡ ok (record { source_id = id; format_version = v })
  unfolding decode_identity
  decode_identity-ok d n id v h1 h2 hl hm hn hc hi hv =
      let e : 10 + n + 4 - 4 ≡ 10 + n = omega arith in rw (hn, e) (ground arith)

  -- The identity file without its checksum.
  abbrev identity_body : Identity → List ℕ
  identity_body i =
      put_be 4 identity_magic
      ++ put_be 4 i.format_version
      ++ put_be 2 (length i.source_id)
      ++ i.source_id

  length-identity_body : (i : Identity) → length (identity_body i) ≡ 10 + length i.source_id
  unfolding put_be
  length-identity_body i = omega arith

  -- A storable source id and format version survive the identity sidecar.
  pub decode_identity-encode_identity :
      (i : Identity) → IsStorable i → decode_identity c (encode_identity c i) ≡ ok i
  unfolding encode_identity put_be
  decode_identity-encode_identity i h =
      decode_identity-ok (encode_identity c i) (length i.source_id) i.source_id i.format_version
        h.nonempty h.bounded
        (omega (arith, length-with_crc c (identity_body i), length-identity_body i))
        (get_be-put_be 4 identity_magic (omega arith))
        (get_be-put_be 2 (length i.source_id) (omega arith))
        (ap c.crc32c (take-with_crc_end c (identity_body i) _ (length-identity_body i))
          ∙ sym (crc-with_crc_end c (identity_body i) _ (length-identity_body i)))
        (take-append_length _ i.source_id _ refl) (get_be-put_be 4 i.format_version h.version)

  pub read_identity-encode_identity :
      (i : Identity) → IsStorable i → read_identity c (content (encode_identity c i)) ≡ ok (some i)
  unfolding read_identity
  read_identity-encode_identity i h = rw (decode_identity-encode_identity i h, read_identity)
