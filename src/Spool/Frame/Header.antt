-- ===== src/Spool/Frame/Header.antt =====
-- The fixed 56-byte header: what `DecodeFrame` reads from what `EncodeFrame` wrote.
use gasworks.Prelude.{
  ℕ, ◌+◌, ◌≤◌, ◌≡◌, refl, sym, ap, ◌∙◌, false, List, ◌++◌, append_assoc, arith, length, take,
  get_or, list_eq_refl, length-append, take-append_length, drop-append_length,
}
use gasworks.Word.{IsInt64, slt}
use gasworks.Spool.Bytes.{put_be, get_be, slice, length-put_be, get_be-put_be}
use gasworks.Spool.Checks.{Checks}
use gasworks.Spool.Frame.{
  Frame, frame_ok, header_prefix, frame_body, decode_frame, decode_body, max_frame_payload,
  frame_magic,
}

-- The header of `d` passes every test, with sequence `seq` and payload length `n`.
pub record IsHeader (c : Checks) (d : List ℕ) (seq n : ℕ) : Type 0 where
  pub long : 56 ≤ length d
  pub crc : c.crc32c (take 52 d) ≡ get_be (slice 52 4 d)
  pub magic : get_be (slice 0 4 d) ≡ frame_magic
  pub version : get_or d 4 0 ≡ 2
  pub header_len : get_be (slice 6 2 d) ≡ 56
  pub payload_len : get_be (slice 8 4 d) ≡ n
  pub small : n ≤ max_frame_payload
  pub sequence : get_be (slice 12 8 d) ≡ seq
  pub positive : slt seq 1 ≡ false

module _ (c : Checks) where
  -- Past a sound header the verdict is that of the body.
  pub decode-IsHeader :
      (d : List ℕ) (seq n : ℕ) → IsHeader c d seq n → decode_frame c d ≡ decode_body c d seq n
  unfolding decode_frame
  decode-IsHeader d seq n h = ground arith

  pub length-header_prefix : (f : Frame) → length (header_prefix c f) ≡ 52
  unfolding header_prefix put_be
  length-header_prefix f = omega (arith, c.length-sha256 f.payload)

  -- The 56 bytes in front of the payload.
  abbrev pub front : Frame → List ℕ
  front f = header_prefix c f ++ put_be 4 (c.crc32c (header_prefix c f))

  pub length-front : (f : Frame) → length (front f) ≡ 56
  length-front f = omega (
    arith,
    length-append (header_prefix c f) (put_be 4 (c.crc32c (header_prefix c f))),
    length-header_prefix f,
    length-put_be 4 (c.crc32c (header_prefix c f)),
  )

  pub frame_body-front : (f : Frame) → frame_body c f ≡ front f ++ f.payload
  unfolding frame_body
  frame_body-front f = refl

  sha_read : (f : Frame) (r : List ℕ) → slice 20 32 (header_prefix c f ++ r) ≡ c.sha256 f.payload
  unfolding header_prefix put_be
  sha_read f r = take-append_length 32 (c.sha256 f.payload) r (c.length-sha256 f.payload)

  module _ (f : Frame) (rest : List ℕ) where
    front-append :
        (front f ++ rest) ≡ header_prefix c f ++ (put_be 4 (c.crc32c (header_prefix c f)) ++ rest)
    front-append = append_assoc (header_prefix c f) (put_be 4 (c.crc32c (header_prefix c f))) rest

    take-front : take 52 (front f ++ rest) ≡ header_prefix c f
    take-front = rw front-append (take-append_length 52 _ _ (length-header_prefix f))

    stored_crc : get_be (slice 52 4 (front f ++ rest)) ≡ c.crc32c (header_prefix c f)
    stored_crc =
        rw
          (
            front-append,
            drop-append_length 52 (header_prefix c f)
                (put_be 4 (c.crc32c (header_prefix c f)) ++ rest) (length-header_prefix f),
            take-append_length 4 _ rest (length-put_be 4 (c.crc32c (header_prefix c f))),
          )
          (get_be-put_be 4 _ (c.crc32c_lt (header_prefix c f)))

    -- A header that the encoder wrote is read back whole.
    pub front-IsHeader :
        IsInt64 f.sequence
        → slt f.sequence 1 ≡ false
        → length f.payload ≤ max_frame_payload
        → IsHeader c (front f ++ rest) f.sequence (length f.payload)
    unfolding header_prefix put_be
    front-IsHeader hs hp hl = record {
      long = omega (arith, length-append (front f) rest, length-front f);
      crc = ap c.crc32c take-front ∙ sym stored_crc;
      magic = get_be-put_be 4 frame_magic (omega arith);
      version = refl;
      header_len = get_be-put_be 2 56 (omega arith);
      payload_len = get_be-put_be 4 (length f.payload) (omega arith);
      small = hl;
      sequence = get_be-put_be 8 f.sequence (omega arith);
      positive = hp;
    }

    pub sha-front : slice 20 32 (front f ++ rest) ≡ c.sha256 f.payload
    sha-front = rw front-append (sha_read f (put_be 4 (c.crc32c (header_prefix c f)) ++ rest))

    pub flags-front : get_or (front f ++ rest) 5 0 ≡ f.flags
    unfolding header_prefix put_be
    flags-front = refl

  -- A body whose parts read as they should.
  pub decode_body-ok :
      (d : List ℕ) (seq n flags : ℕ) (payload sha : List ℕ)
      → 60 + n ≤ length d
      → c.crc32c (take (56 + n) d) ≡ get_be (slice (56 + n) 4 d)
      → slice 56 n d ≡ payload
      → slice 20 32 d ≡ sha
      → c.sha256 payload ≡ sha
      → get_or d 5 0 ≡ flags
      → decode_body c d seq n
        ≡ frame_ok
            (record { sequence = seq; flags = flags; payload = payload; sha256 = sha })
            (60 + n)
  unfolding decode_body
  decode_body-ok d seq n flags payload sha hl hc hp hs he hf = ground (arith, list_eq_refl sha)
