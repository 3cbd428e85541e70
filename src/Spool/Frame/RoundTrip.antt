-- ===== src/Spool/Frame/RoundTrip.antt =====
-- `DecodeFrame` after `EncodeFrame`.
use gasworks.Prelude.{
  ℕ, ◌+◌, ◌≤◌, ◌≡◌, refl, sym, ap, ◌∙◌, false, List, [], ◌++◌, append_assoc, ok, arith, length,
  take, get_or, length-append, take-append_length, drop-append_length, All-append, ◌∷◌,
}
use gasworks.Word.{IsInt64, slt}
use gasworks.Spool.Bytes.{
  put_be, get_be, slice, IsByte, IsBytes, put_be-IsBytes, length-put_be, get_be-put_be,
}
use gasworks.Spool.Checks.{Checks}
use gasworks.Spool.Sealed.{with_crc, with_crc-IsBytes}
use gasworks.Spool.Frame.{
  Frame, frame_ok, header_prefix, frame_body, encode_frame, decode_frame, max_frame_payload,
  sequence_max, frame_magic,
}
use gasworks.Spool.Frame.Header.{
  IsHeader, decode-IsHeader, front, length-front, frame_body-front, front-IsHeader, sha-front,
  flags-front, decode_body-ok,
}

-- What the encoder asks of a frame.
pub record IsEncodable (f : Frame) : Type 0 where
  pub positive : slt f.sequence 1 ≡ false
  pub in_range : slt sequence_max f.sequence ≡ false
  pub small : length f.payload ≤ max_frame_payload

module _ (c : Checks) where
  -- The bytes of an encodable frame.
  abbrev pub frame_bytes : Frame → List ℕ
  frame_bytes f = frame_body c f ++ put_be 4 (c.crc32c (frame_body c f))

  -- The hash that the caller put in the frame is not written.
  pub frame_bytes-sha :
      (f : Frame) (h : List ℕ) → frame_bytes (record f { sha256 = h }) ≡ frame_bytes f
  unfolding frame_body
  frame_bytes-sha f h = refl

  pub encode_frame-inv :
      (f : Frame) (b : List ℕ) → encode_frame c f ≡ ok b → IsEncodable f × (b ≡ frame_bytes f)
  unfolding encode_frame
  encode_frame-inv f b h = ground arith

  pub encode_frame-IsEncodable : (f : Frame) → IsEncodable f → encode_frame c f ≡ ok (frame_bytes f)
  unfolding encode_frame
  encode_frame-IsEncodable f h = ground arith

  header_prefix-IsBytes : (f : Frame) → IsByte f.flags → IsBytes (header_prefix c f)
  unfolding header_prefix
  header_prefix-IsBytes f h =
      All-append IsByte _ (c.sha256 f.payload)
        (All-append IsByte _ (put_be 8 f.sequence)
          (All-append IsByte _ (put_be 4 (length f.payload))
            (All-append IsByte _ (put_be 2 56)
              (All-append IsByte (put_be 4 frame_magic) (2 ∷ f.flags ∷ [])
                (put_be-IsBytes 4 frame_magic) (omega arith, (h, tt)))
              (put_be-IsBytes 2 56))
            (put_be-IsBytes 4 (length f.payload)))
          (put_be-IsBytes 8 f.sequence))
        (c.sha256-IsBytes f.payload)

  -- An encoded frame is made of bytes.
  pub frame_bytes-IsBytes :
      (f : Frame) → IsByte f.flags → IsBytes f.payload → IsBytes (frame_bytes f)
  unfolding frame_body
  frame_bytes-IsBytes f hf hp = with_crc-IsBytes c (frame_body c f) (
      All-append IsByte (with_crc c (header_prefix c f)) f.payload
        (with_crc-IsBytes c (header_prefix c f) (header_prefix-IsBytes f hf)) hp)

  pub length-frame_body : (f : Frame) → length (frame_body c f) ≡ 56 + length f.payload
  length-frame_body f =
      ap length (frame_body-front c f)
      ∙ omega (arith, length-append (front c f) f.payload, length-front c f)

  pub length-frame_bytes : (f : Frame) → length (frame_bytes f) ≡ 60 + length f.payload
  length-frame_bytes f = omega (
    arith,
    length-append (frame_body c f) (put_be 4 (c.crc32c (frame_body c f))),
    length-frame_body f,
    length-put_be 4 (c.crc32c (frame_body c f)),
  )

  module _ (f : Frame) (rest : List ℕ) where
    -- The bytes cut behind the body, and behind the header.
    body_cut :
        (frame_bytes f ++ rest) ≡ frame_body c f ++ (put_be 4 (c.crc32c (frame_body c f)) ++ rest)
    body_cut = append_assoc (frame_body c f) (put_be 4 (c.crc32c (frame_body c f))) rest

    pub front_cut :
        (frame_bytes f ++ rest)
        ≡ front c f ++ (f.payload ++ (put_be 4 (c.crc32c (frame_body c f)) ++ rest))
    front_cut =
        body_cut
        ∙ ap (λ b. b ++ (put_be 4 (c.crc32c (frame_body c f)) ++ rest)) (frame_body-front c f)
        ∙ append_assoc (front c f) f.payload _

    take-body : take (56 + length f.payload) (frame_bytes f ++ rest) ≡ frame_body c f
    take-body = rw body_cut (take-append_length _ _ _ (length-frame_body f))

    slice-crc :
        get_be (slice (56 + length f.payload) 4 (frame_bytes f ++ rest)) ≡ c.crc32c (frame_body c f)
    slice-crc =
        rw
          (
            body_cut,
            drop-append_length (56 + length f.payload) (frame_body c f)
                (put_be 4 (c.crc32c (frame_body c f)) ++ rest) (length-frame_body f),
            take-append_length 4 (put_be 4 (c.crc32c (frame_body c f))) rest
                (length-put_be 4 (c.crc32c (frame_body c f))),
          )
          (get_be-put_be 4 _ (c.crc32c_lt (frame_body c f)))

    slice-payload : slice 56 (length f.payload) (frame_bytes f ++ rest) ≡ f.payload
    slice-payload =
        rw
          (
            front_cut,
            drop-append_length 56 (front c f)
                (f.payload ++ (put_be 4 (c.crc32c (frame_body c f)) ++ rest)) (length-front c f),
          )
          (take-append_length _ f.payload _ refl)

    slice-sha : slice 20 32 (frame_bytes f ++ rest) ≡ c.sha256 f.payload
    slice-sha = rw front_cut (sha-front c f _)

    flags_read : get_or (frame_bytes f ++ rest) 5 0 ≡ f.flags
    flags_read = rw front_cut (flags-front c f _)

    pub bytes-IsHeader :
        IsInt64 f.sequence
        → IsEncodable f
        → IsHeader c (frame_bytes f ++ rest) f.sequence (length f.payload)
    bytes-IsHeader hs h = rw front_cut (front-IsHeader c f _ hs h.positive h.small)

    pub long_enough : 60 + length f.payload ≤ length (frame_bytes f ++ rest)
    long_enough = omega (arith, length-append (frame_bytes f) rest, length-frame_bytes f)

    pub decode_frame-bytes :
        IsInt64 f.sequence
        → IsEncodable f
        → decode_frame c (frame_bytes f ++ rest)
          ≡ frame_ok (record f { sha256 = c.sha256 f.payload }) (60 + length f.payload)
    decode_frame-bytes hs h =
        decode-IsHeader c _ f.sequence (length f.payload) (bytes-IsHeader hs h)
        ∙ decode_body-ok c _ f.sequence (length f.payload) f.flags f.payload (c.sha256 f.payload)
            long_enough (ap c.crc32c take-body ∙ sym slice-crc) slice-payload slice-sha refl
            flags_read

  -- Whatever follows it, an encoded frame decodes to its sequence, flags and payload, with the
  -- payload's SHA-256, and to the number of bytes that it took.
  pub decode_frame-encode_frame :
      (f : Frame) (b rest : List ℕ)
      → IsInt64 f.sequence
      → encode_frame c f ≡ ok b
      → decode_frame c (b ++ rest) ≡ frame_ok (record f { sha256 = c.sha256 f.payload }) (length b)
  decode_frame-encode_frame f b rest hs h =
      let (e, shape) = encode_frame-inv f b h in
      rw (shape, length-frame_bytes f) (decode_frame-bytes f rest hs e)
