-- ===== src/Spool/Frame/TornTail.antt =====
-- A write that was cut short: what `DecodeFrame` says of a prefix of a frame.
use gasworks.Prelude.{
  ℕ, ◌+◌, ◌≤◌, ◌<◌, ◌≡◌, ap, lt→ltb, ◌∙◌, List, ok, arith, length, take, length-take, slice-take,
  get_or-take, take-take, append-nil,
}
use native.Mathlib.Decide.{dec_lt}
use gasworks.Word.{IsInt64}
use gasworks.Spool.Checks.{Checks}
use gasworks.Spool.Frame.{Frame, frame_incomplete, encode_frame, decode_frame, decode_body}
use gasworks.Spool.Frame.Header.{IsHeader, decode-IsHeader}
use gasworks.Spool.Frame.RoundTrip.{
  frame_bytes, encode_frame-inv, length-frame_bytes, bytes-IsHeader,
}

module _ (c : Checks) where
  -- A header is judged by its own 56 bytes.
  pub take-IsHeader :
      (d : List ℕ) (seq n k : ℕ) → 56 ≤ k → IsHeader c d seq n → IsHeader c (take k d) seq n
  take-IsHeader d seq n k hk h = record {
    long = omega (arith, length-take k d, h.long);
    crc = rw (take-take 52 k d (omega arith), slice-take 52 4 k d (omega arith)) h.crc;
    magic = rw (slice-take 0 4 k d (omega arith)) h.magic;
    version = get_or-take 4 k d 0 (omega arith) ∙ h.version;
    header_len = rw (slice-take 6 2 k d (omega arith)) h.header_len;
    payload_len = rw (slice-take 8 4 k d (omega arith)) h.payload_len;
    small = h.small;
    sequence = rw (slice-take 12 8 k d (omega arith)) h.sequence;
    positive = h.positive;
  }

  pub decode_frame_short : (d : List ℕ) → length d < 56 → decode_frame c d ≡ frame_incomplete
  unfolding decode_frame
  decode_frame_short d h = ground arith

  -- A sound header with too few bytes behind it.
  pub decode_frame_cut :
      (d : List ℕ) (seq n : ℕ)
      → IsHeader c d seq n
      → length d < 60 + n
      → decode_frame c d ≡ frame_incomplete
  unfolding decode_body
  decode_frame_cut d seq n h hl =
      decode-IsHeader c d seq n h ∙ rw (lt→ltb (length d) (56 + n + 4) (omega arith))

  -- Every proper prefix of an encoded frame, the empty one included, is a torn tail: it decodes
  -- as incomplete and never as corrupt.
  pub decode_frame-take :
      (f : Frame) (b : List ℕ) (k : ℕ)
      → IsInt64 f.sequence
      → encode_frame c f ≡ ok b
      → k < length b
      → decode_frame c (take k b) ≡ frame_incomplete
  decode_frame-take f b k hs h hk = elim (dec_lt k 56) [
    | yes small ↦ decode_frame_short (take k b) (omega (arith, length-take k b))
    | no large ↦
        decode_frame_cut (take k b) f.sequence (length f.payload)
          (take-IsHeader b f.sequence (length f.payload) k (omega arith) header)
          (omega (arith, length-take k b, ap length shape, length-frame_bytes c f))
  ]
    where
      shape : b ≡ frame_bytes c f
      shape = (encode_frame-inv c f b h).1

      header : IsHeader c b f.sequence (length f.payload)
      header =
          rw (shape, ← append-nil (frame_bytes c f))
            (bytes-IsHeader c f List.[] hs (encode_frame-inv c f b h).0)
