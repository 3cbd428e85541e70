-- ===== src/Spool/Frame.antt =====
-- frame.go: the observation frame, `EncodeFrame` and `DecodeFrame`.
-- The encoder writes the fields one behind the other at the offsets that the decoder reads from.
pub mod Header
pub mod RoundTrip
pub mod TornTail
pub mod Canonical
use gasworks.Prelude.{
  ℕ, ◌+◌, Bool, true, false, not, ◌||◌, List, [], ◌∷◌, ◌++◌, Result, ok, err, ltb, ◌==◌,
  if◌then◌else◌, length, take, get_or, list_eq,
}
use gasworks.Word.{max_int64, slt}
use gasworks.Spool.Bytes.{put_be, get_be, slice}
use gasworks.Spool.Checks.{Checks}

-- "OFR1"
abbrev pub frame_magic : ℕ
frame_magic = 0x4F465231

abbrev pub frame_version : ℕ
frame_version = 2

abbrev pub header_prefix_len : ℕ
header_prefix_len = 52

abbrev pub fixed_frame_header_len : ℕ
fixed_frame_header_len = 56

abbrev pub frame_crc_len : ℕ
frame_crc_len = 4

-- 4 << 20
abbrev pub max_frame_payload : ℕ
max_frame_payload = 4194304

-- wire.SequenceMin and wire.SequenceMax
abbrev pub sequence_min : ℕ
sequence_min = 1

abbrev pub sequence_max : ℕ
sequence_max = max_int64

pub record Frame : Type 0 where
  pub sequence : ℕ  -- int64
  pub flags : ℕ  -- uint8
  pub payload : List ℕ
  pub sha256 : List ℕ  -- [32]byte

pub data EncodeError : Type 0 where
  sequence_out_of_range : ℕ → EncodeError
  record_too_large : ℕ → ℕ → EncodeError

-- The triple that `DecodeFrame` returns: with any status but FrameOK the frame and the length are
-- zero.
pub data Decoded : Type 0 where
  frame_ok : Frame → ℕ → Decoded
  frame_incomplete : Decoded
  frame_corrupt : Decoded

module _ (c : Checks) where
  -- buf[:headerPrefixLen]
  pub header_prefix : Frame → List ℕ
  header_prefix f =
      put_be 4 frame_magic
      ++ (frame_version ∷ f.flags ∷ [])
      ++ put_be 2 fixed_frame_header_len
      ++ put_be 4 (length f.payload)
      ++ put_be 8 f.sequence
      ++ c.sha256 f.payload

  -- buf[:fixedFrameHeaderLen+len(f.Payload)]
  pub frame_body : Frame → List ℕ
  unfolding header_prefix
  frame_body f = header_prefix f ++ put_be 4 (c.crc32c (header_prefix f)) ++ f.payload

  unfoldable pub encode_frame : Frame → Result EncodeError (List ℕ)
  unfolding frame_body
  encode_frame f =
      if slt f.sequence sequence_min || slt sequence_max f.sequence
      then err (sequence_out_of_range f.sequence)
      else if ltb max_frame_payload (length f.payload)
      then err (record_too_large (length f.payload) max_frame_payload)
      else ok (frame_body f ++ put_be 4 (c.crc32c (frame_body f)))

  -- From the point where the fixed header is known to be sound: `n` is payload_length.
  unfoldable pub decode_body : List ℕ → ℕ → ℕ → Decoded
  decode_body d seq n =
      if ltb (length d) (fixed_frame_header_len + n + frame_crc_len)
      then frame_incomplete
      else if not (
          c.crc32c (take (fixed_frame_header_len + n) d)
          == get_be (slice (fixed_frame_header_len + n) frame_crc_len d))
      then frame_corrupt
      else if not (list_eq (c.sha256 (slice fixed_frame_header_len n d)) (slice 20 32 d))
      then frame_corrupt
      else frame_ok
          (record {
            sequence = seq;
            flags = get_or d 5 0;
            payload = slice fixed_frame_header_len n d;
            sha256 = slice 20 32 d;
          })
          (fixed_frame_header_len + n + frame_crc_len)

  unfoldable pub decode_frame : List ℕ → Decoded
  decode_frame d =
      if ltb (length d) fixed_frame_header_len
      then frame_incomplete
      else if not (c.crc32c (take header_prefix_len d) == get_be (slice 52 4 d))
      then frame_corrupt
      else if not (get_be (slice 0 4 d) == frame_magic)
      then frame_corrupt
      else if not (get_or d 4 0 == frame_version)
      then frame_corrupt
      else if not (get_be (slice 6 2 d) == fixed_frame_header_len)
      then frame_corrupt
      else if ltb max_frame_payload (get_be (slice 8 4 d))
      then frame_corrupt
      else if slt (get_be (slice 12 8 d)) sequence_min
      then frame_corrupt
      else decode_body d (get_be (slice 12 8 d)) (get_be (slice 8 4 d))
