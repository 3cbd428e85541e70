-- ===== src/Spool/Segment.antt =====
-- segment.go: the segment-header codec, and one append-only `.seg` file with a serialized writer.
pub mod Header
pub mod Log
pub mod Append
pub mod Life
pub mod Create
pub mod Open
use gasworks.Prelude.{
  ℕ, zero, suc, ◌+◌, ◌-◌, Bool, true, false, not, ◌||◌, List, [], ◌∷◌, ◌++◌, Option, none, some,
  Result, ok, err, ltb, ◌==◌, if◌then◌else◌, length, take, drop,
}
use gasworks.Word.{max_int64, slt, sle, add64}
use gasworks.Spool.Bytes.{put_be, get_be, slice}
use gasworks.Spool.Sealed.{with_crc}
use gasworks.Spool.Checks.{Checks}
use gasworks.Spool.Sidecar.{max_source_id_len}
use gasworks.Spool.Frame.{
  Frame, EncodeError, encode_frame, decode_frame, frame_ok, frame_incomplete, frame_corrupt,
  sequence_max,
}

-- "OSG1"
abbrev pub segment_magic : ℕ
segment_magic = 0x4F534731

-- 64 << 20
abbrev pub default_segment_ceiling : ℕ
default_segment_ceiling = 67108864

abbrev pub seg_fixed_prefix_len : ℕ
seg_fixed_prefix_len = 26

abbrev pub seg_header_crc_len : ℕ
seg_header_crc_len = 4

pub record SegmentHeader : Type 0 where
  pub format_version : ℕ  -- uint32
  pub first_sequence : ℕ  -- int64
  pub creation_time : ℕ  -- nanoseconds since 1970, an int64
  pub source_id : List ℕ

pub data HeaderError : Type 0 where
  bad_source_id bad_segment_header : HeaderError

-- `sync` and the file's path are in the environment of each call.
pub record Segment : Type 0 where
  pub file : List ℕ
  pub header : SegmentHeader
  pub ceiling : ℕ
  pub size : ℕ
  pub last : ℕ

unfoldable pub ceiling_or_default : ℕ → ℕ
ceiling_or_default n = if sle n 0 then default_segment_ceiling else n

module _ (c : Checks) where
  unfoldable pub encode_segment_header : SegmentHeader → Result HeaderError (List ℕ)
  encode_segment_header h =
      if length h.source_id == 0 || ltb max_source_id_len (length h.source_id)
      then err bad_source_id
      else ok (
          with_crc c (
            put_be 4 segment_magic
            ++ put_be 4 h.format_version
            ++ put_be 8 h.first_sequence
            ++ put_be 8 h.creation_time
            ++ put_be 2 (length h.source_id)
            ++ h.source_id))

  unfoldable pub decode_segment_header : List ℕ → Result HeaderError (SegmentHeader × ℕ)
  decode_segment_header d =
      let id_len = get_be (slice 24 2 d) in
      let total = seg_fixed_prefix_len + id_len + seg_header_crc_len in
      if ltb (length d) seg_fixed_prefix_len
      then err bad_segment_header
      else if not (get_be (slice 0 4 d) == segment_magic)
      then err bad_segment_header
      else if id_len == 0 || ltb max_source_id_len id_len
      then err bad_segment_header
      else if ltb (length d) total
      then err bad_segment_header
      else if not (c.crc32c (take (total - 4) d) == get_be (slice (total - 4) 4 d))
      then err bad_segment_header
      else ok (
        record {
          format_version = get_be (slice 4 4 d);
          first_sequence = get_be (slice 8 8 d);
          creation_time = get_be (slice 16 8 d);
          source_id = slice seg_fixed_prefix_len id_len d;
        },
        total,
      )

-- The next sequence, or none when the sequence space is exhausted.
unfoldable pub next_expected : Segment → Option ℕ
next_expected s =
    if s.last == 0
    then some s.header.first_sequence
    else if sle sequence_max s.last
    then none
    else some (add64 s.last 1)

pub data OpenError : Type 0 where
  unclean_frame wrong_sequence : ℕ → OpenError
  bad_header : HeaderError → OpenError
  out_of_fuel : OpenError

pub data AppendError : Type 0 where
  sequence_exhausted non_contiguous segment_full write_failed sync_failed : AppendError
  encode_failed : EncodeError → AppendError

-- What the file system does with one append: how much of a failed write reaches the file, and
-- whether the calls fail.
pub record AppendEnv : Type 0 where
  pub write_fails : Bool
  pub short : ℕ
  pub sync_fails : Bool
  pub truncate_fails : Bool

-- (*os.File).WriteAt
abbrev pub write_at : List ℕ → ℕ → List ℕ → List ℕ
write_at file off b = take off file ++ (b ++ drop (off + length b) file)

unfoldable pub rollback : AppendEnv → Segment → Segment
rollback e s = if e.truncate_fails then s else record s { file = take s.size s.file }

-- Past the guards of `Append`.
unfoldable pub write_frame : AppendEnv → Segment → ℕ → List ℕ → Segment × Option AppendError
unfolding rollback
write_frame e s seq encoded =
    if e.write_fails
    then (
      rollback e (record s { file = write_at s.file s.size (take e.short encoded) }),
      some write_failed,
    )
    else if e.sync_fails
    then (rollback e (record s { file = write_at s.file s.size encoded }), some sync_failed)
    else (
      record s {
        file = write_at s.file s.size encoded;
        size = add64 s.size (length encoded);
        last = seq;
      },
      none,
    )

module _ (c : Checks) where
  unfoldable pub append : AppendEnv → Segment → Frame → Segment × Option AppendError
  append e s f = elim (next_expected s) [
    | none ↦ (s, some sequence_exhausted)
    | some expected ↦ elim (encode_frame c f) [
      | err x ↦ (s, some (encode_failed x))
      | ok encoded ↦
          if not (f.sequence == expected)
          then (s, some non_contiguous)
          else if slt s.ceiling (add64 s.size (length encoded))
          then (s, some segment_full)
          else write_frame e s f.sequence encoded
    ]
  ]

  -- The loop of `OpenSegment` at offset `off`, over what is left of the data. Each round takes a
  -- whole frame, so `length` of the data is enough fuel.
  unfoldable pub open_loop : ℕ → ℕ → ℕ → Segment → List ℕ → Result OpenError Segment
  open_loop fuel off expected s [] = ok s
  open_loop zero off expected s (b ∷ d) = err out_of_fuel
  open_loop (suc fuel) off expected s (b ∷ d) = elim (decode_frame c (b ∷ d)) [
    | frame_ok fr n ↦
        if not (fr.sequence == expected)
        then err (wrong_sequence off)
        else open_loop fuel (off + n) (add64 expected 1)
            (record s { last = fr.sequence; size = off + n }) (drop n (b ∷ d))
    | frame_incomplete ↦ err (unclean_frame off)
    | frame_corrupt ↦ err (unclean_frame off)
  ]

  unfoldable pub open_segment : List ℕ → ℕ → Result OpenError Segment
  unfolding open_loop ceiling_or_default
  open_segment d ceiling = elim (decode_segment_header c d) [
    | err e ↦ err (bad_header e)
    | ok (hdr, n) ↦
        open_loop (length d) n hdr.first_sequence
          (record {
            file = d;
            header = hdr;
            ceiling = ceiling_or_default ceiling;
            size = n;
            last = 0;
          })
          (drop n d)
  ]

  -- The loop of `ReadAll`.
  unfoldable pub read_loop : ℕ → ℕ → List Frame → List ℕ → Result OpenError (List Frame)
  read_loop fuel off frames [] = ok frames
  read_loop zero off frames (b ∷ d) = err out_of_fuel
  read_loop (suc fuel) off frames (b ∷ d) = elim (decode_frame c (b ∷ d)) [
    | frame_ok fr n ↦ read_loop fuel (off + n) (frames ++ fr ∷ []) (drop n (b ∷ d))
    | frame_incomplete ↦ err (unclean_frame off)
    | frame_corrupt ↦ err (unclean_frame off)
  ]

  unfoldable pub read_all : Segment → Result OpenError (List Frame)
  unfolding read_loop
  read_all s = elim (decode_segment_header c s.file) [
    | err e ↦ err (bad_header e)
    | ok (hdr, n) ↦ read_loop (length s.file) n [] (drop n s.file)
  ]
