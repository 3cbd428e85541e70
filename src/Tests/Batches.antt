-- ===== src/Tests/Batches.antt =====
-- The planner over a log of two frames that are durable behind the watermark 6.
use gasworks.Prelude.{
  ℕ, ◌≤◌, ◌≡◌, refl, ◌∙◌, sym, subst, true, false, Option, some, ok, List, [], ◌∷◌, ◌++◌, codes,
  arith, length, length-append, All,
}
use gasworks.Spool.Ack.{AckState, SequenceRange, set_in_flight}
use gasworks.Spool.Compact.{trim_suffix, parse_int, parse_digits}
use gasworks.Spool.Frame.{Frame}
use gasworks.Spool.Frame.RoundTrip.{length-frame_bytes, frame_bytes}
use gasworks.Spool.Segment.{ceiling_or_default}
use gasworks.Spool.Segment.Header.{header_bytes, length-header_bytes}
use gasworks.Spool.Segment.Log.{log_bytes}
use gasworks.Upload.Retry.{Text}
use gasworks.Upload.Batch.{
  Caps, Record, Plan, resolve, next, verify_contiguous, byte_budget_cut, body_byte_len,
  last_sequence_of, tentative_last, form, offer_range, planned, digits, format_int_len,
  json_string_len, escaped_len, payload_bytes, rune_len, runes_len,
}
use gasworks.Upload.Batch.Plans.{IsStore}
use gasworks.Upload.Store.{
  Listing, entries, SegmentRef, segment_refs, sort_refs, list_segment_paths, window,
  read_segment_frames, read_segments, read_range,
}
use gasworks.Upload.Store.Contract.{IsNamed, IsWal, read_range-IsStore}
use gasworks.Upload.Store.Planner.{read_segment_frames-whole, next_replays_spool}
use gasworks.Tests.Data.{toy, frame_seven, frame_eight, header_seven}
use gasworks.Tests.Recovery.{header_seven-IsStorable, seven-IsStamped, eight-IsStamped}
use gasworks.Tests.Acks.{resumed, resumed-IsSound}

abbrev two_frames : List Frame
two_frames = frame_seven ∷ frame_eight ∷ []

abbrev segment : SegmentRef
segment = record { first = 7; bytes = header_bytes toy header_seven ++ log_bytes toy two_frames }

-- A directory and a file of another kind beside the segment.
abbrev wal : Listing
wal = entries (
    record { name = codes "old.seg"; is_dir = true; bytes = [] }
    ∷ record { name = codes "7.seg"; is_dir = false; bytes = segment.bytes }
    ∷ record { name = codes "notes"; is_dir = false; bytes = [] }
    ∷ [])

length-two_frames : length segment.bytes ≤ 1000
length-two_frames = omega (
  arith,
  length-append (header_bytes toy header_seven) (log_bytes toy two_frames),
  length-header_bytes toy header_seven,
  length-append (frame_bytes toy frame_seven) (frame_bytes toy frame_eight ++ []),
  length-append (frame_bytes toy frame_eight) [],
  length-frame_bytes toy frame_seven,
  length-frame_bytes toy frame_eight,
)

default_ceiling : ceiling_or_default 0 ≡ 67108864
unfolding ceiling_or_default
default_ceiling = refl

segment_read : read_segment_frames toy segment ≡ some two_frames
segment_read =
    read_segment_frames-whole toy header_seven two_frames segment refl header_seven-IsStorable
      (seven-IsStamped, (eight-IsStamped, tt)) (omega arith) (omega arith)
      (omega (arith, default_ceiling, length-two_frames)) (omega (arith, default_ceiling))

segment-IsNamed : IsNamed toy segment
segment-IsNamed = record {
  first = omega arith;
  frames = λ fs e.
      let same : two_frames ≡ fs = cc (sym segment_read ∙ e) in
      subst (All (λ f. (7 ≤ f.sequence) × (f.sequence ≤ 9223372036854775807))) same
        ((omega arith, omega arith), ((omega arith, omega arith), tt));
}

wal_refs :
    segment_refs (
      record { name = codes "old.seg"; is_dir = true; bytes = [] }
      ∷ record { name = codes "7.seg"; is_dir = false; bytes = segment.bytes }
      ∷ record { name = codes "notes"; is_dir = false; bytes = [] }
      ∷ [])
    ≡ some (segment ∷ [])
unfolding segment_refs trim_suffix parse_int parse_digits
wal_refs = refl

wal-IsWal : IsWal toy wal
wal-IsWal refs parsed =
    let same : segment ∷ [] ≡ refs = cc (sym wal_refs ∙ parsed) in
    subst (All (IsNamed toy)) same (segment-IsNamed, tt)

abbrev seven : Record
seven = record { sequence = 7; payload = frame_seven.payload }

abbrev eight : Record
eight = record { sequence = 8; payload = frame_eight.payload }

read_both : read_range toy wal 7 8 ≡ some (seven ∷ eight ∷ [])
unfolding read_range list_segment_paths sort_refs read_segments window
read_both = rw (wal_refs, list_segment_paths) (rw (segment_read, read_segments) refl)

read_range-IsStore_example : IsStore (read_range toy wal)
read_range-IsStore_example = read_range-IsStore toy wal wal-IsWal

-- A body that shows how many records went into it.
abbrev count_body : Text → SequenceRange → List Record → Option (List ℕ)
count_body source r rs = some (length rs ∷ [])

abbrev some_caps : Caps
some_caps = record { max_observations = 5; max_batch_bytes = 0 }

abbrev plan : Plan
plan = record { range = record { first_sequence = 7; last_sequence = 8 }; body = 2 ∷ [] }

abbrev planned_state : AckState
planned_state = record resumed { in_flight = some plan.range }

both_planned :
    next (read_range toy wal) count_body (codes "s1") some_caps resumed
    ≡ (planned_state, ok (some plan))
unfolding next resolve tentative_last form offer_range planned set_in_flight byte_budget_cut
    body_byte_len verify_contiguous last_sequence_of format_int_len digits json_string_len
    escaped_len payload_bytes rune_len runes_len
both_planned = rw read_both refl

some_allowed : (resolve some_caps).max_observations ≡ 5
unfolding resolve
some_allowed = refl

next_replays_spool_example :
    next
      (read_range toy wal)
      count_body
      (codes "s1")
      (record { max_observations = 1; max_batch_bytes = 1 })
      planned_state
    ≡ (planned_state, ok (some plan))
next_replays_spool_example =
    next_replays_spool toy wal count_body (codes "s1") some_caps resumed planned_state plan
      resumed-IsSound refl wal-IsWal (omega (arith, some_allowed)) (omega (arith, some_allowed))
      both_planned (record { max_observations = 1; max_batch_bytes = 1 })

-- A two-byte rune counts its bytes, a byte that is not UTF-8 three.
invalid_byte : json_string_len (195 ∷ 169 ∷ 255 ∷ 34 ∷ []) ≡ 9
unfolding json_string_len escaped_len rune_len runes_len
invalid_byte = refl
