-- ===== src/Upload/Store/Planner.antt =====
-- The planner over the store of the log.
use gasworks.Prelude.{ℕ, ◌+◌, ◌≤◌, ◌≡◌, refl, List, ◌++◌, Option, none, some, ok, length}
use gasworks.Word.{max_int64}
use gasworks.Spool.Checks.{Checks}
use gasworks.Spool.Ack.{AckState, SequenceRange}
use gasworks.Spool.Ack.Invariant.{IsSound}
use gasworks.Spool.Frame.{Frame}
use gasworks.Spool.Segment.{SegmentHeader, ceiling_or_default}
use gasworks.Spool.Segment.Header.{IsStorable, header_bytes}
use gasworks.Spool.Segment.Log.{IsLog, log_bytes}
use gasworks.Spool.Segment.Open.{open_segment-Holds}
use gasworks.Spool.Segment.Life.{read_all-Holds}
use gasworks.Upload.Retry.{Text}
use gasworks.Upload.Batch.{Caps, resolve, Record, Plan, next}
use gasworks.Upload.Batch.Plans.{next_replays}
use gasworks.Upload.Store.{Listing, SegmentRef, read_segment_frames, read_range}
use gasworks.Upload.Store.Contract.{IsWal, read_range-IsStore}

-- A whole segment gives its frames.
pub read_segment_frames-whole :
    (c : Checks) (h : SegmentHeader) (fs : List Frame) (s : SegmentRef)
    → s.bytes ≡ header_bytes c h ++ log_bytes c fs
    → IsStorable h
    → IsLog c h.first_sequence fs
    → 1 ≤ h.first_sequence
    → h.first_sequence ≤ max_int64
    → length (header_bytes c h ++ log_bytes c fs) ≤ ceiling_or_default 0
    → ceiling_or_default 0 ≤ 4611686018427387904
    → read_segment_frames c s ≡ some fs
unfolding read_segment_frames
read_segment_frames-whole c h fs s bytes st log h1 h2 fits top =
    let (seg, opened, holds, exact) = open_segment-Holds c h fs 0 st log h1 h2 fits top in
    rw (bytes, read_segment_frames, opened, read_all-Holds c seg fs exact holds) refl

module _ (c : Checks) (wal : Listing)
    (encode : Text → SequenceRange → List Record → Option (List ℕ)) (source : Text) (caps : Caps)
    (a a' : AckState) (plan : Plan) (sound : IsSound c a) (idle : a.in_flight ≡ none)
    (named : IsWal c wal) (some_allowed : 1 ≤ (resolve caps).max_observations)
    (fits : a.highest_durable + (resolve caps).max_observations ≤ max_int64)
    (found : next (read_range c wal) encode source caps a ≡ (a', ok (some plan))) where
  -- Where the planner formed a new batch over such a log, whose segments hold sequences from the
  -- one in their name on, from a sound state with nothing in flight and under caps that allow a
  -- record and do not run past the end of int64: a further call over the same log, with whatever
  -- caps, reads the range again and gives the same batch, byte for byte, and changes nothing.
  pub next_replays_spool :
      (caps' : Caps) → next (read_range c wal) encode source caps' a' ≡ (a', ok (some plan))
  next_replays_spool caps' =
      next_replays (read_range c wal) encode c source caps a a' plan sound idle
        (read_range-IsStore c wal named) some_allowed fits found caps'
