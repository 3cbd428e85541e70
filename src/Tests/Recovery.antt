-- ===== src/Tests/Recovery.antt =====
-- A segment, its life, and recovery after a crash.
use gasworks.Prelude.{
  ℕ, ◌≡◌, ◌≤◌, ◌⊎◌, some, inl, inr, refl, Bool, true, false, List, [], ◌∷◌, ◌++◌, none, ok, err,
  arith, ◌∙◌, sym, append-nil, length, take, take_all, length-append,
}
use gasworks.Spool.Bytes.{get_be}
use gasworks.Spool.Frame.{encode_frame}
use gasworks.Spool.Frame.RoundTrip.{frame_bytes, length-frame_bytes}
use gasworks.Spool.Sidecar.{encode_identity, encode_ack, absent, content, read_identity, read_ack}
use gasworks.Spool.Sidecar.RoundTrip.{read_ack-encode_ack, read_identity-encode_identity}
use gasworks.Spool.Segment.{
  Segment, ceiling_or_default, open_segment, AppendEnv, decode_segment_header, read_all,
}
use gasworks.Spool.Segment.Header.{IsStorable, header_bytes, length-header_bytes}
use gasworks.Spool.Segment.Log.{IsStamped, log_bytes}
use gasworks.Spool.Segment.Append.{Holds}
use gasworks.Spool.Segment.Create.{
  CreateCall, sync_header, create_segment, IsLeft, create_segment-Holds,
}
use gasworks.Spool.Segment.Open.{open_segment-Holds}
use gasworks.Spool.Segment.Life.{run, read_all-Holds, read_all-run}
use gasworks.Spool.Recover.{
  corruption, header_undecodable, recover_segments, recover_segment, Disk, Recovery, TruncateCall,
  recover,
}
use gasworks.Spool.Recover.Walk.{IsTorn}
use gasworks.Spool.Recover.Chain.{LogSegment}
use gasworks.Spool.Recover.Log.{files_of}
use gasworks.Spool.Recover.Errors.{recover_kept}
use gasworks.Spool.Recover.Total.{starved, recover_total}
use gasworks.Spool.Recover.Crash.{take-IsTorn, IsSpool, recovered, recover_log, recover_again}
use gasworks.Tests.Data.{toy, frame_seven, frame_eight, header_seven, source}

pub header_seven-IsStorable : IsStorable header_seven
header_seven-IsStorable = record {
  nonempty = omega arith;
  bounded = omega arith;
  version = omega arith;
  first = omega arith;
  time = omega arith;
}

pub seven-IsStamped : IsStamped toy 7 frame_seven
unfolding get_be
seven-IsStamped = record {
  sequence = refl;
  positive = omega arith;
  int64 = omega arith;
  small = omega arith;
  sha = refl;
}

pub eight-IsStamped : IsStamped toy 8 frame_eight
unfolding get_be
eight-IsStamped = record {
  sequence = refl;
  positive = omega arith;
  int64 = omega arith;
  small = omega arith;
  sha = refl;
}

-- A new segment.
abbrev new_segment : Segment
new_segment = record {
  file = header_bytes toy header_seven;
  header = header_seven;
  ceiling = 1000;
  size = 32;
  last = 0;
}

new_segment-Holds : Holds toy new_segment []
new_segment-Holds = record {
  header = header_seven-IsStorable;
  positive = omega arith;
  log = tt;
  clean =
      take_all 32 (header_bytes toy header_seven)
        (omega (arith, length-header_bytes toy header_seven))
      ∙ sym (append-nil (header_bytes toy header_seven));
  within = omega (arith, length-header_bytes toy header_seven);
  last = inl (refl, refl);
  last_int64 = omega arith;
  first_int64 = omega arith;
  fits = omega arith;
  ceiling = omega arith;
}

-- An append that works, and two that fail.
abbrev fine : AppendEnv
fine = record { write_fails = false; short = 0; sync_fails = false; truncate_fails = false }

abbrev cut_short : AppendEnv
cut_short = record { write_fails = true; short = 20; sync_fails = false; truncate_fails = false }

abbrev sync_lost : AppendEnv
sync_lost = record { write_fails = false; short = 0; sync_fails = true; truncate_fails = false }

read_all-run_example :
    read_all toy
      (run toy new_segment
        ((cut_short, frame_seven) ∷ (sync_lost, frame_seven) ∷ (fine, frame_seven) ∷ [])).0
    ≡ ok
        (run toy new_segment
          ((cut_short, frame_seven) ∷ (sync_lost, frame_seven) ∷ (fine, frame_seven) ∷ [])).1
read_all-run_example =
    read_all-run toy new_segment []
      ((cut_short, frame_seven) ∷ (sync_lost, frame_seven) ∷ (fine, frame_seven) ∷ [])
      new_segment-Holds (omega (arith, length-header_bytes toy header_seven))
      (refl, (refl, (refl, tt)))

-- A segment with one frame.
abbrev one_frame : Segment
one_frame = record {
  file = header_bytes toy header_seven ++ log_bytes toy (frame_seven ∷ []);
  header = header_seven;
  ceiling = 1000;
  size = 94;
  last = 7;
}

length-one_frame : length one_frame.file ≡ 94
length-one_frame = omega (
  arith,
  length-append (header_bytes toy header_seven) (log_bytes toy (frame_seven ∷ [])),
  length-header_bytes toy header_seven,
  length-append (frame_bytes toy frame_seven) [],
  length-frame_bytes toy frame_seven,
)

one_frame-Holds : Holds toy one_frame (frame_seven ∷ [])
one_frame-Holds = record {
  header = header_seven-IsStorable;
  positive = omega arith;
  log = (seven-IsStamped, tt);
  clean = take_all 94 one_frame.file (omega (arith, length-one_frame));
  within = omega (arith, length-one_frame);
  last = inr (omega arith, refl);
  last_int64 = omega arith;
  first_int64 = omega arith;
  fits = omega arith;
  ceiling = omega arith;
}

read_all-Holds_example : read_all toy one_frame ≡ ok (frame_seven ∷ [])
read_all-Holds_example =
    read_all-Holds toy one_frame (frame_seven ∷ []) (omega (arith, length-one_frame))
      one_frame-Holds

-- A spool with one segment: frame 7, and half of frame 8 behind it.
abbrev one_segment : LogSegment
one_segment = record { name = 55 ∷ []; header = header_seven; frames = frame_seven ∷ [] }

abbrev half_eight : List ℕ
half_eight = take 30 (frame_bytes toy frame_eight)

abbrev crashed : Disk
crashed = record {
  identity = content (encode_identity toy source);
  ack = content (encode_ack toy 5);
  wal = files_of toy (one_segment ∷ []) half_eight;
  torn_tails = [];
}

eight_encoded : encode_frame toy frame_eight ≡ ok (frame_bytes toy frame_eight)
unfolding encode_frame
eight_encoded = refl

half_eight-IsTorn : IsTorn toy half_eight
half_eight-IsTorn =
    take-IsTorn toy frame_eight (frame_bytes toy frame_eight) 30 (omega arith) eight_encoded
      (omega arith) (omega (arith, length-frame_bytes toy frame_eight))

abbrev all_work : TruncateCall → Bool
all_work x = false

crashed-IsSpool : IsSpool toy all_work (λ x. refl) crashed source 5 7 one_segment [] half_eight
crashed-IsSpool = record {
  identity =
      read_identity-encode_identity toy source
        (record { nonempty = omega arith; bounded = omega arith; version = omega arith });
  named = cc;
  acknowledged = read_ack-encode_ack toy 5 (omega arith);
  wal = refl;
  chain = (
    record {
      storable = header_seven-IsStorable;
      source = refl;
      version = refl;
      first = refl;
      positive = omega arith;
      log = (seven-IsStamped, tt);
    },
    tt,
  );
  torn = inr half_eight-IsTorn;
}

recover_log_example :
    (r : Recovery) × (recover toy all_work none crashed
      ≡ (recovered toy all_work (λ x. refl) crashed one_segment [] half_eight, ok r))
    × (r.highest_durable_sequence ≡ 7)
    × (r.acknowledged_through ≡ 5)
    × (r.next_sequence ≡ 8)
    × (r.exhausted ≡ false)
    × (r.source_id ≡ source.source_id)
    × (r.format_version ≡ 1)
recover_log_example =
    recover_log toy all_work (λ x. refl) none crashed source 5 7 one_segment [] half_eight
      crashed-IsSpool refl (omega arith) (omega arith)

recover_again_example :
    (r : Recovery) × (q : Recovery) × (recover toy all_work none crashed
      ≡ (recovered toy all_work (λ x. refl) crashed one_segment [] half_eight, ok r))
    × (recover toy all_work none
          (recovered toy all_work (λ x. refl) crashed one_segment [] half_eight)
        ≡ (recovered toy all_work (λ x. refl) crashed one_segment [] half_eight, ok q))
    × (q.next_sequence ≡ r.next_sequence)
    × (q.highest_durable_sequence ≡ r.highest_durable_sequence)
recover_again_example =
    recover_again toy all_work (λ x. refl) none crashed source 5 7 one_segment [] half_eight
      crashed-IsSpool refl (omega arith) (omega arith)

-- A log whose first segment lost its header.
abbrev damaged : Disk
damaged = record {
  identity = absent;
  ack = absent;
  wal =
      record { name = 49 ∷ []; bytes = 1 ∷ 2 ∷ [] }
      ∷ record { name = 55 ∷ []; bytes = header_bytes toy header_seven }
      ∷ [];
  torn_tails = [];
}

damaged_lem : (recover toy all_work none damaged).1 ≡ err (corruption (49 ∷ []) header_undecodable)
unfolding recover recover_segments recover_segment decode_segment_header read_identity read_ack
damaged_lem = refl

recover_kept_example : (recover toy all_work none damaged).0 ≡ damaged
recover_kept_example =
    recover_kept toy all_work none damaged (corruption (49 ∷ []) header_undecodable) damaged_lem
      refl

recover_total_example : starved (recover toy all_work none damaged).1 ≡ false
recover_total_example = recover_total toy all_work none damaged

-- The creation of a segment, whose fsync fails.
abbrev unsynced : CreateCall → Bool
unsynced sync_header = true
unsynced _ = false

create_segment-Holds_example :
    ((s : Segment) × (create_segment toy
          (record { fails = unsynced; short = 0 })
          header_seven
          1000
          none
        ≡ (some s.file, ok s))
      × (length s.file ≤ s.size)
      × Holds toy s [])
    ⊎ IsLeft toy
        (header_bytes toy header_seven)
        (create_segment toy (record { fails = unsynced; short = 0 }) header_seven 1000 none)
unfolding ceiling_or_default
create_segment-Holds_example =
    create_segment-Holds toy (record { fails = unsynced; short = 0 }) header_seven 1000
      header_seven-IsStorable (omega arith) (omega arith) (omega arith) (omega arith)

open_segment-Holds_example :
    (s : Segment) × (open_segment toy one_frame.file 1000 ≡ ok s)
    × Holds toy s (frame_seven ∷ [])
    × (length s.file ≤ s.size)
unfolding ceiling_or_default
open_segment-Holds_example =
    open_segment-Holds toy header_seven (frame_seven ∷ []) 1000 header_seven-IsStorable
      (seven-IsStamped, tt) (omega arith) (omega arith) (omega (arith, length-one_frame))
      (omega arith)
