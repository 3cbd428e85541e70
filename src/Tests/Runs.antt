-- ===== src/Tests/Runs.antt =====
-- The registry over a history with a late start, and after a restart.
use gasworks.Prelude.{
  ℕ, ◌≡◌, refl, false, Option, none, some, ok, List, [], ◌∷◌, ◌++◌, codes, if◌then◌else◌, list_eq,
  length, arith, length-append, has_suffix,
}
use gasworks.Spool.Segment.Header.{header_bytes, length-header_bytes}
use gasworks.Spool.Segment.Log.{log_bytes}
use gasworks.Spool.Frame.RoundTrip.{frame_bytes, length-frame_bytes}
use gasworks.Daemon.Registry.{
  Observation, run_boundary, run_started, run_ended, new_registry, resolve_inherited, closed_run,
  open_same_scope, cross_workspace, unknown_run, fold,
}
use gasworks.Daemon.Registry.History.{starts, ends, some_of, fold_live, resolve_inherited-fold_live}
use gasworks.Daemon.Registry.Replay.{DirEntry, replay_wal, segments, sort_names}
use gasworks.Daemon.Registry.Restart.{WrittenAll, replay_wal-Written}
use gasworks.Tests.Data.{toy, frame_seven, header_seven}
use gasworks.Tests.Recovery.{header_seven-IsStorable, seven-IsStamped}

abbrev late_start : List Observation
late_start = run_boundary (run_ended (codes "r1")) ∷ run_boundary (run_started (codes "r1")) ∷ []

resolve_inherited-fold_live_example :
    resolve_inherited
      (codes "r1")
      (codes "w")
      (fold_live (new_registry (codes "s") (codes "w")) late_start)
    ≡ (if some_of (ends (codes "r1")) late_start
        then closed_run
        else if some_of (starts (codes "r1")) late_start
        then if list_eq (codes "w") (codes "w") then open_same_scope else cross_workspace
        else unknown_run)
resolve_inherited-fold_live_example =
    resolve_inherited-fold_live (codes "r1") (codes "w") (codes "s") (codes "w") late_start
      (λ e. cc)

-- Every payload is the start of one run.
abbrev one_start : List ℕ → Option Observation
one_start payload = some (run_boundary (run_started (codes "r1")))

abbrev directory : List DirEntry
directory =
    record {
      name = codes "07.seg";
      is_dir = false;
      bytes = header_bytes toy header_seven ++ log_bytes toy (frame_seven ∷ []);
      close_fails = false;
    }
    ∷ record { name = codes "lock"; is_dir = false; bytes = []; close_fails = false }
    ∷ []

abbrev started : List Observation
started = run_boundary (run_started (codes "r1")) ∷ []

file_small : length (header_bytes toy header_seven ++ log_bytes toy (frame_seven ∷ [])) ≡ 94
file_small = omega (
  arith,
  length-append (header_bytes toy header_seven) (log_bytes toy (frame_seven ∷ [])),
  length-header_bytes toy header_seven,
  length-append (frame_bytes toy frame_seven) [],
  length-frame_bytes toy frame_seven,
)

directory-WrittenAll : WrittenAll toy one_start (sort_names (segments directory)) started
unfolding segments sort_names fold has_suffix
directory-WrittenAll = (
  started,
  [],
  refl,
  record {
    header = header_seven;
    frames = frame_seven ∷ [];
    bytes = refl;
    storable = header_seven-IsStorable;
    log = (seven-IsStamped, tt);
    positive = omega arith;
    int64 = omega arith;
    fits = omega (arith, file_small);
    closes = refl;
    carry = (refl, λ r. refl, tt);
  },
  refl,
)

replay_wal-Written_example :
    replay_wal toy one_start (ok directory) (new_registry (codes "s") (codes "w"))
    ≡ (fold_live (new_registry (codes "s") (codes "w")) started, none)
replay_wal-Written_example =
    replay_wal-Written toy one_start directory started (new_registry (codes "s") (codes "w"))
      directory-WrittenAll
