-- ===== src/Tests/Ledger.antt =====
-- The ledger of terminal reserves.
use gasworks.Prelude.{◌≡◌, ◌≢◌, refl, Bool, true, false, List, [], ◌∷◌, none, some, arith}
use gasworks.Spool.AtomicWrite.{Call, Env, sync, sync_dir, atomic_write_file}
use gasworks.Spool.Reserves.{
  Entry, Reserves, persist_failed, is_open, lookup, encode_reserves, read_reserves, reserve,
  release,
}
use gasworks.Spool.Reserves.RoundTrip.{IsLedger, decode_reserves-encode_reserves}
use gasworks.Spool.Reserves.Reconcile.{RunEvent, run_event_started, run_event_terminated, reconcile}
use gasworks.Spool.Reserves.Settled.{reconcile-settled}
use gasworks.Spool.Reserves.Retry.{release-IsDurable, IsDurable, reserve-IsDurable, reserve_retry}
use gasworks.Tests.Data.{toy}

-- Runs "b" and "a" are open.
abbrev two_runs : List Entry
two_runs =
    record { run_id = 98 ∷ []; bytes = 4096 } ∷ record { run_id = 97 ∷ []; bytes = 4096 } ∷ []

two_runs-IsLedger : IsLedger two_runs
unfolding lookup
two_runs-IsLedger = record {
  entries = (
    record { nonempty = omega arith; bounded = omega arith; bytes = omega arith },
    (record { nonempty = omega arith; bounded = omega arith; bytes = omega arith }, tt),
  );
  distinct = (refl, (refl, tt));
  few = omega arith;
}

-- "a" ends and "c" starts.
abbrev two_events : List RunEvent
two_events =
    record { sequence = 7; run_id = 97 ∷ []; kind = run_event_terminated }
    ∷ record { sequence = 8; run_id = 99 ∷ []; kind = run_event_started }
    ∷ []

reconcile-settled_example :
    lookup (99 ∷ []) (reconcile 4096 two_events two_runs).open_runs ≡ some 4096
unfolding lookup
reconcile-settled_example = reconcile-settled 4096 two_events two_runs (99 ∷ [])

abbrev all_calls : Env
all_calls = record { fails = λ x. false; short = 0 }

abbrev only_sync : Call → Bool
only_sync sync = true
only_sync _ = false

abbrev failed_sync : Env
failed_sync = record { fails = only_sync; short = 0 }

abbrev ledger : Reserves
ledger = record {
  slot = record { target = some (encode_reserves toy two_runs); temp = none };
  fixed_reserve = 4096;
  open_runs = two_runs;
}

ledger-IsDurable : IsDurable toy ledger
unfolding read_reserves
ledger-IsDurable =
    let (n, decoded, same) = decode_reserves-encode_reserves toy two_runs two_runs-IsLedger in
    record { stored = n; read = decoded; same = same }

reserved : (reserve toy all_calls ledger (99 ∷ [])).1 ≡ none
unfolding reserve atomic_write_file is_open lookup
reserved = refl

released : (release toy all_calls ledger (97 ∷ [])).1 ≡ none
unfolding release atomic_write_file is_open lookup
released = refl

reserve-IsDurable_example :
    IsDurable toy (reserve toy all_calls ledger (99 ∷ [])).0
    × IsLedger (reserve toy all_calls ledger (99 ∷ [])).0.open_runs
reserve-IsDurable_example =
    reserve-IsDurable toy all_calls ledger (99 ∷ []) two_runs-IsLedger (omega arith) (omega arith)
      ledger-IsDurable reserved

release-IsDurable_example :
    IsDurable toy (release toy all_calls ledger (97 ∷ [])).0
    × IsLedger (release toy all_calls ledger (97 ∷ [])).0.open_runs
release-IsDurable_example =
    release-IsDurable toy all_calls ledger (97 ∷ []) two_runs-IsLedger ledger-IsDurable released

unreserved : (reserve toy failed_sync ledger (99 ∷ [])).1 ≡ some (persist_failed sync)
unfolding reserve atomic_write_file is_open lookup
unreserved = refl

sync-is-not-last : sync ≢ sync_dir
sync-is-not-last e = cc

reserve_retry_example :
    ((reserve toy all_calls (reserve toy failed_sync ledger (99 ∷ [])).0 (99 ∷ [])).1 ≡ none)
    × ((reserve toy all_calls (reserve toy failed_sync ledger (99 ∷ [])).0 (99 ∷ [])).0.slot.target
        ≡ some (encode_reserves toy two_runs))
reserve_retry_example =
    reserve_retry toy failed_sync all_calls ledger (99 ∷ []) sync refl unreserved sync-is-not-last
