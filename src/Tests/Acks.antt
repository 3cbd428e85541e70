-- ===== src/Tests/Acks.antt =====
-- Acknowledgements, the atomic write and their history.
use gasworks.Prelude.{
  ℕ, ◌≤◌, ◌≡◌, ◌≢◌, ◌⊎◌, refl, Bool, true, false, List, [], ◌∷◌, none, some, ok, arith, All,
}
use gasworks.Spool.Sidecar.{encode_ack, read_ack, content}
use gasworks.Spool.Sidecar.RoundTrip.{encode_ack-IsBytes, read_ack-encode_ack}
use gasworks.Spool.AtomicWrite.{
  Call, Env, Slot, sync, sync_dir, remove, atomic_write_file, atomic_write_file_all_or_nothing,
}
use gasworks.Spool.Ack.{AckState, max_in_flight_or_default, load_ack_state, acknowledge}
use gasworks.Spool.Ack.Invariant.{IsSound, load_ack_state-IsSound}
use gasworks.Spool.Ack.History.{
  AckCall, note, offer, ack, IsTyped, run, run-IsSound, load_after_run, is_none, acknowledge_exact,
}
use gasworks.Tests.Data.{toy}

-- Every call works; the fsync of the file fails; the fsync of the directory fails.
abbrev pub works : Env
works = record { fails = λ x. false; short = 0 }

abbrev is_sync : Call → Bool
is_sync sync = true
is_sync _ = false

abbrev is_sync_dir : Call → Bool
is_sync_dir sync_dir = true
is_sync_dir _ = false

abbrev no_sync : Env
no_sync = record { fails = is_sync; short = 0 }

abbrev no_sync_dir : Env
no_sync_dir = record { fails = is_sync_dir; short = 0 }

abbrev slot : Slot
slot = record { target = some (1 ∷ []); temp = none }

atomic_write_file_all_or_nothing_example :
    ((((atomic_write_file no_sync (2 ∷ []) slot).1 ≡ none)
        × ((atomic_write_file no_sync (2 ∷ []) slot).0.target ≡ some (2 ∷ [])))
      ⊎ (((atomic_write_file no_sync (2 ∷ []) slot).1 ≡ some sync_dir)
          × ((atomic_write_file no_sync (2 ∷ []) slot).0.target ≡ some (2 ∷ [])))
      ⊎ ((x : Call) × ((atomic_write_file no_sync (2 ∷ []) slot).1 ≡ some x)
          × (x ≢ sync_dir)
          × ((atomic_write_file no_sync (2 ∷ []) slot).0.target ≡ slot.target)))
    × ((no_sync.fails remove ≡ true) ⊎ ((atomic_write_file no_sync (2 ∷ []) slot).0.temp ≡ none))
atomic_write_file_all_or_nothing_example =
    atomic_write_file_all_or_nothing no_sync (2 ∷ []) slot refl

-- A durable watermark of 41, with 50 as the ceiling.
abbrev pub disk_slot : Slot
disk_slot = record { target = some (encode_ack toy 41); temp = none }

abbrev pub loaded : AckState
loaded = record {
  slot = disk_slot;
  acknowledged_through = 41;
  highest_durable = 50;
  max_in_flight = 1000;
  in_flight = none;
}

read_disk_slot : read_ack toy (content (encode_ack toy 41)) ≡ ok 41
read_disk_slot = read_ack-encode_ack toy 41 (omega arith)

loaded_lem : load_ack_state toy disk_slot 50 0 ≡ ok loaded
unfolding load_ack_state
loaded_lem = rw (read_disk_slot, load_ack_state) (unfold max_in_flight_or_default in refl)

pub loaded-IsSound : IsSound toy loaded
loaded-IsSound =
    load_ack_state-IsSound toy disk_slot 50 0 loaded (encode_ack-IsBytes toy 41) (omega arith)
      (omega arith) loaded_lem

-- A durable watermark of 6, with 8 as the ceiling.
abbrev pub resumed_slot : Slot
resumed_slot = record { target = some (encode_ack toy 6); temp = none }

abbrev pub resumed : AckState
resumed = record loaded { slot = resumed_slot; acknowledged_through = 6; highest_durable = 8 }

read_resumed_slot : read_ack toy (content (encode_ack toy 6)) ≡ ok 6
read_resumed_slot = read_ack-encode_ack toy 6 (omega arith)

resumed_lem : load_ack_state toy resumed_slot 8 0 ≡ ok resumed
unfolding load_ack_state
resumed_lem = rw (read_resumed_slot, load_ack_state) (unfold max_in_flight_or_default in refl)

pub resumed-IsSound : IsSound toy resumed
resumed-IsSound =
    load_ack_state-IsSound toy resumed_slot 8 0 resumed (encode_ack-IsBytes toy 6) (omega arith)
      (omega arith) resumed_lem

-- 42 to 45 go out, 43 is acknowledged; then the write for 45 fails, first early and then late.
abbrev calls : List AckCall
calls =
    note 52
    ∷ offer (record { first_sequence = 42; last_sequence = 45 })
    ∷ ack works 43
    ∷ ack no_sync 45
    ∷ ack no_sync_dir 45
    ∷ []

abbrev calls-IsTyped : All IsTyped calls
calls-IsTyped =
    (omega arith, ((omega arith, omega arith), (omega arith, (omega arith, (omega arith, tt)))))

run-IsSound_example : IsSound toy (run toy loaded calls)
run-IsSound_example = run-IsSound toy loaded calls calls-IsTyped loaded-IsSound

load_after_run_example :
    (b : AckState) × (load_ack_state toy (run toy loaded calls).slot 0 0 ≡ ok b)
    × (41 ≤ b.acknowledged_through)
    × ((run toy loaded calls).acknowledged_through ≤ b.acknowledged_through)
    × (b.acknowledged_through ≤ (run toy loaded calls).highest_durable)
    × (b.in_flight ≡ none)
load_after_run_example = load_after_run toy loaded calls 0 0 calls-IsTyped loaded-IsSound

-- The state with 42 to 45 out.
abbrev pub offered : AckState
offered = record loaded { in_flight = some (record { first_sequence = 42; last_sequence = 45 }) }

pub offered-IsSound : IsSound toy offered
offered-IsSound = record {
  ceiling = omega arith;
  int64 = omega arith;
  bound = omega arith;
  owed = record {
    begins = refl;
    ordered = omega arith;
    durable = omega arith;
    bounded = omega arith;
  };
  on_disk = 41;
  read = read_disk_slot;
  covers = omega arith;
  sent = omega arith;
}

all_works : (b : List ℕ) (s : Slot) → (atomic_write_file works b s).1 ≡ none
unfolding atomic_write_file
all_works b s = refl

acknowledge_exact_example :
    (is_none (acknowledge toy works offered 43).1 ≡ true)
    × ((acknowledge toy works offered 43).0.acknowledged_through ≡ 43)
    × ((acknowledge toy works offered 43).0.highest_durable ≡ 50)
acknowledge_exact_example =
    acknowledge_exact toy works all_works offered 43 (omega arith) offered-IsSound
