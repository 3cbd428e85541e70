-- ===== src/Tests/Consent.antt =====
-- The consent fence: two roots, of which the policy of the second version has one withdrawn.
use gasworks.Prelude.{
  ℕ, ◌≤◌, ◌<◌, ◌≡◌, refl, Bool, true, false, ◌||◌, List, [], ◌∷◌, Option, none, some, codes, arith,
  All,
}
use gasworks.Upload.Batch.{Record}
use gasworks.Daemon.Consent.{Policy, allowed_in, allows}
use gasworks.Daemon.Fence.Ranges.{from_first, add_loop, add, contains}
use gasworks.Daemon.Fence.Ranges.Sets.{within}
use gasworks.Daemon.Fence.Ranges.Apart.{Apart, add-Apart}
use gasworks.Daemon.Fence.Origins.{ConsentOrigin, allowed_by, add_run, lookup_origin}
use gasworks.Daemon.Fence.Ledger.{missing, Shutdown, read_consent_ledger}
use gasworks.Daemon.Fence.{
  Lane, written, replaced, persist_ledger, ledger_of, record_append, withhold_runs, apply_policy,
  apply_and_record, decide_one, decide_frames, decide, before_send, record_shutdown,
}
use gasworks.Daemon.Fence.Start.{new_consent_fence, start_with, bare_fence, load_withheld}
use gasworks.Daemon.Fence.Kept.{IsHeld, shutdown_of}
use gasworks.Daemon.Fence.Decisions.Verdicts.{IsJudged, sequences, decide_judges}
use gasworks.Daemon.Fence.Stale.{record_shutdown_stale}
use gasworks.Daemon.Fence.Uploads.{
  Pipeline, Reach, IsFirst, through, appends, plans, sends, here, next,
}
use gasworks.Daemon.Fence.Uploads.Invariant.{Agree}
use gasworks.Daemon.Fence.Uploads.Finality.{sent_once}

abbrev here_root : ConsentOrigin
here_root = record { root = codes "/a"; generation = 1 }

abbrev gone_root : ConsentOrigin
gone_root = record { root = codes "/b"; generation = 1 }

-- Both roots, and then only the first.
abbrev both : Policy
both = record {
  version = 1;
  roots =
      record { path = codes "/a"; generation = 1; active = true }
      ∷ record { path = codes "/b"; generation = 1; active = true }
      ∷ [];
}

abbrev narrowed : Policy
narrowed = record {
  version = 2;
  roots =
      record { path = codes "/a"; generation = 1; active = true }
      ∷ record { path = codes "/b"; generation = 1; active = false }
      ∷ [];
}

abbrev content_at : ℕ → List ℕ
content_at q = q ∷ q ∷ []

abbrev hide : Record → Option (List ℕ)
hide r = some (0 ∷ r.sequence ∷ [])

-- Frame 1 was sent; 2 is of the root that stays, 3 of the one that is withdrawn.
abbrev busy : Lane
busy = record {
  fence = record {
    live = true;
    origins =
        record { first = 1; last = 2; origin = here_root }
        ∷ record { first = 3; last = 3; origin = gone_root }
        ∷ [];
    withheld = [];
    attempted = 1;
    applied = none;
    dirty = false;
    pending = none;
    recorded = false;
  };
  file = missing;
}

busy-IsHeld : IsHeld 0 3 busy
unfolding contains from_first
busy-IsHeld = record {
  mem = record {
    set = record { ascending = tt; below = λ q a b. refl };
    origins = omega arith;
    attempted = omega arith;
    recorded = λ e. refl;
    pending = tt;
  };
  disk = record {
    set = record { ascending = tt; below = λ q a b. refl };
    synced = λ q a b o. refl;
    owed = λ e. refl;
    shutdown = tt;
  };
}

abbrev frame : ℕ → Record
frame q = record { sequence = q; payload = content_at q }

abbrev batch : List Record
batch = frame 1 ∷ frame 2 ∷ frame 3 ∷ []

abbrev decided : List Record
decided = frame 1 ∷ frame 2 ∷ record { sequence = 3; payload = 0 ∷ 3 ∷ [] } ∷ []

third_is_hidden : (decide hide busy written narrowed batch).1 ≡ some decided
unfolding decide decide_frames decide_one apply_and_record apply_policy withhold_runs persist_ledger
    ledger_of contains from_first add add_loop lookup_origin allowed_by allows allowed_in
third_is_hidden = refl

decide_judges_example :
    (sequences decided ≡ sequences batch)
    × All
        (IsJudged hide content_at 3 (apply_and_record busy written narrowed).0.fence narrowed 0)
        decided
decide_judges_example =
    decide_judges hide content_at 0 3 (omega arith) busy written narrowed batch decided
      (
        omega arith,
        omega arith,
        refl,
        (omega arith, omega arith, refl, (omega arith, omega arith, refl, tt)),
      )
      busy-IsHeld third_is_hidden

record_shutdown_stale_example :
    let down = (record_shutdown busy replaced 3).0 in
    let sent = before_send down replaced 3 in
    ((record_shutdown busy replaced 3).1 ≡ false)
    × (sent.1 ≡ true)
    × (3 ≤ sent.0.fence.attempted)
    × ((sh : Shutdown) × (shutdown_of sent.0.file ≡ some sh) × (sh.attempted_through < 3))
record_shutdown_stale_example =
    record_shutdown_stale busy 3 3 refl refl refl (omega arith) (omega arith)

-- A first start; frame 1 appended under the root that is then withdrawn; read, and sent.
abbrev fresh : Lane × Bool
fresh = (
  record {
    fence = record {
      live = true;
      origins = [];
      withheld = [];
      attempted = 0;
      applied = none;
      dirty = false;
      pending = none;
      recorded = false;
    };
    file = missing;
  },
  true,
)

abbrev at_start : Pipeline
at_start = record { lane = fresh.0; planned = []; sent = []; acked = 0; durable = 0 }

at_start-IsFirst : IsFirst at_start
unfolding new_consent_fence read_consent_ledger start_with bare_fence load_withheld
at_start-IsFirst = record {
  live = true;
  write = written;
  result = fresh;
  started = refl;
  lane = refl;
  planned = refl;
  sent = refl;
  small = omega arith;
}

abbrev appended : Pipeline
appended = record at_start {
  lane = record_append at_start.lane written both 1 gone_root;
  durable = 1;
}

abbrev read_one : Pipeline
read_one = record appended {
  lane = (decide hide appended.lane written narrowed (frame 1 ∷ [])).0;
  planned = record { sequence = 1; payload = 0 ∷ 1 ∷ [] } ∷ [];
}

abbrev sent_one : Pipeline
sent_one = record read_one {
  lane = (before_send read_one.lane written 1).0;
  planned = [];
  sent = record { sequence = 1; payload = 0 ∷ 1 ∷ [] } ∷ [];
}

sent_one-Reach : Reach hide content_at at_start sent_one
unfolding record_append decide decide_frames decide_one apply_and_record apply_policy withhold_runs
    persist_ledger ledger_of contains from_first add add_run add_loop lookup_origin allowed_by
    allows allowed_in before_send through
sent_one-Reach =
    next
      (next (next here (appends written both 1 gone_root (omega arith) (omega arith) refl))
        (plans written narrowed (frame 1 ∷ []) (omega arith, omega arith, refl, tt) refl))
      (sends written 1 (omega arith) refl refl)

sent_once_example : (p : Option (List ℕ)) × Agree hide content_at sent_one.sent 1 p
sent_once_example = sent_once hide content_at at_start sent_one 1 at_start-IsFirst sent_one-Reach

add-Apart_example :
    Apart 0 (add (record { first = 2; last = 4 } ∷ record { first = 9; last = 9 } ∷ []) 5 7).0
    × ((q : ℕ)
        → q < 9223372036854775807
        → contains
            (add (record { first = 2; last = 4 } ∷ record { first = 9; last = 9 } ∷ []) 5 7).0
            q
          ≡ (within 5 7 q
              || contains (record { first = 2; last = 4 } ∷ record { first = 9; last = 9 } ∷ []) q))
add-Apart_example =
    add-Apart (record { first = 2; last = 4 } ∷ record { first = 9; last = 9 } ∷ []) 5 7
      (omega arith) (omega arith) (omega arith)
      (omega arith, omega arith, omega arith, (omega arith, omega arith, omega arith, tt))

-- The ranges touch, and are one.
added_behind :
    add (record { first = 2; last = 4 } ∷ []) 5 7 ≡ (record { first = 2; last = 7 } ∷ [], 3)
unfolding add add_loop
added_behind = refl
