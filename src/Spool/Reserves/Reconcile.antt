-- ===== src/Spool/Reserves/Reconcile.antt =====
-- capacity.go: `ScanRunEvents` and `ReconcileReserves`, the open runs at startup from the sidecar and
-- the durable frames. A set of run ids is a list without repetitions.
use gasworks.Prelude.{
  ℕ, Bool, true, false, not, ◌&&◌, List, [], ◌∷◌, ◌++◌, Option, none, some, Result, ok, err,
  list_eq, if◌then◌else◌,
}
use gasworks.Spool.Checks.{Checks}
use gasworks.Spool.Sidecar.{SidecarError}
use gasworks.Spool.AtomicWrite.{Env, Slot}
use gasworks.Spool.Reserves.{Entry, Reserves, ReserveError, is_open, delete, load_reserves, persist}

pub data RunEventKind : Type 0 where
  run_event_other run_event_started run_event_terminated : RunEventKind

pub record RunEvent : Type 0 where
  pub sequence : ℕ
  pub run_id : List ℕ
  pub kind : RunEventKind

unfoldable pub member : List ℕ → List (List ℕ) → Bool
member id [] = false
member id (x ∷ s) = if list_eq x id then true else member id s

-- s[id] = true
unfoldable pub add_id : List ℕ → List (List ℕ) → List (List ℕ)
add_id id s = if member id s then s else s ++ id ∷ []

-- The two sets of the first loop.
pub record RunSets : Type 0 where
  pub started : List (List ℕ)
  pub terminated : List (List ℕ)

unfoldable pub note_event : RunSets → RunEvent → RunSets
note_event s e = elim e.kind [
  | run_event_other ↦ s
  | run_event_started ↦ record s { started = add_id e.run_id s.started }
  | run_event_terminated ↦ record s { terminated = add_id e.run_id s.terminated }
]

unfoldable pub run_sets : RunSets → List RunEvent → RunSets
run_sets s [] = s
run_sets s (e ∷ es) = run_sets (note_event s e) es

-- The open map and `changed`.
pub record Reconciled : Type 0 where
  pub open_runs : List Entry
  pub changed : Bool

unfoldable pub close_run : List ℕ → Reconciled → Reconciled
close_run id r =
    if is_open id r.open_runs
    then record { open_runs = delete id r.open_runs; changed = true }
    else r

unfoldable pub start_run : ℕ → List (List ℕ) → List ℕ → Reconciled → Reconciled
unfolding close_run
start_run fixed terminated id r =
    if member id terminated then close_run id r else if is_open id r.open_runs then r else record {
      open_runs = r.open_runs ++ record { run_id = id; bytes = fixed } ∷ [];
      changed = true;
    }

unfoldable pub start_runs : ℕ → List (List ℕ) → List (List ℕ) → Reconciled → Reconciled
start_runs fixed terminated [] r = r
start_runs fixed terminated (id ∷ ids) r =
    start_runs fixed terminated ids (start_run fixed terminated id r)

unfoldable pub close_runs : List (List ℕ) → List (List ℕ) → Reconciled → Reconciled
unfolding close_run
close_runs started [] r = r
close_runs started (id ∷ ids) r =
    close_runs started ids (if member id started then r else close_run id r)

unfoldable pub reconcile : ℕ → List RunEvent → List Entry → Reconciled
reconcile fixed events m =
    let s = run_sets (record { started = []; terminated = [] }) events in
    close_runs s.started s.terminated
      (start_runs fixed s.terminated s.started (record { open_runs = m; changed = false }))

pub data ReconcileError : Type 0 where
  load_failed : SidecarError → ReconcileError
  save_failed : ReserveError → ReconcileError

module _ (c : Checks) where
  -- The sidecar slot afterwards, and the result.
  unfoldable pub reconcile_reserves :
      Env → Slot → ℕ → List RunEvent → Slot × Result ReconcileError Reserves
  reconcile_reserves e s fixed events = elim (load_reserves c s fixed) [
    | err x ↦ (s, err (load_failed x))
    | ok r ↦
        let q = reconcile fixed events r.open_runs in
        let r' = record r { open_runs = q.open_runs } in
        if not q.changed then (s, ok r') else elim (persist c e r').1 [
          | none ↦ ((persist c e r').0.slot, ok (persist c e r').0)
          | some x ↦ ((persist c e r').0.slot, err (save_failed x))
        ]
  ]

-- What the frames say of a run whose entry in the sidecar is `old`: a terminal frame closes it, a
-- start without one opens it, and with neither the sidecar is right.
abbrev pub settled : ℕ → Bool → Bool → Option ℕ → Option ℕ
settled fixed started terminated old =
    if terminated
    then none
    else if started
    then elim old [ none ↦ some fixed | some v ↦ some v ]
    else old

-- Whether an event of the kind names the run.
abbrev pub is_started : RunEventKind → Bool
is_started run_event_started = true
is_started _ = false

abbrev pub is_terminated : RunEventKind → Bool
is_terminated run_event_terminated = true
is_terminated _ = false

abbrev pub has_event : (RunEventKind → Bool) → List ℕ → List RunEvent → Bool
has_event p id [] = false
has_event p id (e ∷ es) = if p e.kind && list_eq e.run_id id then true else has_event p id es
