-- ===== src/Spool/Reserves/Settled.antt =====
-- What reconciliation makes of each run, whatever the order of the sets.
use gasworks.Prelude.{
  ℕ, ◌≡◌, ◌≢◌, refl, sym, ap, ◌∙◌, ◌⊎◌, inl, inr, Bool, Bool-cases, true, false, ◌&&◌, List, [],
  ◌∷◌, ◌++◌, Option, Option-cases, none, some, list_eq, list_eq_refl, if◌then◌else◌, arith,
}
use gasworks.Spool.Reserves.{Entry, lookup, is_open}
use gasworks.Spool.Reserves.Map.{
  key_cases, lookup-append_same, lookup-append_other, lookup-delete_same, lookup-delete_other,
}
use gasworks.Spool.Reserves.RoundTrip.{is_open-none}
use gasworks.Spool.Reserves.Reconcile.{
  RunEvent, RunEventKind, run_event_other, run_event_started, run_event_terminated, RunSets,
  Reconciled, member, add_id, note_event, run_sets, close_run, start_run, start_runs, close_runs,
  reconcile, settled, is_started, is_terminated, has_event,
}

pub is_open-some :
    (id : List ℕ) (v : ℕ) (m : List Entry) → lookup id m ≡ some v → is_open id m ≡ true
unfolding is_open
is_open-some id v m h = rw (h, is_open) refl

member-append :
    (id x : List ℕ) (s : List (List ℕ))
    → member id (s ++ x ∷ []) ≡ (if list_eq x id then true else member id s)
unfolding member
member-append id x [] = refl
member-append id x (y ∷ s) =
    ap (λ b. if list_eq y id then true else b) (member-append id x s) ∙ ground arith

member-add_id :
    (id x : List ℕ) (s : List (List ℕ))
    → member id (add_id x s) ≡ (if list_eq x id then true else member id s)
unfolding add_id
member-add_id id x s = elim (Bool-cases (member x s)) [
  | inl there ↦
      rw (there, add_id)
        (elim (key_cases x id) [
          | inl (same, eq) ↦ rw eq (ap (λ k. member k s) (sym same) ∙ there)
          | inr (other, ne) ↦ rw ne refl
        ])
  | inr gone ↦ rw (gone, add_id) (member-append id x s)
]

kind_cases :
    (k : RunEventKind)
    → (k ≡ run_event_other) ⊎ (k ≡ run_event_started) ⊎ (k ≡ run_event_terminated)
kind_cases run_event_other = inl refl
kind_cases run_event_started = inr (inl refl)
kind_cases run_event_terminated = inr (inr refl)

note_started :
    (id : List ℕ) (s : RunSets) (e : RunEvent)
    → member id (note_event s e).started
      ≡ (if is_started e.kind && list_eq e.run_id id then true else member id s.started)
unfolding note_event
note_started id s e = elim (kind_cases e.kind) [
  | inl k ↦ rw (k, note_event) refl
  | inr (inl k) ↦ rw (k, note_event) (member-add_id id e.run_id s.started)
  | inr (inr k) ↦ rw (k, note_event) refl
]

note_terminated :
    (id : List ℕ) (s : RunSets) (e : RunEvent)
    → member id (note_event s e).terminated
      ≡ (if is_terminated e.kind && list_eq e.run_id id then true else member id s.terminated)
unfolding note_event
note_terminated id s e = elim (kind_cases e.kind) [
  | inl k ↦ rw (k, note_event) refl
  | inr (inl k) ↦ rw (k, note_event) refl
  | inr (inr k) ↦ rw (k, note_event) (member-add_id id e.run_id s.terminated)
]

-- The sets hold the runs that the events name.
sets_started :
    (id : List ℕ) (es : List RunEvent) (s : RunSets)
    → member id (run_sets s es).started
      ≡ (if has_event is_started id es then true else member id s.started)
unfolding run_sets
sets_started id [] s = refl
sets_started id (e ∷ es) s =
    sets_started id es (note_event s e) ∙ rw (note_started id s e) (ground arith)

sets_terminated :
    (id : List ℕ) (es : List RunEvent) (s : RunSets)
    → member id (run_sets s es).terminated
      ≡ (if has_event is_terminated id es then true else member id s.terminated)
unfolding run_sets
sets_terminated id [] s = refl
sets_terminated id (e ∷ es) s =
    sets_terminated id es (note_event s e) ∙ rw (note_terminated id s e) (ground arith)

close_run_same : (id : List ℕ) (r : Reconciled) → lookup id (close_run id r).open_runs ≡ none
unfolding close_run
close_run_same id r = elim (Option-cases (lookup id r.open_runs)) [
  | inl gone ↦ rw (is_open-none id r.open_runs gone, close_run) gone
  | inr (v, there) ↦
      rw (is_open-some id v r.open_runs there, close_run) (lookup-delete_same id r.open_runs)
]

close_run_other :
    (id other : List ℕ) (r : Reconciled)
    → other ≢ id
    → lookup other (close_run id r).open_runs ≡ lookup other r.open_runs
unfolding close_run
close_run_other id other r h = elim (Bool-cases (is_open id r.open_runs)) [
  | inl there ↦ rw (there, close_run) (lookup-delete_other id other r.open_runs h)
  | inr gone ↦ rw (gone, close_run) refl
]

-- One run of the set of started runs.
abbrev begun : ℕ → Bool → Option ℕ → Option ℕ
begun fixed closed old = settled fixed true closed old

start_run_same :
    (fixed : ℕ) (t : List (List ℕ)) (id : List ℕ) (r : Reconciled)
    → lookup id (start_run fixed t id r).open_runs
      ≡ begun fixed (member id t) (lookup id r.open_runs)
unfolding start_run
start_run_same fixed t id r = elim (Bool-cases (member id t)) [
  | inl closed ↦ rw (closed, start_run) (close_run_same id r)
  | inr live ↦ elim (Option-cases (lookup id r.open_runs)) [
    | inl gone ↦
        rw (live, is_open-none id r.open_runs gone, start_run, gone)
          (lookup-append_same id fixed r.open_runs gone)
    | inr (v, there) ↦ rw (live, is_open-some id v r.open_runs there, start_run, there) refl
  ]
]

start_run_other :
    (fixed : ℕ) (t : List (List ℕ)) (id other : List ℕ) (r : Reconciled)
    → other ≢ id
    → lookup other (start_run fixed t id r).open_runs ≡ lookup other r.open_runs
unfolding start_run
start_run_other fixed t id other r h = elim (Bool-cases (member id t)) [
  | inl closed ↦ rw (closed, start_run) (close_run_other id other r h)
  | inr live ↦ elim (Bool-cases (is_open id r.open_runs)) [
    | inl there ↦ rw (live, there, start_run) refl
    | inr gone ↦ rw (live, gone, start_run) (lookup-append_other id other fixed r.open_runs h)
  ]
]

begun_twice :
    (fixed : ℕ) (closed : Bool) (old : Option ℕ)
    → begun fixed closed (begun fixed closed old) ≡ begun fixed closed old
begun_twice fixed closed old = ground arith

start_runs_lem :
    (fixed : ℕ) (t ids : List (List ℕ)) (id : List ℕ) (r : Reconciled)
    → lookup id (start_runs fixed t ids r).open_runs ≡ (
        if member id ids
        then begun fixed (member id t) (lookup id r.open_runs)
        else lookup id r.open_runs)
unfolding start_runs member
start_runs_lem fixed t [] id r = refl
start_runs_lem fixed t (x ∷ ids) id r = elim (key_cases x id) [
  | inl (same, eq) ↦ rw (← same) (
      start_runs_lem fixed t ids x (start_run fixed t x r)
      ∙ rw (list_eq_refl x, start_run_same fixed t x r)
          (ground (arith, begun_twice fixed (member x t) (lookup x r.open_runs))))
  | inr (other, ne) ↦
      start_runs_lem fixed t ids id (start_run fixed t x r)
      ∙ rw (ne, start_run_other fixed t x id r (λ e. other (sym e))) refl
]

close_runs_lem :
    (s ids : List (List ℕ)) (id : List ℕ) (r : Reconciled)
    → lookup id (close_runs s ids r).open_runs ≡ (
        if member id ids
        then (if member id s then lookup id r.open_runs else none)
        else lookup id r.open_runs)
unfolding close_runs member
close_runs_lem s [] id r = refl
close_runs_lem s (x ∷ ids) id r = elim (key_cases x id) [
  | inl (same, eq) ↦ rw (← same) (
      rw (list_eq_refl x) (elim (Bool-cases (member x s)) [
        | inl there ↦ rw (there, close_runs) (close_runs_lem s ids x r ∙ ground (arith, there))
        | inr gone ↦
            rw (gone, close_runs)
              (close_runs_lem s ids x (close_run x r) ∙ ground (arith, gone, close_run_same x r))
      ]))
  | inr (other, ne) ↦ rw ne (elim (Bool-cases (member x s)) [
    | inl there ↦ rw (there, close_runs) (close_runs_lem s ids id r)
    | inr gone ↦
        rw (gone, close_runs)
          (close_runs_lem s ids id (close_run x r)
            ∙ rw (close_run_other x id r (λ e. other (sym e))) refl)
  ])
]

-- For each run, whatever events the frames give: after reconciliation its reserve is gone if a
-- terminal frame names it; otherwise it is open if a start names it, with the reserve that it had
-- or the fixed one; and otherwise it is what the sidecar said.
pub reconcile-settled :
    (fixed : ℕ) (events : List RunEvent) (m : List Entry) (id : List ℕ)
    → lookup id (reconcile fixed events m).open_runs
      ≡ settled fixed
          (has_event is_started id events)
          (has_event is_terminated id events)
          (lookup id m)
unfolding reconcile member
reconcile-settled fixed events m id =
    let s = run_sets (record { started = []; terminated = [] }) events in
    let begin : Reconciled = record { open_runs = m; changed = false } in
    close_runs_lem s.started s.terminated id (start_runs fixed s.terminated s.started begin)
    ∙ rw
        (
          start_runs_lem fixed s.terminated s.started id begin,
          sets_started id events (record { started = []; terminated = [] }),
          sets_terminated id events (record { started = []; terminated = [] }),
        )
        (ground arith)
