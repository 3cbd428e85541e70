-- ===== src/Daemon/Registry/History.antt =====
-- What an inherited run resolves to after any history of observations.
use gasworks.Prelude.{
  Bool, true, false, not, ◌||◌, List, [], ◌∷◌, Option, none, some, if◌then◌else◌, ◌≡◌, ◌≢◌, refl,
  ap, sym, list_eq_refl, ◌∙◌, inl, inr, arith, list_eq, list_eq_iff, find, find-put, Bool-cases,
  Option-cases,
}
use gasworks.Daemon.Registry.{
  Text, ProcessIdentity, run_started, run_ended, other_transition, bad_boundary, Observation,
  process_lifecycle, run_boundary, other_kind, bad_observation, Boundary, Registry, new_registry,
  no_text, fold_process_lifecycle, registered, process_exited, process_launch_failed, opened,
  closed, start, end_run, fold_run_boundary, fold, InheritedRun, unknown_run, closed_run,
  open_same_scope, cross_workspace, status, resolve_inherited,
}

-- The append path: an error of a fold is logged, and the registry goes on.
unfoldable pub fold_live : Registry → List Observation → Registry
unfolding fold
fold_live r [] = r
fold_live r (o ∷ os) = fold_live (fold r o).0 os

-- An observation starts, or ends, the run.
abbrev pub starts : Text → Observation → Bool
starts run (run_boundary (run_started id)) = list_eq id run
starts run _ = false

abbrev pub ends : Text → Observation → Bool
ends run (run_boundary (run_ended id)) = list_eq id run
ends run _ = false

abbrev pub some_of {ℓ} : {A : Type ℓ} → (A → Bool) → List A → Bool
some_of p [] = false
some_of p (x ∷ xs) = p x || some_of p xs

is_closed : Option Boundary → Bool
is_closed none = false
is_closed (some b) = not b.open_run

start-eq :
    (id : Text) (r : Registry)
    → start id r
      ≡ (if no_text id || is_closed (find list_eq id r.boundaries) then r else opened r id)
unfolding start is_closed
start-eq [] r = refl
start-eq (x ∷ id) r = elim (Option-cases (find list_eq (x ∷ id) r.boundaries)) [
  | inl fresh ↦ rw (fresh, start)
  | inr (b, old) ↦ rw (old, start)
]

-- The boundary that `end_run` leaves: it is closed.
end_run-find :
    (id run : Text) (r : Registry)
    → id ≢ []
    → (b : Boundary) × (find list_eq run (end_run id r).boundaries
        ≡ (if list_eq id run then some b else find list_eq run r.boundaries))
      × (b.open_run ≡ false)
unfolding end_run closed
end_run-find [] run r ne = absurd (ne refl)
end_run-find (x ∷ id) run r ne = elim (Option-cases (find list_eq (x ∷ id) r.boundaries)) [
  | inl fresh ↦ (
    record { open_run = false; workspace = r.workspace; source = r.source },
    rw (fresh, end_run) (find-put list_eq list_eq_iff (x ∷ id) run _ r.boundaries),
    refl,
  )
  | inr (b, old) ↦ (
    record { open_run = false; workspace = b.workspace; source = b.source },
    rw (old, end_run) (find-put list_eq list_eq_iff (x ∷ id) run _ r.boundaries),
    refl,
  )
]

not_empty : (run : Text) → run ≢ [] → list_eq [] run ≡ false
not_empty [] ne = absurd (ne refl)
not_empty (x ∷ run) ne = refl

resolve-registered :
    (run workspace : Text) (id : ProcessIdentity) (t : Text) (r : Registry)
    → resolve_inherited run workspace (fold_process_lifecycle registered id (some t) r)
      ≡ resolve_inherited run workspace r
unfolding fold_process_lifecycle resolve_inherited
resolve-registered run workspace id [] r = refl
resolve-registered run workspace id (x ∷ t) r = refl

fold-workspace : (o : Observation) (r : Registry) → (fold r o).0.workspace ≡ r.workspace
unfolding fold start end_run opened closed
fold-workspace (process_lifecycle registered id none) r = refl
fold-workspace (process_lifecycle registered id (some [])) r = refl
fold-workspace (process_lifecycle registered id (some (x ∷ t))) r = refl
fold-workspace (process_lifecycle process_exited id t) r = refl
fold-workspace (process_lifecycle process_launch_failed id t) r = refl
fold-workspace (run_boundary (run_started id)) r = ground arith
fold-workspace (run_boundary (run_ended id)) r = ground arith
fold-workspace (run_boundary other_transition) r = refl
fold-workspace (run_boundary bad_boundary) r = refl
fold-workspace other_kind r = refl
fold-workspace bad_observation r = refl

not_no_text : (run : Text) → run ≢ [] → no_text run ≡ false
not_no_text [] ne = absurd (ne refl)
not_no_text (x ∷ run) ne = refl

module _ (run workspace own : Text) where
  abbrev pub scope : InheritedRun
  scope = if list_eq own workspace then open_same_scope else cross_workspace

  abbrev pub latch : InheritedRun → InheritedRun
  latch closed_run = closed_run
  latch unknown_run = scope
  latch open_same_scope = scope
  latch cross_workspace = scope

  -- What one observation makes of the answer for the run.
  abbrev after : InheritedRun → Observation → InheritedRun
  after st o = if ends run o then closed_run else if starts run o then latch st else st

  latch-status :
      (o : Option Boundary)
      → latch (status o workspace) ≡ (if is_closed o then status o workspace else scope)
  unfolding status is_closed
  latch-status none = refl
  latch-status (some b) = ground arith

  opened-find :
      (id : Text) (r : Registry)
      → r.workspace ≡ own
      → resolve_inherited run workspace (opened r id)
        ≡ (if list_eq id run then scope else resolve_inherited run workspace r)
  unfolding resolve_inherited opened status
  opened-find id r w = rw (find-put list_eq list_eq_iff id run _ r.boundaries) (ground arith)

  resolve-start :
      (id : Text) (r : Registry)
      → run ≢ []
      → r.workspace ≡ own
      → resolve_inherited run workspace (start id r) ≡ (
          if list_eq id run
          then latch (resolve_inherited run workspace r)
          else resolve_inherited run workspace r)
  unfolding resolve_inherited
  resolve-start id r ne w =
      let skip = no_text id || is_closed (find list_eq id r.boundaries) in
      elim (Bool-cases (list_eq id run)) [
        | inl same ↦
            let e : id ≡ run = (list_eq_iff id run).0 same in
            rw (same, start-eq id r)
              (rw e (
                rw (not_no_text run ne)
                  (elim (Bool-cases (is_closed (find list_eq run r.boundaries))) [
                    | inl shut ↦ rw shut (sym (latch-status _ ∙ rw shut refl))
                    | inr live ↦ rw live (
                        opened-find run r w
                        ∙ rw (list_eq_refl run) (sym (latch-status _ ∙ rw live refl)))
                  ])))
        | inr other ↦
            rw (other, start-eq id r)
              (elim (Bool-cases skip) [
                | inl kept ↦ rw kept refl
                | inr fresh ↦ rw fresh (opened-find id r w ∙ rw other refl)
              ])
      ]

  resolve-end_run :
      (id : Text) (r : Registry)
      → run ≢ []
      → resolve_inherited run workspace (end_run id r)
        ≡ (if list_eq id run then closed_run else resolve_inherited run workspace r)
  unfolding resolve_inherited status
  resolve-end_run [] r ne = rw (not_empty run ne) (unfold end_run in refl)
  resolve-end_run (x ∷ id) r ne =
      let (b, e, shut) = end_run-find (x ∷ id) run r (λ h. cc) in rw e (ground arith)

  resolve-fold :
      (o : Observation) (r : Registry)
      → run ≢ []
      → r.workspace ≡ own
      → resolve_inherited run workspace (fold r o).0 ≡ after (resolve_inherited run workspace r) o
  unfolding fold fold_run_boundary
  resolve-fold (process_lifecycle registered id none) r ne w = refl
  resolve-fold (process_lifecycle registered id (some t)) r ne w =
      resolve-registered run workspace id t r
  resolve-fold (process_lifecycle process_exited id t) r ne w = refl
  resolve-fold (process_lifecycle process_launch_failed id t) r ne w = refl
  resolve-fold (run_boundary (run_started id)) r ne w = resolve-start id r ne w
  resolve-fold (run_boundary (run_ended id)) r ne w = resolve-end_run id r ne
  resolve-fold (run_boundary other_transition) r ne w = refl
  resolve-fold (run_boundary bad_boundary) r ne w = refl
  resolve-fold other_kind r ne w = refl
  resolve-fold bad_observation r ne w = refl

  -- The answer after a history, from its set of starts and ends alone.
  abbrev summary : InheritedRun → List Observation → InheritedRun
  summary st os =
      if some_of (ends run) os then closed_run else if some_of (starts run) os then latch st else st

  not_both : (o : Observation) → ends run o ≡ true → starts run o ≡ false
  not_both (run_boundary (run_ended id)) h = refl
  not_both (run_boundary (run_started id)) h = cc
  not_both (run_boundary other_transition) h = refl
  not_both (run_boundary bad_boundary) h = refl
  not_both (process_lifecycle t id context) h = cc
  not_both other_kind h = cc
  not_both bad_observation h = cc

  latch-latch : (st : InheritedRun) → latch (latch st) ≡ latch st
  latch-latch closed_run = refl
  latch-latch unknown_run = ground arith
  latch-latch open_same_scope = ground arith
  latch-latch cross_workspace = ground arith

  summary-after :
      (o : Observation) (os : List Observation) (st : InheritedRun)
      → summary (after st o) os ≡ summary st (o ∷ os)
  summary-after o os closed_run = ground arith
  summary-after o os unknown_run = ground (arith, not_both o)
  summary-after o os open_same_scope = ground (arith, not_both o)
  summary-after o os cross_workspace = ground (arith, not_both o)

  fold_live-summary :
      (os : List Observation) (r : Registry)
      → run ≢ []
      → r.workspace ≡ own
      → resolve_inherited run workspace (fold_live r os)
        ≡ summary (resolve_inherited run workspace r) os
  unfolding fold_live
  fold_live-summary [] r ne w = refl
  fold_live-summary (o ∷ os) r ne w =
      fold_live-summary os (fold r o).0 ne (fold-workspace o r ∙ w)
      ∙ ap (λ st. summary st os) (resolve-fold o r ne w)
      ∙ summary-after o os (resolve_inherited run workspace r)

-- Whatever observations a new registry has folded, in whatever order and however often, a run
-- that has an id resolves by the set of them alone: closed if one of them ends the run;
-- otherwise, if one starts it, open in the same scope for the registry's own workspace and
-- cross-workspace for any other; and otherwise unknown.
pub resolve_inherited-fold_live :
    (run workspace source own : Text) (os : List Observation)
    → run ≢ []
    → resolve_inherited run workspace (fold_live (new_registry source own) os) ≡ (
        if some_of (ends run) os
        then closed_run
        else if some_of (starts run) os
        then if list_eq own workspace then open_same_scope else cross_workspace
        else unknown_run)
unfolding new_registry resolve_inherited
resolve_inherited-fold_live run workspace source own os ne =
    fold_live-summary run workspace own os (new_registry source own) ne refl
