-- ===== src/RunWrap/Boundary.antt =====
-- The boundary of a run: which observations are durable, in which order, and when the terminal
-- reserve is given back.
mod Endings
pub mod Launches
use gasworks.Prelude.{
  ℕ, ◌≡◌, ◌⊎◌, inl, inr, refl, ap, sym, ◌∙◌, Bool, true, false, List, [], ◌∷◌, ◌++◌, Option, none,
  some, arith, Bool-cases, Option-cases,
}
use gasworks.Daemon.Registry.{ProcessIdentity}
use gasworks.RunWrap.Env.{Text}
use gasworks.RunWrap.{
  drain_outcome, process_exit_input, DrainStatus, complete, partial_timeout, failed, Ending,
  Authored, run_started, registered, process_exited, process_launch_failed, partial_capture,
  run_ended_drain, run_ended_launch_failure, Launch, no_identity, RunInputs, Config, RunLog, emit,
  end_run, release_terminal, diagnose, terminal_exit, terminal_launch_failure, launch_observed,
  fail_launch, run_child, begin_run, run_observed, declared_refs, validate, RunOutcome, refused,
  unobserved, not_launched, finished, Failure, not_built, not_appended,
}

-- How far a run has come.
pub data Phase : Type 0 where
  before opened alive exited diagnosed unlaunched closed closed_unlaunched : Phase

-- The normative order; anything else is none.
abbrev pub step : Phase → Authored → Option Phase
step before (run_started refs) = some opened
step opened (registered id) = some alive
step opened (process_launch_failed id) = some unlaunched
step opened run_ended_launch_failure = some closed_unlaunched
step alive (process_exited id e) = some exited
step alive (process_launch_failed id) = some unlaunched
step alive run_ended_launch_failure = some closed_unlaunched
step exited partial_capture = some diagnosed
step exited (run_ended_drain complete w) = some closed
step diagnosed (run_ended_drain partial_timeout w) = some closed
step diagnosed (run_ended_drain failed w) = some closed
step unlaunched run_ended_launch_failure = some closed_unlaunched
step p o = none

-- The phase behind a log.
abbrev pub phase : Phase → List Authored → Option Phase
phase p [] = some p
phase p (o ∷ os) = elim (step p o) [ none ↦ none | some q ↦ phase q os ]

pub differ : ◌≡◌ {A = Bool} false true → ⊥
differ e = cc

stuck : {q : Phase} → ◌≡◌ {A = Option Phase} none (some q) → ⊥
stuck e = cc

phase-append :
    (p q : Phase) (os : List Authored) (o : Authored)
    → phase p os ≡ some q
    → phase p (os ++ o ∷ []) ≡ step q o
phase-append p q [] o e = ground arith
phase-append p q (x ∷ os) o e = elim (Option-cases (step p x)) [
  | inl off ↦ absurd (stuck (rw (off, phase) at e))
  | inr (r, on) ↦ rw (on, phase) (phase-append r q os o (rw (on, phase) at e))
]

abbrev pub is_closed : Phase → Bool
is_closed closed = true
is_closed closed_unlaunched = true
is_closed p = false

-- Behind the exec of the child.
abbrev pub has_run : Phase → Bool
has_run alive = true
has_run exited = true
has_run diagnosed = true
has_run closed = true
has_run p = false

-- The outcomes without an error, those behind a launch, and those that refuse the run.
abbrev pub succeeded : RunOutcome → Bool
succeeded (not_launched none) = true
succeeded (finished s none) = true
succeeded o = false

abbrev pub launched : RunOutcome → Bool
launched (finished s f) = true
launched o = false

abbrev pub declined : RunOutcome → Bool
declined (refused f) = true
declined unobserved = true
declined o = false

pub record Settled (r : RunLog × RunOutcome) : Type 0 where
  pub at : Phase
  pub reached : phase before r.0.log ≡ some at
  pub given_back : r.0.released ≡ true → (at ≡ before) ⊎ (is_closed at ≡ true)
  pub done : succeeded r.1 ≡ true → (is_closed at ≡ true) × (r.0.released ≡ true)
  pub ran : launched r.1 ≡ true → has_run at ≡ true
  pub nothing : declined r.1 ≡ true → at ≡ before
  pub no_leak : declined r.1 ≡ true → r.0.reserved ≡ true → r.0.released ≡ true

-- In the phase, with the reserve not given back.
abbrev pub IsAt : Phase → RunLog → Type 0
IsAt p w = (phase before w.log ≡ some p) × (w.released ≡ false)

abbrev pub IsClosedAt : Phase → RunLog → Type 0
IsClosedAt p w = (phase before w.log ≡ some p) × (w.released ≡ true)

pub boot_cases : (t : Text) → (t ≡ []) ⊎ ((c : ℕ) × (cs : Text) × (t ≡ c ∷ cs))
boot_cases [] = inl refl
boot_cases (c ∷ cs) = inr (c, cs, refl)

-- A run that stops in the middle, or behind the closing boundary.
pub stopped-Settled :
    (w : RunLog) (o : RunOutcome) (p : Phase)
    → IsAt p w
    → succeeded o ≡ false
    → declined o ≡ false
    → (launched o ≡ true → has_run p ≡ true)
    → Settled (w, o)
stopped-Settled w o p h no_success no_decline live = record {
  at = p;
  reached = h.0;
  given_back = λ e. cc;
  done = λ e. absurd (differ (sym no_success ∙ e));
  ran = live;
  nothing = λ e. absurd (differ (sym no_decline ∙ e));
  no_leak = λ e. absurd (differ (sym no_decline ∙ e));
}

pub closed-Settled :
    (w : RunLog) (o : RunOutcome) (p : Phase)
    → IsClosedAt p w
    → is_closed p ≡ true
    → declined o ≡ false
    → (launched o ≡ true → has_run p ≡ true)
    → Settled (w, o)
closed-Settled w o p h shut no_decline live = record {
  at = p;
  reached = h.0;
  given_back = λ e. inr shut;
  done = λ e. (shut, h.1);
  ran = live;
  nothing = λ e. absurd (differ (sym no_decline ∙ e));
  no_leak = λ e. absurd (differ (sym no_decline ∙ e));
}

-- A run refused before its first observation is durable.
pub declined-Settled :
    (w : RunLog) (o : RunOutcome)
    → phase before w.log ≡ some before
    → succeeded o ≡ false
    → launched o ≡ false
    → (w.reserved ≡ true → w.released ≡ true)
    → Settled (w, o)
declined-Settled w o h no_success no_launch paid = record {
  at = before;
  reached = h;
  given_back = λ e. inl refl;
  done = λ e. absurd (differ (sym no_success ∙ e));
  ran = λ e. absurd (differ (sym no_launch ∙ e));
  nothing = λ e. refl;
  no_leak = λ e. paid;
}

module _ (a : RunInputs) where
  pub emit_cases :
      (w : RunLog) (o : Authored) (p q : Phase)
      → IsAt p w
      → step p o ≡ some q
      → (((emit a w o).1 ≡ none) × IsAt q (emit a w o).0)
        ⊎ ((f : Failure) × ((emit a w o).1 ≡ some f) × IsAt p (emit a w o).0)
  unfolding emit
  emit_cases w o p q h e =
      let on = phase-append before p w.log o h.0 ∙ e in
      elim (Bool-cases (a.builds o)) [
        | inl built ↦ elim (Bool-cases (a.durable w.appends)) [
          | inl kept ↦ rw (built, kept) (inl (refl, (on, h.1)))
          | inr lost ↦ rw (built, lost) (inr (not_appended o, refl, h))
        ]
        | inr broken ↦ rw broken (inr (not_built o, refl, h))
      ]

  pub end_run_cases :
      (w : RunLog) (o : Authored) (p q : Phase)
      → IsAt p w
      → step p o ≡ some q
      → IsClosedAt q (end_run a w o).0
        ⊎ ((f : Failure) × ((end_run a w o).1 ≡ some f) × IsAt p (end_run a w o).0)
  unfolding end_run release_terminal
  end_run_cases w o p q h e = elim (emit_cases w o p q h e) [
    | inl (done, on) ↦ rw (done, end_run) (inl (on.0, refl))
    | inr (f, broke, on) ↦ rw (broke, end_run) (inr (f, refl, on))
  ]
