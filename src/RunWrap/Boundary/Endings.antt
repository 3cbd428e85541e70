-- ===== src/RunWrap/Boundary/Endings.antt =====
-- The two ends of a run, drain.go: a child that was not launched, and one that exited.
use gasworks.Prelude.{◌≡◌, inl, inr, refl, true, Option, none, some}
use gasworks.Daemon.Registry.{ProcessIdentity}
use gasworks.RunWrap.Env.{Text}
use gasworks.RunWrap.{
  drain_outcome, DrainStatus, complete, partial_timeout, failed, Ending, process_exited,
  process_launch_failed, partial_capture, run_ended_drain, run_ended_launch_failure, RunInputs,
  RunLog, end_run, diagnose, terminal_exit, terminal_launch_failure, fail_launch, run_child,
  not_launched, finished, Failure,
}
use gasworks.RunWrap.Boundary.{
  Phase, alive, exited, diagnosed, unlaunched, closed, closed_unlaunched, step, has_run, Settled,
  IsAt, boot_cases, emit_cases, end_run_cases, stopped-Settled, closed-Settled,
}

module _ (a : RunInputs) where
  -- The end of a run whose child was not launched.
  ended_unlaunched :
      (w : RunLog) (p : Phase)
      → IsAt p w
      → step p run_ended_launch_failure ≡ some closed_unlaunched
      → Settled (
        (end_run a w run_ended_launch_failure).0,
        not_launched (end_run a w run_ended_launch_failure).1,
      )
  ended_unlaunched w p h e =
      elim (end_run_cases a w run_ended_launch_failure p closed_unlaunched h e) [
        | inl shut ↦ closed-Settled _ _ closed_unlaunched shut refl refl (λ x. cc)
        | inr (f, broke, on) ↦
            rw broke (stopped-Settled _ (not_launched (some f)) p on refl refl (λ x. cc))
      ]

  -- With an identity, in the phase before or behind its registration.
  pub fail_launch-Settled :
      (w : RunLog) (p : Phase) (id : Option ProcessIdentity)
      → IsAt p w
      → step p run_ended_launch_failure ≡ some closed_unlaunched
      → ((i : ProcessIdentity) → step p (process_launch_failed i) ≡ some unlaunched)
      → Settled (fail_launch a w id)
  unfolding fail_launch terminal_launch_failure
  fail_launch-Settled w p none h e g = ended_unlaunched w p h e
  fail_launch-Settled w p (some id) h e g = elim (boot_cases id.boot_id) [
    | inl zero ↦ rw (zero, terminal_launch_failure) (ended_unlaunched w p h e)
    | inr (c, cs, proven) ↦ elim (emit_cases a w (process_launch_failed id) p unlaunched h (g id)) [
      | inl (done, on) ↦
          rw (proven, terminal_launch_failure, done, terminal_launch_failure)
            (ended_unlaunched _ unlaunched on refl)
      | inr (f, broke, on) ↦
          rw (proven, terminal_launch_failure, broke, terminal_launch_failure)
            (stopped-Settled _ (not_launched (some f)) p on refl refl (λ x. cc))
    ]
  ]

  ended_drain :
      (w : RunLog) (p : Phase) (s : DrainStatus) (t : Text)
      → IsAt p w
      → step p (run_ended_drain s t) ≡ some closed
      → has_run p ≡ true
      → Settled (
        (end_run a w (run_ended_drain s t)).0,
        finished (some s) (end_run a w (run_ended_drain s t)).1,
      )
  ended_drain w p s t h e live = elim (end_run_cases a w (run_ended_drain s t) p closed h e) [
    | inl shut ↦ closed-Settled _ _ closed shut refl refl (λ x. refl)
    | inr (f, broke, on) ↦
        rw broke (stopped-Settled _ (finished (some s) (some f)) p on refl refl (λ x. live))
  ]

  SettledExit : RunLog × Option DrainStatus × Option Failure → Type 0
  SettledExit r = Settled (r.0, finished r.1 r.2)

  -- A drain that did not complete is diagnosed first.
  after_drain :
      (w : RunLog) (s : DrainStatus) (t : Text)
      → IsAt exited w
      → SettledExit
          (elim (diagnose a w s).1 as (λ x. RunLog × Option DrainStatus × Option Failure) [
            | some f ↦ ((diagnose a w s).0, some s, some f)
            | none ↦ (
              (end_run a (diagnose a w s).0 (run_ended_drain s t)).0,
              some s,
              (end_run a (diagnose a w s).0 (run_ended_drain s t)).1,
            )
          ])
  unfolding SettledExit diagnose
  after_drain w complete t h = ended_drain w exited complete t h refl refl
  after_drain w partial_timeout t h =
      elim (emit_cases a w partial_capture exited diagnosed h refl) [
        | inl (done, on) ↦ rw done (ended_drain _ diagnosed partial_timeout t on refl refl)
        | inr (f, broke, on) ↦ rw broke (
            stopped-Settled _ (finished (some partial_timeout) (some f)) exited on refl refl
              (λ x. refl))
      ]
  after_drain w failed t h = elim (emit_cases a w partial_capture exited diagnosed h refl) [
    | inl (done, on) ↦ rw done (ended_drain _ diagnosed failed t on refl refl)
    | inr (f, broke, on) ↦
        rw broke
          (stopped-Settled _ (finished (some failed) (some f)) exited on refl refl (λ x. refl))
  ]

  pub run_child-Settled :
      (w : RunLog) (id : ProcessIdentity) (e : Ending) → IsAt alive w → Settled (run_child a w id e)
  unfolding run_child terminal_exit SettledExit
  run_child-Settled w id e h = elim (emit_cases a w (process_exited id e) alive exited h refl) [
    | inl (done, on) ↦
        rw (done, terminal_exit)
          (after_drain _ (drain_outcome a a.drain).0 (drain_outcome a a.drain).1 on)
    | inr (f, broke, on) ↦
        rw (broke, terminal_exit)
          (stopped-Settled _ (finished none (some f)) alive on refl refl (λ x. refl))
  ]
