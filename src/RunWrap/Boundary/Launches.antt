-- ===== src/RunWrap/Boundary/Launches.antt =====
-- A whole run of the wrapper, `Run`: admission, boundary, launch and end.
use gasworks.Prelude.{
  ◌&&◌, if-intro, not, if◌then◌else◌, ◌≡◌, inl, inr, refl, ap, sym, ◌∙◌, true, false, [], none,
  some, Option-cases,
}
use gasworks.RunWrap.{
  interpret_state, read_launch_status, identified, no_client, no_run_id, not_reserved, RunLog,
  RunOutcome, process_exit_input, run_started, registered, Launch, no_identity, RunInputs, Config,
  RunLog, release_terminal, launch_observed, begin_run, run_observed, declared_refs, validate,
  refused, unobserved,
}
use gasworks.RunWrap.Boundary.{
  before, opened, alive, phase, Settled, IsAt, differ, emit_cases, declined-Settled,
}
use gasworks.RunWrap.Boundary.Endings.{fail_launch-Settled, run_child-Settled}

module _ (a : RunInputs) where
  launch_observed-Settled :
      (w : RunLog) (l : Launch) → IsAt opened w → Settled (launch_observed a w l)
  unfolding launch_observed
  launch_observed-Settled w no_identity h = fail_launch-Settled a w opened none h refl (λ i. refl)
  launch_observed-Settled w (identified id acked status state) h =
      elim (emit_cases a w (registered id) opened alive h refl) [
        | inl (done, on) ↦
            let s = interpret_state state in
            rw (done, launch_observed)
              (if-intro Settled (acked && read_launch_status status)
                (λ e. run_child-Settled a _ id (process_exit_input s.1 s.2 s.0) on)
                (λ e. fail_launch-Settled a _ alive (some id) on refl (λ i. refl)))
        | inr (f, broke, on) ↦
            rw (broke, launch_observed)
              (fail_launch-Settled a _ opened (some id) on refl (λ i. refl))
      ]

  begin_run-Settled : (w : RunLog) (c : Config) → IsAt before w → Settled (begin_run a w c)
  unfolding begin_run release_terminal
  begin_run-Settled w c h =
      elim (emit_cases a w (run_started (declared_refs c)) before opened h refl) [
        | inl (done, on) ↦ rw (done, begin_run) (launch_observed-Settled _ a.launch on)
        | inr (f, broke, on) ↦
            rw (broke, begin_run) (declined-Settled _ (refused f) on.0 refl refl (λ e. refl))
      ]

  admitted :
      (w : RunLog) (c : Config)
      → phase before w.log ≡ some before
      → w.released ≡ false
      → (w.reserved ≡ true → w.released ≡ true)
      → Settled (elim a.run_id as (λ x. RunLog × RunOutcome) [
        | none ↦ (w, refused no_run_id)
        | some id ↦
            if a.reserves
            then begin_run a (record w { reserved = true }) c
            else (w, refused not_reserved)
      ])
  admitted w c on held unpaid = elim (Option-cases a.run_id) [
    | inl no_id ↦ simp no_id (declined-Settled w (refused no_run_id) on refl refl unpaid)
    | inr (id, minted) ↦ simp minted (
        if-intro Settled a.reserves
          (λ e. begin_run-Settled (record w { reserved = true }) c (on, held))
          (λ e. declined-Settled w (refused not_reserved) on refl refl unpaid))
  ]

  -- Of a run of the wrapper that starts with no observation and no reserve: whichever appends,
  -- constructors and calls fail, the durable observations are in the normative order, a boundary
  -- of the run first, its end last and a drain that is not complete diagnosed before it; the
  -- reserve is given back only where no observation is durable or the run is closed; a run
  -- without an error of the wrapper is closed and its reserve released; a child is reported as
  -- launched only behind its durable registration; a refused run has no durable observation and
  -- keeps no reserve.
  pub run_observed-Settled :
      (w : RunLog) (c : Config)
      → w.log ≡ []
      → w.reserved ≡ false
      → w.released ≡ false
      → Settled (run_observed a w c)
  unfolding run_observed
  run_observed-Settled w c fresh free held =
      let on = ap (phase before) fresh in
      let unpaid = λ (e : w.reserved ≡ true). absurd (differ (sym free ∙ e)) in
      elim (Option-cases (validate c)) [
        | inr (f, bad) ↦ rw (bad, run_observed) (declined-Settled w (refused f) on refl refl unpaid)
        | inl good ↦
            rw (good, run_observed)
              (if-intro Settled c.allow_unobserved
                (λ e. declined-Settled w unobserved on refl refl unpaid)
                (λ e.
                  if-intro Settled (not a.has_client)
                    (λ e. declined-Settled w (refused no_client) on refl refl unpaid)
                    (λ e. admitted w c on held unpaid)))
      ]
