-- ===== src/RunWrap.antt =====
-- internal/observer/runwrap: the wrapper of an explicit run (run.go, drain.go). What the daemon, the
-- evidence constructors and the launch answer are arguments; an append that reports an error is
-- not durable, as the interface of the daemon says. An observation is what the wrapper puts in it.
pub mod Env
pub mod Bind
pub mod Boundary
use gasworks.Prelude.{
  ℕ, ◌+◌, ◌%◌, ◌==◌, Bool, true, false, not, ◌&&◌, List, [], ◌∷◌, ◌++◌, Option, none, some,
  if◌then◌else◌,
}
use gasworks.Daemon.Registry.{ProcessIdentity}
use gasworks.RunWrap.Env.{Text}

pub data DrainStatus : Type 0 where
  complete partial_timeout failed : DrainStatus

-- How a child ended: an int32.
pub data Ending : Type 0 where
  exit_code signal : ℕ → Ending

pub data Authored : Type 0 where
  run_started : Option (Text × Text) → Authored
  registered : ProcessIdentity → Authored
  process_exited : ProcessIdentity → Ending → Authored
  process_launch_failed : ProcessIdentity → Authored
  partial_capture : Authored
  run_ended_drain : DrainStatus → Text → Authored
  run_ended_launch_failure : Authored

-- How the wait for the child ended: its state is missing, or a signal or an exit code.
pub data WaitState : Type 0 where
  no_state : WaitState
  by_signal exited_with : ℕ → WaitState

-- A launch: over before the child had an identity, or with one, whether the ack was written, the
-- bytes of the status pipe up to its end, and the wait.
pub data Launch : Type 0 where
  no_identity : Launch
  identified : ProcessIdentity → Bool → List ℕ → WaitState → Launch

-- What the calls answer; the n-th append of the run is durable or not.
pub record RunInputs : Type 0 where
  pub has_client : Bool
  pub run_id : Option Text
  pub reserves : Bool
  pub builds : Authored → Bool
  pub durable : ℕ → Bool
  pub launch : Launch
  pub drain : Option (DrainStatus × Text)
  pub releases : Bool

pub record Config : Type 0 where
  pub target : List Text
  pub beads_project_id : Text
  pub work_item_bead_id : Text
  pub allow_unobserved : Bool

-- The durable observations of the run in order, the appends made, and whether the reserve was held
-- and its release called.
pub record RunLog : Type 0 where
  pub log : List Authored
  pub appends : ℕ
  pub reserved : Bool
  pub released : Bool

pub data Failure : Type 0 where
  no_target incomplete_work_ref no_client no_run_id not_reserved launch_failed not_released :
      Failure
  not_built not_appended : Authored → Failure

is_blank : Text → Bool
is_blank [] = true
is_blank (c ∷ cs) = false

no_program : List Text → Bool
unfolding is_blank
no_program [] = true
no_program (t ∷ ts) = is_blank t

unfoldable pub validate : Config → Option Failure
unfolding no_program is_blank
validate c =
    if no_program c.target
    then some no_target
    else if is_blank c.beads_project_id
    then if is_blank c.work_item_bead_id then none else some incomplete_work_ref
    else if is_blank c.work_item_bead_id
    then some incomplete_work_ref
    else none

unfoldable pub declared_refs : Config → Option (Text × Text)
unfolding is_blank
declared_refs c =
    if is_blank c.beads_project_id then none else some (c.beads_project_id, c.work_item_bead_id)

unfoldable pub process_exit_input : Bool → ℕ → ℕ → Ending
process_exit_input signaled number code =
    if signaled then signal (number % 4294967296) else exit_code (code % 4294967296)

-- The exit code is an int, of which the conversion to an int32 keeps the low bits.
unfoldable pub interpret_state : WaitState → ℕ × Bool × ℕ
interpret_state no_state = (18446744073709551615, false, 0)
interpret_state (by_signal n) = (128 + n, true, n)
interpret_state (exited_with n) = (n, false, 0)

-- Whether the status pipe reports a launch: the marker in front of the exec, and nothing behind.
unfoldable pub read_launch_status : List ℕ → Bool
read_launch_status [] = false
read_launch_status (b ∷ []) = b == 1
read_launch_status (b ∷ c ∷ bytes) = false

-- The status is none where the drain was not reached.
pub data RunOutcome : Type 0 where
  refused : Failure → RunOutcome
  unobserved : RunOutcome
  not_launched : Option Failure → RunOutcome
  finished : Option DrainStatus → Option Failure → RunOutcome

module _ (a : RunInputs) where
  -- A constructor of evidence, and the append of what it gives.
  unfoldable pub emit : RunLog → Authored → RunLog × Option Failure
  emit w o =
      let tried = record w { appends = w.appends + 1 } in
      if not (a.builds o)
      then (w, some (not_built o))
      else if a.durable w.appends
      then (record tried { log = w.log ++ o ∷ [] }, none)
      else (tried, some (not_appended o))

  unfoldable pub release_terminal : RunLog → RunLog × Option Failure
  release_terminal w =
      (record w { released = true }, if a.releases then none else some not_released)

  -- The last two steps of both terminal sequences.
  unfoldable pub end_run : RunLog → Authored → RunLog × Option Failure
  end_run w ended = elim (emit w ended).1 [
    | some f ↦ ((emit w ended).0, some f)
    | none ↦ release_terminal (emit w ended).0
  ]

  abbrev pub drain_outcome : Option (DrainStatus × Text) → DrainStatus × Text
  drain_outcome none = (failed, [])
  drain_outcome (some o) = o

  unfoldable pub diagnose : RunLog → DrainStatus → RunLog × Option Failure
  diagnose w complete = (w, none)
  diagnose w partial_timeout = emit w partial_capture
  diagnose w failed = emit w partial_capture

  -- The status is none where the drain was not reached.
  unfoldable pub terminal_exit :
      RunLog → ProcessIdentity → Ending → RunLog × Option DrainStatus × Option Failure
  terminal_exit w id e =
      let x = emit w (process_exited id e) in
      let o = drain_outcome a.drain in
      let y = diagnose x.0 o.0 in
      let z = end_run y.0 (run_ended_drain o.0 o.1) in
      elim x.1 [
        | some f ↦ (x.0, none, some f)
        | none ↦ elim y.1 [ some f ↦ (y.0, some o.0, some f) | none ↦ (z.0, some o.0, z.1) ]
      ]

  -- The zero identity has no boot id.
  unfoldable pub terminal_launch_failure : RunLog → Option ProcessIdentity → RunLog × Option Failure
  terminal_launch_failure w none = end_run w run_ended_launch_failure
  terminal_launch_failure w (some id) =
      let x = emit w (process_launch_failed id) in
      let end = end_run x.0 run_ended_launch_failure in
      elim id.boot_id [
        | [] ↦ end_run w run_ended_launch_failure
        | c ∷ cs ↦ elim x.1 [ some f ↦ (x.0, some f) | none ↦ end ]
      ]

  unfoldable pub fail_launch : RunLog → Option ProcessIdentity → RunLog × RunOutcome
  fail_launch w id = let x = terminal_launch_failure w id in (x.0, not_launched x.1)

  unfoldable pub run_child : RunLog → ProcessIdentity → Ending → RunLog × RunOutcome
  run_child w id e = let x = terminal_exit w id e in (x.0, finished x.1 x.2)

  -- `launchObserved` registers the child before it execs.
  unfoldable pub launch_observed : RunLog → Launch → RunLog × RunOutcome
  launch_observed w no_identity = fail_launch w none
  launch_observed w (identified id acked status state) =
      let x = emit w (registered id) in
      let s = interpret_state state in
      let ran = run_child x.0 id (process_exit_input s.1 s.2 s.0) in
      let failed_launch = fail_launch x.0 (some id) in
      elim x.1 [
        | some f ↦ failed_launch
        | none ↦ if acked && read_launch_status status then ran else failed_launch
      ]

  unfoldable pub begin_run : RunLog → Config → RunLog × RunOutcome
  begin_run w c =
      let x = emit w (run_started (declared_refs c)) in
      let launched = launch_observed x.0 a.launch in
      elim x.1 [ some f ↦ ((release_terminal x.0).0, refused f) | none ↦ launched ]

  unfoldable pub run_observed : RunLog → Config → RunLog × RunOutcome
  run_observed w c = elim (validate c) [
    | some f ↦ (w, refused f)
    | none ↦
        if c.allow_unobserved
        then (w, unobserved)
        else if not a.has_client
        then (w, refused no_client)
        else elim a.run_id [
          | none ↦ (w, refused no_run_id)
          | some id ↦
              if a.reserves
              then begin_run (record w { reserved = true }) c
              else (w, refused not_reserved)
        ]
  ]
