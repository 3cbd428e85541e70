-- ===== src/Daemon/Registry.antt =====
-- daemon/registry.go: the in-memory projection of runs and processes, folded from observations.
-- An observation is what the generated accessors of the wire package give of it. The mutex makes
-- each method one step.
pub mod Replay
pub mod History
pub mod Restart
use gasworks.Prelude.{
  ℕ, Bool, true, false, not, ◌&&◌, ◌||◌, List, [], ◌∷◌, Option, none, some, if◌then◌else◌, ◌==◌,
  list_eq, find, put,
}

abbrev pub Text : Type 0
Text = List ℕ

-- wire.ProcessIdentity
pub record ProcessIdentity : Type 0 where
  pub boot_id : Text
  pub pid : ℕ
  pub process_start_time : ℕ

abbrev pub same_identity : ProcessIdentity → ProcessIdentity → Bool
same_identity a b =
    list_eq a.boot_id b.boot_id && (a.pid == b.pid && a.process_start_time == b.process_start_time)

pub data ProcessTransition : Type 0 where
  registered process_exited process_launch_failed : ProcessTransition

-- The union of a run boundary: what its discriminator and accessors report.
pub data RunBoundary : Type 0 where
  run_started run_ended : Text → RunBoundary
  other_transition bad_boundary : RunBoundary

-- The same of an observation; a process lifecycle carries a run id if it has a run context.
pub data Observation : Type 0 where
  process_lifecycle : ProcessTransition → ProcessIdentity → Option Text → Observation
  run_boundary : RunBoundary → Observation
  other_kind bad_observation : Observation

pub data FoldError : Type 0 where
  bad_kind bad_transition : FoldError

-- `runBoundary`
pub record Boundary : Type 0 where
  pub open_run : Bool
  pub workspace : Text
  pub source : Text

pub record Registry : Type 0 where
  pub source : Text
  pub workspace : Text
  pub registered_runs : List (ProcessIdentity × Text)
  pub boundaries : List (Text × Boundary)
  pub session_runs : List (Text × Text)

unfoldable pub new_registry : Text → Text → Registry
new_registry source workspace = record {
  source = source;
  workspace = workspace;
  registered_runs = [];
  boundaries = [];
  session_runs = [];
}

abbrev pub no_text : Text → Bool
no_text [] = true
no_text (c ∷ s) = false

unfoldable pub bind_session : Text → Text → Registry → Registry
bind_session session run r =
    if no_text session || no_text run
    then r
    else record r { session_runs = put list_eq session run r.session_runs }

unfoldable pub lookup_session_run : Text → Registry → Option Text
lookup_session_run session r = find list_eq session r.session_runs

unfoldable pub fold_process_lifecycle :
    ProcessTransition → ProcessIdentity → Option Text → Registry → Registry
fold_process_lifecycle registered id none r = r
fold_process_lifecycle registered id (some run) r =
    if no_text run
    then r
    else record r { registered_runs = put same_identity id run r.registered_runs }
fold_process_lifecycle process_exited id context r = r
fold_process_lifecycle process_launch_failed id context r = r

opened : Registry → Text → Registry
opened r run = record r {
  boundaries =
      put list_eq run (record { open_run = true; workspace = r.workspace; source = r.source })
        r.boundaries;
}

closed : Registry → Text → Boundary → Registry
closed r run b = record r {
  boundaries =
      put list_eq run (record { open_run = false; workspace = b.workspace; source = b.source })
        r.boundaries;
}

-- RUN_STARTED: a run whose boundary is closed stays closed.
unfoldable pub start : Text → Registry → Registry
unfolding opened
start run r = if no_text run then r else elim (find list_eq run r.boundaries) [
  | none ↦ opened r run
  | some b ↦ if not b.open_run then r else opened r run
]

-- RUN_ENDED: a run that was never started is closed in the registry's own scope.
unfoldable pub end_run : Text → Registry → Registry
unfolding closed
end_run run r = if no_text run then r else elim (find list_eq run r.boundaries) [
  | none ↦ closed r run (record { open_run = false; workspace = r.workspace; source = r.source })
  | some b ↦ closed r run b
]

unfoldable pub fold_run_boundary : RunBoundary → Registry → Registry × Option FoldError
unfolding start end_run
fold_run_boundary (run_started run) r = (start run r, none)
fold_run_boundary (run_ended run) r = (end_run run r, none)
fold_run_boundary other_transition r = (r, none)
fold_run_boundary bad_boundary r = (r, some bad_transition)

unfoldable pub fold : Registry → Observation → Registry × Option FoldError
unfolding fold_process_lifecycle fold_run_boundary
fold r (process_lifecycle t id context) = (fold_process_lifecycle t id context r, none)
fold r (run_boundary b) = fold_run_boundary b r
fold r other_kind = (r, none)
fold r bad_observation = (r, some bad_kind)

unfoldable pub lookup_registered : ProcessIdentity → Registry → Option Text
lookup_registered id r = find same_identity id r.registered_runs

-- local.InheritedRunStatus
pub data InheritedRun : Type 0 where
  unknown_run closed_run open_same_scope cross_workspace : InheritedRun

status : Option Boundary → Text → InheritedRun
status none workspace = unknown_run
status (some b) workspace =
    if not b.open_run
    then closed_run
    else if list_eq b.workspace workspace
    then open_same_scope
    else cross_workspace

unfoldable pub resolve_inherited : Text → Text → Registry → InheritedRun
unfolding status
resolve_inherited run workspace r = status (find list_eq run r.boundaries) workspace
