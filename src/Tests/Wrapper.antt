-- ===== src/Tests/Wrapper.antt =====
-- The run wrapper: a child that is killed, whose drain is partial, and an outer run id in its environment.
use gasworks.Prelude.{ℕ, ◌≡◌, refl, Bool, true, false, List, [], ◌∷◌, some, codes, arith, ◌==◌, not}
use gasworks.Daemon.Registry.{ProcessIdentity}
use gasworks.RunWrap.Env.{Text, with_run_id, env_lookup}
use gasworks.RunWrap.Env.Lookup.{IsKey, env_lookup-with_run_id}
use gasworks.RunWrap.{
  partial_timeout, run_started, registered, process_exited, signal, partial_capture,
  run_ended_drain, run_ended_launch_failure, process_launch_failed, Launch, identified, by_signal,
  no_state, interpret_state, read_launch_status, RunInputs, Config, RunLog, emit, run_observed,
  release_terminal, terminal_exit, end_run, begin_run, launch_observed, fail_launch, run_child,
  diagnose, validate, declared_refs, process_exit_input, terminal_launch_failure,
}
use gasworks.RunWrap.Bind.{has_key, no_session, discover_and_bind}
use gasworks.RunWrap.Bind.Once.{occurrences, discover_and_bind_once}
use gasworks.RunWrap.Boundary.{Settled}
use gasworks.RunWrap.Boundary.Launches.{run_observed-Settled}

abbrev child : ProcessIdentity
child = record { boot_id = codes "boot"; pid = 41; process_start_time = 1000 }

abbrev killed : Launch
killed = identified child true (1 ∷ []) (by_signal 9)

abbrev answers : RunInputs
answers = record {
  has_client = true;
  run_id = some (codes "inner");
  reserves = true;
  builds = λ o. true;
  durable = λ n. true;
  launch = killed;
  drain = some (partial_timeout, codes "mark");
  releases = true;
}

abbrev config : Config
config = record {
  target = codes "codex" ∷ [];
  beads_project_id = codes "p";
  work_item_bead_id = codes "b";
  allow_unobserved = false;
}

abbrev fresh_log : RunLog
fresh_log = record { log = []; appends = 0; reserved = false; released = false }

killed_log :
    (run_observed answers fresh_log config).0.log
    ≡ run_started (some (codes "p", codes "b"))
      ∷ registered child
      ∷ process_exited child (signal 9)
      ∷ partial_capture
      ∷ run_ended_drain partial_timeout (codes "mark")
      ∷ []
unfolding interpret_state read_launch_status run_observed validate begin_run launch_observed
    run_child terminal_exit emit end_run release_terminal diagnose declared_refs process_exit_input
killed_log = refl

-- The closing boundary is not durable, so the reserve is kept.
open_run :
    (run_observed (record answers { durable = λ n. not (n == 4) }) fresh_log config).0.released
    ≡ false
unfolding interpret_state read_launch_status run_observed validate begin_run launch_observed
    run_child terminal_exit emit end_run release_terminal diagnose declared_refs process_exit_input
open_run = refl

exec_failed_log :
    (run_observed
      (record answers { launch = identified child true (1 ∷ 2 ∷ []) no_state })
      fresh_log
      config).0.log
    ≡ run_started (some (codes "p", codes "b"))
      ∷ registered child
      ∷ process_launch_failed child
      ∷ run_ended_launch_failure
      ∷ []
unfolding interpret_state read_launch_status run_observed validate begin_run launch_observed
    fail_launch terminal_launch_failure emit end_run release_terminal declared_refs
exec_failed_log = refl

run_observed-Settled_example : Settled (run_observed answers fresh_log config)
run_observed-Settled_example = run_observed-Settled answers fresh_log config refl refl refl

abbrev outer : List Text
outer = codes "PATH=/bin" ∷ codes "GASWORKS_RUN_ID=outer" ∷ []

abbrev path_key : Text
path_key = codes "PATH"

path_key-IsKey : IsKey path_key
path_key-IsKey = ground arith

env_lookup-with_run_id_example :
    env_lookup (with_run_id outer (codes "inner")) path_key ≡ env_lookup outer path_key
env_lookup-with_run_id_example =
    env_lookup-with_run_id outer (codes "inner") path_key path_key-IsKey

abbrev accepts : Bool → Text → ℕ → Bool
accepts cancelled native n = not cancelled

abbrev path_a : Text
path_a = codes "a"

abbrev path_b : Text
path_b = codes "b"

discover_and_bind_once_example :
    occurrences path_b
      (discover_and_bind some accepts
        (path_a ∷ [])
        ((path_a ∷ path_b ∷ []) ∷ [])
        (path_b ∷ [])).bound
    ≡ 1
unfolding has_key no_session
discover_and_bind_once_example =
    discover_and_bind_once some accepts (path_a ∷ []) path_b path_b ((path_a ∷ path_b ∷ []) ∷ [])
      (path_b ∷ []) refl refl refl (λ n. refl) refl
