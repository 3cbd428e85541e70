-- ===== src/RunWrap/Bind.antt =====
-- runwrap/bind.go: the discovery of the sessions of a running child. The extractor, the daemon's
-- answers and the files that a pass over the roots finds are arguments.
pub mod Once
use gasworks.Prelude.{
  ℕ, ◌+◌, Bool, true, false, List, [], ◌∷◌, Option, none, some, if◌then◌else◌, list_eq,
}
use gasworks.RunWrap.Env.{Text}

-- A Go map whose values are all true.
unfoldable pub has_key : Text → List Text → Bool
has_key key [] = false
has_key key (x ∷ xs) = if list_eq x key then true else has_key key xs

-- The sessions bound, the latest first, and the calls made.
pub record Discovery : Type 0 where
  pub bound : List Text
  pub calls : ℕ

abbrev pub undiscovered : Discovery
undiscovered = record { bound = []; calls = 0 }

unfoldable pub no_session : Text → Bool
no_session [] = true
no_session (c ∷ cs) = false

-- The answer of the daemon to a call: whether the context is cancelled, the session, and which call.
module _ (native_session_id : Text → Option Text) (bind_session : Bool → Text → ℕ → Bool)
    (pre_launch : List Text) where
  -- A session of a new file.
  unfoldable pub bind_native : Bool → Discovery → Text → Discovery
  unfolding no_session
  bind_native cancelled d native =
      let tried = record d { calls = d.calls + 1 } in
      if no_session native
      then d
      else if has_key native d.bound
      then d
      else if bind_session cancelled native d.calls
      then record tried { bound = native ∷ d.bound }
      else tried

  unfoldable pub bind_path : Bool → Discovery → Text → Discovery
  bind_path cancelled d path =
      if has_key path pre_launch
      then d
      else elim (native_session_id path) [ none ↦ d | some native ↦ bind_native cancelled d native ]

  unfoldable pub scan : Bool → Discovery → List Text → Discovery
  scan cancelled d [] = d
  scan cancelled d (path ∷ paths) = scan cancelled (bind_path cancelled d path) paths

  unfoldable pub scan_passes : Discovery → List (List Text) → Discovery
  scan_passes d [] = d
  scan_passes d (paths ∷ passes) = scan_passes (scan false d paths) passes

  -- The passes while the child runs, and the final one, whose context is cancelled.
  unfoldable pub discover_and_bind : List (List Text) → List Text → Discovery
  discover_and_bind passes last = scan true (scan_passes undiscovered passes) last
