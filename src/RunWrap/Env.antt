-- ===== src/RunWrap/Env.antt =====
-- runwrap/drain.go: the environment of a child, KEY=VALUE texts, of which the wrapper touches one.
pub mod Lookup
use gasworks.Prelude.{
  ℕ, Bool, true, false, List, [], ◌∷◌, ◌++◌, if◌then◌else◌, codes, drop, length, has_prefix,
}

abbrev pub Text : Type 0
Text = List ℕ

abbrev pub run_id_env_var : Text
run_id_env_var = codes "GASWORKS_RUN_ID"

-- key + "="
abbrev pub assignment : Text → Text
assignment key = key ++ 61 ∷ []

-- The loop of `withoutRunID`.
unfoldable pub without_key : Text → List Text → List Text
without_key prefix [] = []
without_key prefix (kv ∷ env) =
    let rest = without_key prefix env in if has_prefix kv prefix then rest else kv ∷ rest

unfoldable pub without_run_id : List Text → List Text
without_run_id env = without_key (assignment run_id_env_var) env

unfoldable pub with_run_id : List Text → Text → List Text
with_run_id env run_id = without_run_id env ++ (assignment run_id_env_var ++ run_id) ∷ []

-- `envLookup`; an absent key reads as the empty text.
unfoldable pub env_lookup : List Text → Text → Text
env_lookup [] key = []
env_lookup (kv ∷ env) key =
    let rest = env_lookup env key in
    if has_prefix kv (assignment key) then drop (length (assignment key)) kv else rest
