-- ===== src/Daemon/Consent.antt =====
-- consent/consent.go: the effective consent policy, as much of it as the observation lane reads.
use gasworks.Prelude.{ℕ, Bool, false, ◌&&◌, List, [], ◌∷◌, if◌then◌else◌, ◌==◌, list_eq}
use gasworks.Daemon.Registry.{Text}

-- rootpolicy.Record
pub record ConsentRecord : Type 0 where
  pub path : Text
  pub generation : ℕ
  pub active : Bool

pub record Policy : Type 0 where
  pub version : ℕ
  pub roots : List ConsentRecord

-- The first record of the root decides.
unfoldable pub allowed_in : List ConsentRecord → Text → ℕ → Bool
allowed_in [] root generation = false
allowed_in (r ∷ rs) root generation =
    if list_eq r.path root
    then r.active && r.generation == generation
    else allowed_in rs root generation

unfoldable pub allows : Policy → Text → ℕ → Bool
allows p root generation = allowed_in p.roots root generation
