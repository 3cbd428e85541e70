-- ===== src/Prelude/Maps.antt =====
-- Go's maps as association lists: a read gives the value of the first entry with the key, and a write
-- replaces it or adds an entry at the end.
use mathlib.Core.Path.{◌≡◌, refl}
use mathlib.Core.Logic.{◌↔◌}
use mathlib.Core.Bool.{Bool, true}
use mathlib.Core.Option.{Option, none, some}
use mathlib.Core.List.{List, [], ◌∷◌}
use native.Mathlib.Omega.{arith}
use gasworks.Prelude.Tests.{if◌then◌else◌}

module _ {ℓ κ} {K : Type ℓ} {V : Type κ} (same : K → K → Bool) where
  abbrev pub find : K → List (K × V) → Option V
  find k [] = none
  find k ((j, v) ∷ m) = if same j k then some v else find k m

  abbrev pub put : K → V → List (K × V) → List (K × V)
  put k v [] = (k, v) ∷ []
  put k v ((j, w) ∷ m) = if same j k then (k, v) ∷ m else (j, w) ∷ put k v m

  pub find-put :
      ((a b : K) → (same a b ≡ true) ↔ (a ≡ b))
      → (k j : K) (v : V) (m : List (K × V))
      → find j (put k v m) ≡ (if same k j then some v else find j m)
  find-put iff k j v [] = refl
  find-put iff k j v ((i, w) ∷ m) = ground (arith, iff i k, iff k j, iff i j, find-put iff k j v m)
