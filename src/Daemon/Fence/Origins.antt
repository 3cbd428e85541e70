-- ===== src/Daemon/Fence/Origins.antt =====
-- daemon/consent_fence.go: `originIndex`, which consent the watcher's sequences were captured under.
pub mod Bounds
use gasworks.Prelude.{
  ℕ, ◌<◌, ◌≤◌, Bool, true, false, ◌&&◌, List, [], ◌∷◌, ◌++◌, Option, none, some, if◌then◌else◌,
  ◌==◌, list_eq, All,
}
use gasworks.Word.{slt, sle, add64}
use gasworks.Daemon.Registry.{Text}
use gasworks.Daemon.Consent.{Policy, allows}
use gasworks.Daemon.Fence.Ranges.{from_first}

pub record ConsentOrigin : Type 0 where
  pub root : Text
  pub generation : ℕ

abbrev pub same_origin : ConsentOrigin → ConsentOrigin → Bool
same_origin a b = list_eq a.root b.root && a.generation == b.generation

unfoldable pub allowed_by : ConsentOrigin → Policy → Bool
allowed_by o p = allows p o.root o.generation

pub record OriginRun : Type 0 where
  pub first : ℕ
  pub last : ℕ
  pub origin : ConsentOrigin

-- n == 0 || x.runs[n-1].last < first
ends_before : List OriginRun → ℕ → Bool
ends_before [] first = true
ends_before (r ∷ []) first = slt r.last first
ends_before (r ∷ s ∷ rs) first = ends_before (s ∷ rs) first

-- The last run ends right before `first`, under the same consent.
touches : List OriginRun → ℕ → ConsentOrigin → Bool
touches [] first o = false
touches (r ∷ []) first o = add64 r.last 1 == first && same_origin r.origin o
touches (r ∷ s ∷ rs) first o = touches (s ∷ rs) first o

extend_last : List OriginRun → ℕ → List OriginRun
extend_last [] last = []
extend_last (r ∷ []) last = record r { last = last } ∷ []
extend_last (r ∷ s ∷ rs) last = r ∷ extend_last (s ∷ rs) last

-- At the first run that reaches `first`, unless it overlaps.
insert_run : List OriginRun → OriginRun → List OriginRun
insert_run [] n = n ∷ []
insert_run (r ∷ rs) n =
    let rest = insert_run rs n in
    if sle n.first r.last then if sle r.first n.last then r ∷ rs else n ∷ r ∷ rs else r ∷ rest

unfoldable pub add_run : List OriginRun → ℕ → ℕ → ConsentOrigin → List OriginRun
unfolding ends_before touches extend_last insert_run
add_run runs first last o =
    let n : OriginRun = record { first = first; last = last; origin = o } in
    if slt last first
    then runs
    else if ends_before runs first
    then if touches runs first o then extend_last runs last else runs ++ n ∷ []
    else insert_run runs n

abbrev origin_at : ℕ → List OriginRun → Option ConsentOrigin
origin_at q [] = none
origin_at q (r ∷ rs) = if sle r.first q then some r.origin else none

unfoldable pub lookup_origin : List OriginRun → ℕ → Option ConsentOrigin
unfolding from_first
lookup_origin runs q = origin_at q (from_first (λ r. sle q r.last) runs)

abbrev cut_run : ℕ → List OriginRun → List OriginRun
cut_run through [] = []
cut_run through (r ∷ rs) =
    if sle r.first through then record r { first = add64 through 1 } ∷ rs else r ∷ rs

unfoldable pub prune_origins : List OriginRun → ℕ → List OriginRun
unfolding from_first
prune_origins runs through = cut_run through (from_first (λ r. slt through r.last) runs)

-- Positive sequences up to `top`.
abbrev pub IsBounded : ℕ → List OriginRun → Type 0
IsBounded top = All (λ r. (0 < r.first) × (r.first ≤ top) × (r.last ≤ top))
