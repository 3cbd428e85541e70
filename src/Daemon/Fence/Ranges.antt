-- ===== src/Daemon/Fence/Ranges.antt =====
-- daemon/consent_fence.go: `seqSet`, a set of sequences as ascending ranges. `sort.Search` on the
-- ascending ends gives the first range that reaches a sequence.
pub mod Sets
pub mod Count
pub mod Apart
use gasworks.Prelude.{ℕ, ◌≤◌, ◌<◌, Bool, true, false, not, List, [], ◌∷◌, if◌then◌else◌}
use gasworks.Word.{max_int64, slt, sle, add64, sub64}

-- An inclusive range of int64.
pub record SeqRange : Type 0 where
  pub first : ℕ
  pub last : ℕ

-- max and min on int64.
abbrev pub smax : ℕ → ℕ → ℕ
smax a b = if slt a b then b else a

abbrev pub smin : ℕ → ℕ → ℕ
smin a b = if slt b a then b else a

-- xs[sort.Search(len(xs), ...):]
unfoldable pub from_first {ℓ} : {A : Type ℓ} → (A → Bool) → List A → List A
from_first p [] = []
from_first p (x ∷ xs) = if p x then x ∷ xs else from_first p xs

-- The loop of `add`, with the range that it has merged so far and the count of new sequences.
unfoldable pub add_loop : ℕ → ℕ → SeqRange → ℕ → List SeqRange → List SeqRange × ℕ
add_loop first last merged added [] = (merged ∷ [], added)
add_loop first last merged added (r ∷ rs) =
    let below = add_loop first last merged added rs in
    let above = add_loop first last r added rs in
    let lo = smax r.first first in
    let hi = smin r.last last in
    let counted = if sle lo hi then sub64 added (add64 (sub64 hi lo) 1) else added in
    let joined =
      add_loop first last
        (record { first = smin merged.first r.first; last = smax merged.last r.last }) counted rs in
    if slt (add64 r.last 1) merged.first
    then (r ∷ below.0, below.1)
    else if slt (add64 merged.last 1) r.first
    then (merged ∷ above.0, above.1)
    else joined

-- The new set, and how many sequences were not in the old one.
unfoldable pub add : List SeqRange → ℕ → ℕ → List SeqRange × ℕ
add s first last =
    if slt last first
    then (s, 0)
    else add_loop first last (record { first = first; last = last }) (add64 (sub64 last first) 1) s

abbrev pub reached : ℕ → List SeqRange → Bool
reached q [] = false
reached q (r ∷ rs) = sle r.first q

unfoldable pub contains : List SeqRange → ℕ → Bool
unfolding from_first
contains s q = reached q (from_first (λ r. sle q r.last) s)

abbrev pub cut_head : ℕ → List SeqRange → List SeqRange
cut_head through [] = []
cut_head through (r ∷ rs) =
    if sle r.first through then record r { first = add64 through 1 } ∷ rs else r ∷ rs

unfoldable pub prune : List SeqRange → ℕ → List SeqRange
unfolding from_first
prune s through = cut_head through (from_first (λ r. slt through r.last) s)

-- Ranges above `low`, one behind the other, and below the last int64.
abbrev pub Ascending : ℕ → List SeqRange → Type 0
Ascending low [] = Unit {0}
Ascending low (r ∷ rs) =
    (low < r.first) × (r.first ≤ r.last) × (r.last < max_int64) × Ascending r.last rs
