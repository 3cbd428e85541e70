-- ===== src/Daemon/Fence/Ranges/Sets.antt =====
-- The ranges as the set that they stand for.
use gasworks.Prelude.{
  ℕ, ◌+◌, ◌≤◌, ◌<◌, ◌≡◌, refl, Bool, true, false, ◌&&◌, ◌||◌, List, [], ◌∷◌, if◌then◌else◌, arith,
  leb, ltb, if-intro, ◌∙◌,
}
use gasworks.Word.{max_int64, slt, sle, add64, sub64}
use gasworks.Daemon.Fence.Ranges.{
  SeqRange, smax, smin, from_first, add_loop, add, contains, prune, Ascending,
}

-- Whether the range holds the sequence.
abbrev pub within : ℕ → ℕ → ℕ → Bool
within first last q = leb first q && leb q last

pub Ascending-lower :
    (low low' : ℕ) (s : List SeqRange) → low' ≤ low → Ascending low s → Ascending low' s
Ascending-lower low low' [] h a = tt
Ascending-lower low low' (r ∷ rs) h a = (omega (arith, a.0), a.1, a.2, a.3)

-- What lies at or below all ranges is in none.
pub contains_below :
    (low q : ℕ) (s : List SeqRange)
    → q < max_int64
    → q ≤ low
    → Ascending low s
    → contains s q ≡ false
unfolding contains from_first
contains_below low q [] hq h a = refl
contains_below low q (r ∷ rs) hq h a = ground (arith, a.0, a.1, a.2)

pub contains-cons :
    (low q : ℕ) (r : SeqRange) (rs : List SeqRange)
    → q < max_int64
    → Ascending low (r ∷ rs)
    → contains (r ∷ rs) q ≡ (within r.first r.last q || contains rs q)
unfolding contains from_first
contains-cons low q r rs hq a = ground (arith, a.0, a.1, a.2, contains_below r.last q rs hq)

-- The range that covers both.
abbrev pub hull : SeqRange → SeqRange → SeqRange
hull m r = record { first = smin m.first r.first; last = smax m.last r.last }

-- The sequences of [first, last] that the range holds.
abbrev pub overlap : ℕ → ℕ → SeqRange → ℕ
overlap first last r =
    let lo = smax r.first first in
    let hi = smin r.last last in if sle lo hi then add64 (sub64 hi lo) 1 else 0

-- The three ways of a round.
pub add_loop_rule {κ} :
    (P : List SeqRange × ℕ → Type κ) (first last added : ℕ) (m r : SeqRange) (rs : List SeqRange)
    → (slt (add64 r.last 1) m.first ≡ true
        → P (r ∷ (add_loop first last m added rs).0, (add_loop first last m added rs).1))
    → (slt (add64 m.last 1) r.first ≡ true
        → P (m ∷ (add_loop first last r added rs).0, (add_loop first last r added rs).1))
    → (slt (add64 r.last 1) m.first ≡ false
        → slt (add64 m.last 1) r.first ≡ false
        → P (
            add_loop first last
              (hull m r)
              (if sle (smax r.first first) (smin r.last last)
                then sub64 added (add64 (sub64 (smin r.last last) (smax r.first first)) 1)
                else added)
              rs))
    → P (add_loop first last m added (r ∷ rs))
unfolding add_loop
add_loop_rule P first last added m r rs below above joined =
    if-intro P (slt (add64 r.last 1) m.first) below
      λ h. if-intro P (slt (add64 m.last 1) r.first) above (joined h)

-- A range that is not empty and ends below the last int64.
abbrev pub IsRange : ℕ → ℕ → Type 0
IsRange first last = (first ≤ last) × (last < max_int64)

pub hull-IsRange :
    (low : ℕ) (m r : SeqRange)
    → low < m.first
    → low < r.first
    → IsRange m.first m.last
    → IsRange r.first r.last
    → (low < (hull m r).first)
      × ((hull m r).first ≤ (hull m r).last)
      × ((hull m r).last < max_int64)
hull-IsRange low m r hm hr im ir = (
  ground (arith, im.0, im.1, ir.0, ir.1),
  ground (arith, im.0, im.1, ir.0, ir.1),
  ground (arith, im.0, im.1, ir.0, ir.1),
)

within-hull :
    (m r : SeqRange) (q : ℕ)
    → q < max_int64
    → IsRange m.first m.last
    → IsRange r.first r.last
    → slt (add64 r.last 1) m.first ≡ false
    → slt (add64 m.last 1) r.first ≡ false
    → within (hull m r).first (hull m r).last q
      ≡ (within m.first m.last q || within r.first r.last q)
within-hull m r q hq im ir h k = ground (arith, im.0, im.1, ir.0, ir.1)

pub below_next : (a b : ℕ) → a < max_int64 → b < max_int64 → slt (add64 a 1) b ≡ true → a + 1 < b
below_next a b ha hb h = ground arith

module _ (first last : ℕ) where
  add_loop-Ascending :
      (low added : ℕ) (m : SeqRange) (s : List SeqRange)
      → low < m.first
      → IsRange m.first m.last
      → Ascending low s
      → Ascending low (add_loop first last m added s).0
  unfolding add_loop
  add_loop-Ascending low added m [] hl hm a = (hl, hm.0, hm.1, tt)
  add_loop-Ascending low added m (r ∷ rs) hl hm a =
      let up = Ascending-lower r.last low rs (omega (arith, a.0, a.1)) a.3 in
      add_loop_rule (λ x. Ascending low x.0) first last added m r rs
        (λ h.
          let gap = below_next r.last m.first a.2 (omega (arith, hm.0, hm.1)) h in
          (a.0, a.1, a.2, add_loop-Ascending r.last added m rs (omega (arith, gap)) hm a.3))
        (λ h.
          let gap = below_next m.last r.first hm.1 (omega (arith, a.1, a.2)) h in
          (
            hl,
            hm.0,
            hm.1,
            add_loop-Ascending m.last added r rs (omega (arith, gap)) (a.1, a.2)
                (Ascending-lower r.last m.last rs (omega (arith, gap, a.1)) a.3),
          ))
        (λ h k.
          let joined = hull-IsRange low m r hl a.0 hm (a.1, a.2) in
          add_loop-Ascending low _ (hull m r) rs joined.0 (joined.1, joined.2) up)

  contains-add_loop :
      (low added q : ℕ) (m : SeqRange) (s : List SeqRange)
      → q < max_int64
      → low < m.first
      → IsRange m.first m.last
      → Ascending low s
      → contains (add_loop first last m added s).0 q ≡ (within m.first m.last q || contains s q)
  unfolding add_loop
  contains-add_loop low added q m [] hq hl hm a = contains-cons low q m [] hq (hl, hm.0, hm.1, tt)
  contains-add_loop low added q m (r ∷ rs) hq hl hm a =
      let up = Ascending-lower r.last low rs (omega (arith, a.0, a.1)) a.3 in
      rw (contains-cons low q r rs hq a) (
        add_loop_rule
          (λ x.
            contains x.0 q
            ≡ (within m.first m.last q || (within r.first r.last q || contains rs q)))
          first last added m r rs
          (λ h.
            let gap = below_next r.last m.first a.2 (omega (arith, hm.0, hm.1)) h in
            let rest = add_loop-Ascending r.last added m rs (omega (arith, gap)) hm a.3 in
            ground (
              arith,
              contains-cons low q r (add_loop first last m added rs).0 hq (a.0, a.1, a.2, rest),
              contains-add_loop r.last added q m rs hq (omega (arith, gap)) hm a.3,
            ))
          (λ h.
            let gap = below_next m.last r.first hm.1 (omega (arith, a.1, a.2)) h in
            let tail = Ascending-lower r.last m.last rs (omega (arith, gap, a.1)) a.3 in
            let rest = add_loop-Ascending m.last added r rs (omega (arith, gap)) (a.1, a.2) tail in
            ground (
              arith,
              contains-cons low q m (add_loop first last r added rs).0 hq (hl, hm.0, hm.1, rest),
              contains-add_loop m.last added q r rs hq (omega (arith, gap)) (a.1, a.2) tail,
            ))
          (λ h k.
            let joined = hull-IsRange low m r hl a.0 hm (a.1, a.2) in
            contains-add_loop low _ q (hull m r) rs hq joined.0 (joined.1, joined.2) up
            ∙ rw (within-hull m r q hq hm (a.1, a.2) h k) (ground arith)))

-- The ranges that an `add` leaves are ascending, and hold what they held and the range added.
pub add-Ascending :
    (s : List SeqRange) (first last : ℕ)
    → 0 < first
    → first < max_int64
    → last < max_int64
    → Ascending 0 s
    → Ascending 0 (add s first last).0
unfolding add
add-Ascending s first last hf hx hl a =
    if-intro {A = List SeqRange × ℕ} (λ x. Ascending 0 x.0) (slt last first) (λ h. a)
      λ h.
        add_loop-Ascending first last 0 _ (record { first = first; last = last }) s hf
          (ground arith, hl) a

-- The union of the two sets.
pub contains-add :
    (s : List SeqRange) (first last q : ℕ)
    → 0 < first
    → first < max_int64
    → last < max_int64
    → q < max_int64
    → Ascending 0 s
    → contains (add s first last).0 q ≡ (within first last q || contains s q)
unfolding add
contains-add s first last q hf hx hl hq a =
    if-intro {A = List SeqRange × ℕ} (λ x. contains x.0 q ≡ (within first last q || contains s q))
      (slt last first) (λ h. ground arith)
      λ h.
        contains-add_loop first last 0 _ q (record { first = first; last = last }) s hq hf
          (ground arith, hl) a

-- Pruning leaves what is above.
pub prune-Ascending :
    (low through : ℕ) (s : List SeqRange)
    → through < max_int64
    → Ascending low s
    → Ascending low (prune s through)
unfolding prune from_first
prune-Ascending low through [] ht a = tt
prune-Ascending low through (r ∷ rs) ht a = ground (
  arith,
  a.0,
  a.1,
  a.2,
  a.3,
  prune-Ascending low through rs ht (Ascending-lower r.last low rs (omega (arith, a.0, a.1)) a.3),
)

pub contains-prune :
    (low through q : ℕ) (s : List SeqRange)
    → through < max_int64
    → q < max_int64
    → Ascending low s
    → contains (prune s through) q ≡ (ltb through q && contains s q)
unfolding prune from_first contains
contains-prune low through q [] ht hq a = ground arith
contains-prune low through q (r ∷ rs) ht hq a =
    ground (arith, a.0, a.1, a.2, contains-prune r.last through q rs ht hq a.3)
