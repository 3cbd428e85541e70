-- ===== src/Daemon/Fence/Ranges/Apart.antt =====
-- The ranges of a set are maximal: two of them neither overlap nor touch.
use gasworks.Prelude.{ℕ, ◌+◌, ◌≤◌, ◌<◌, ◌≡◌, ◌||◌, List, [], ◌∷◌, arith, if-intro}
use gasworks.Word.{max_int64, slt}
use gasworks.Daemon.Fence.Ranges.{SeqRange, add_loop, add, contains, Ascending}
use gasworks.Daemon.Fence.Ranges.Sets.{
  within, hull, IsRange, hull-IsRange, add_loop_rule, below_next, contains-add,
}

-- Ranges above `low`, with a sequence that is in neither between two of them.
abbrev pub Apart : ℕ → List SeqRange → Type 0
Apart low [] = Unit {0}
Apart low (r ∷ rs) =
    (low < r.first) × (r.first ≤ r.last) × (r.last < max_int64) × Apart (r.last + 1) rs

Apart-lower : (low low' : ℕ) (s : List SeqRange) → low' ≤ low → Apart low s → Apart low' s
Apart-lower low low' [] h a = tt
Apart-lower low low' (r ∷ rs) h a = (omega (arith, a.0), a.1, a.2, a.3)

Apart-Ascending : (low : ℕ) (s : List SeqRange) → Apart low s → Ascending low s
Apart-Ascending low [] a = tt
Apart-Ascending low (r ∷ rs) a = (
  a.0,
  a.1,
  a.2,
  Apart-Ascending r.last rs (Apart-lower (r.last + 1) r.last rs (omega arith) a.3),
)

add_loop-Apart :
    (first last low added : ℕ) (m : SeqRange) (s : List SeqRange)
    → low < m.first
    → IsRange m.first m.last
    → Apart low s
    → Apart low (add_loop first last m added s).0
unfolding add_loop
add_loop-Apart first last low added m [] hl hm a = (hl, hm.0, hm.1, tt)
add_loop-Apart first last low added m (r ∷ rs) hl hm a =
    add_loop_rule (λ x. Apart low x.0) first last added m r rs
      (λ h.
        let gap = below_next r.last m.first a.2 (omega (arith, hm.0, hm.1)) h in
        (
          a.0,
          a.1,
          a.2,
          add_loop-Apart first last (r.last + 1) added m rs (omega (arith, gap)) hm a.3,
        ))
      (λ h.
        let gap = below_next m.last r.first hm.1 (omega (arith, a.1, a.2)) h in
        (
          hl,
          hm.0,
          hm.1,
          add_loop-Apart first last (m.last + 1) added r rs (omega (arith, gap)) (a.1, a.2)
              (Apart-lower (r.last + 1) (m.last + 1) rs (omega (arith, gap, a.1)) a.3),
        ))
      (λ h k.
        let joined = hull-IsRange low m r hl a.0 hm (a.1, a.2) in
        add_loop-Apart first last low _ (hull m r) rs joined.0 (joined.1, joined.2)
          (Apart-lower (r.last + 1) low rs (omega (arith, a.0, a.1)) a.3))

-- Adding a positive range below the last int64 to ascending ranges that neither overlap nor touch
-- gives such ranges again, and they hold exactly the sequences of the old ones and of the range
-- added.
pub add-Apart :
    (s : List SeqRange) (first last : ℕ)
    → 0 < first
    → first < max_int64
    → last < max_int64
    → Apart 0 s
    → Apart 0 (add s first last).0
      × ((q : ℕ)
          → q < max_int64
          → contains (add s first last).0 q ≡ (within first last q || contains s q))
unfolding add
add-Apart s first last hf hx hl a = (
  if-intro {A = List SeqRange × ℕ} (λ x. Apart 0 x.0) (slt last first) (λ h. a)
      λ h.
        add_loop-Apart first last 0 _ (record { first = first; last = last }) s hf
          (ground arith, hl) a,
  λ q hq. contains-add s first last q hf hx hl hq (Apart-Ascending 0 s a),
)
