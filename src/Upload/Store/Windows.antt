-- ===== src/Upload/Store/Windows.antt =====
-- The part of a run of records that a shorter read gives.
use gasworks.Prelude.{
  ℕ, zero, suc, ◌+◌, ◌-◌, ◌≤◌, ◌<◌, ◌≡◌, refl, sym, ◌∙◌, inl, inr, true, ◌||◌, List, [], ◌∷◌, ◌++◌,
  if◌then◌else◌, arith, leb, ltb, length, take, All, Bool-cases,
}
use gasworks.Word.{slt, add64, max_int64, IsNat63}
use gasworks.Spool.Frame.{Frame}
use gasworks.Upload.Batch.{Record, verify_contiguous}
use gasworks.Upload.Store.{window}

-- Up to a sequence.
unfoldable pub keep : ℕ → List Record → List Record
keep m [] = []
keep m (r ∷ rs) = let rest = keep m rs in if leb r.sequence m then r ∷ rest else rest

pub keep-append : (m : ℕ) (rs ss : List Record) → keep m (rs ++ ss) ≡ keep m rs ++ keep m ss
unfolding keep
keep-append m [] ss = refl
keep-append m (r ∷ rs) ss = ground (arith, keep-append m rs ss)

-- A record from `low` to `last`.
abbrev pub Between : ℕ → ℕ → Record → Type 0
Between low last r = (low ≤ r.sequence) × (r.sequence ≤ last)

pub keep-none :
    (m low last : ℕ) (rs : List Record) → m < low → All (Between low last) rs → keep m rs ≡ []
unfolding keep
keep-none m low last [] lt h = refl
keep-none m low last (r ∷ rs) lt h = ground (arith, keep-none m low last rs lt h.1, h.0.0)

keep_beyond :
    (m first last : ℕ) (rs : List Record)
    → m < first
    → last ≤ max_int64
    → All (Between 0 last) rs
    → verify_contiguous rs first ≡ true
    → keep m rs ≡ []
unfolding keep verify_contiguous
keep_beyond m first last [] lt hl a h = refl
keep_beyond m first last (r ∷ rs) lt hl a h =
    ground (arith, keep_beyond m (add64 first 1) last rs, a.0.1, a.1)

take_nil : (n : ℕ) → ◌≡◌ {A = List Record} (take n []) []
take_nil zero = refl
take_nil (suc n) = refl

-- Of records in a row, those up to a sequence are the first ones.
pub keep-eq-take :
    (m first last : ℕ) (rs : List Record)
    → m ≤ last
    → last ≤ max_int64
    → first ≤ m + 1
    → All (Between 0 last) rs
    → verify_contiguous rs first ≡ true
    → keep m rs ≡ take (m + 1 - first) rs
unfolding keep verify_contiguous
keep-eq-take m first last [] hm hl hf a h = sym (take_nil (m + 1 - first))
keep-eq-take m first last (r ∷ rs) hm hl hf a h = elim (Bool-cases (ltb m first)) [
  | inl beyond ↦
      let none_left : m + 1 - first ≡ 0 = ground arith in
      keep_beyond m first last (r ∷ rs) (ground arith) hl a h ∙ rw none_left refl
  | inr within ↦
      let some_left : m + 1 - first ≡ suc (m + 1 - add64 first 1) = ground arith in
      rw some_left (ground (arith, keep-eq-take m (add64 first 1) last rs hm hl, a.0.1, a.1))
]

pub contiguous_within :
    (first last : ℕ) (rs : List Record)
    → last ≤ max_int64
    → first ≤ last + 1
    → All (Between 0 last) rs
    → verify_contiguous rs first ≡ true
    → first + length rs ≤ last + 1
unfolding verify_contiguous
contiguous_within first last [] hl hf a h = omega arith
contiguous_within first last (r ∷ rs) hl hf a h =
    ground (arith, contiguous_within (add64 first 1) last rs, a.0.1, a.1)

abbrev pub IsSequenced : ℕ → List Frame → Type 0
IsSequenced low = All (λ f. (low ≤ f.sequence) × IsNat63 f.sequence)

pub window-Between :
    (first last low : ℕ) (fs : List Frame)
    → IsNat63 last
    → IsSequenced low fs
    → All (Between low last) (window first last fs)
unfolding window
window-Between first last low [] hl h = tt
window-Between first last low (f ∷ fs) hl h =
    let ih = window-Between first last low fs hl h.1 in
    elim (Bool-cases (slt f.sequence first || slt last f.sequence)) [
      | inl skipped ↦ rw skipped ih
      | inr taken ↦ rw taken ((h.0.0, ground arith), ih)
    ]

pub window-keep :
    (first m last low : ℕ) (fs : List Frame)
    → m ≤ last
    → IsNat63 last
    → IsSequenced low fs
    → window first m fs ≡ keep m (window first last fs)
unfolding window keep
window-keep first m last low [] hm hl h = refl
window-keep first m last low (f ∷ fs) hm hl h =
    ground (arith, window-keep first m last low fs hm hl h.1, h.0.1)
