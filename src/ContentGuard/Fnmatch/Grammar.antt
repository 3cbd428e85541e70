-- ===== src/ContentGuard/Fnmatch/Grammar.antt =====
-- What a glob of contentguard/fnmatch.go means, with no search order in it: its first item, and the
-- names that match it. A class is read as `matchClass` reads it, byte by byte. It is not Python's
-- reading where a caret stands first (a member there, a negation here), where a dash follows a range
-- (a member there, a second range here), where the end of a range is below its start (no member
-- there, the start here), and on bytes above 0x7f.
use gasworks.Prelude.{
  ℕ, ◌≡◌, refl, ◌<◌, Bool, true, false, not, ◌&&◌, ◌||◌, List, [], ◌∷◌, Option, none, some,
  if◌then◌else◌, ◌==◌, leb, length, arith, inl, inr, Option-cases, ◌⊎◌, subst, drop,
}
use gasworks.ContentGuard.Fnmatch.{Bytes, is_some}

abbrev pub Spans : Type 0
Spans = List (ℕ × ℕ)

abbrev pub in_spans : Spans → ℕ → Bool
in_spans [] c = false
in_spans ((lo, hi) ∷ spans) c = in_spans spans c || (leb lo c && leb c hi)

-- A test of one byte.
pub data Test : Type 0 where
  any_byte : Test
  literal : ℕ → Test
  class : Bool → Spans → Test

abbrev pub flip : Bool → Bool → Bool
flip true b = not b
flip false b = b

abbrev pub accepts : Test → ℕ → Bool
accepts any_byte c = true
accepts (literal b) c = b == c
accepts (class negate spans) c = flip negate (in_spans spans c)

-- The members of a class up to its closing bracket, and the pattern behind it.
unfoldable pub spans_of : Spans → Option ℕ → Bytes → Option (Spans × Bytes)
spans_of spans prev [] = none
spans_of spans prev (c ∷ []) = if c == b']' && is_some prev then some (spans, []) else none
spans_of spans none (c ∷ d ∷ p) = spans_of ((c, c) ∷ spans) (some c) (d ∷ p)
spans_of spans (some b) (c ∷ d ∷ p) =
    let range = spans_of ((b, d) ∷ spans) (some d) p in
    let member = spans_of ((c, c) ∷ spans) (some c) (d ∷ p) in
    if c == b']'
    then some (spans, d ∷ p)
    else if c == b'-' && not (d == b']')
    then range
    else member

unfoldable pub class_with : Bool → Option (Spans × Bytes) → Option (Test × Bytes)
class_with negate none = none
class_with negate (some (spans, q)) = some (class negate spans, q)

unfoldable pub class_of : Bytes → Option (Test × Bytes)
unfolding spans_of class_with
class_of [] = none
class_of (c ∷ p) =
    if c == b'!' || c == b'^'
    then class_with true (spans_of [] none p)
    else class_with false (spans_of [] none (c ∷ p))

-- What a pattern begins with.
pub data Head : Type 0 where
  at_end : Head
  at_star : Bytes → Head
  at_test : Test → Bytes → Head

unfoldable pub head : Bytes → Head
unfolding class_of
head [] = at_end
head (b ∷ p) =
    if b == b'*'
    then at_star p
    else if b == b'?'
    then at_test any_byte p
    else if b == b'['
    then elim (class_of p) [ some (t, q) ↦ at_test t q | none ↦ at_test (literal b'[') p ]
    else at_test (literal b) p

spans_of-shorter :
    (spans : Spans) (prev : Option ℕ) (p q : Bytes) (found : Spans)
    → spans_of spans prev p ≡ some (found, q)
    → length q < length p
unfolding spans_of
spans_of-shorter spans prev [] q found h = cc
spans_of-shorter spans prev (c ∷ []) q found h = ground arith
spans_of-shorter spans none (c ∷ d ∷ p) q found h =
    omega (arith, spans_of-shorter ((c, c) ∷ spans) (some c) (d ∷ p) q found h)
spans_of-shorter spans (some b) (c ∷ d ∷ p) q found h = ground (
  arith,
  spans_of-shorter ((c, c) ∷ spans) (some c) (d ∷ p) q found,
  spans_of-shorter ((b, d) ∷ spans) (some d) p q found,
)

class_with-shorter :
    (negate : Bool) (r : Option (Spans × Bytes)) (t : Test) (q : Bytes) (n : ℕ)
    → ((found : Spans) → r ≡ some (found, q) → length q < n)
    → class_with negate r ≡ some (t, q)
    → length q < n
unfolding class_with
class_with-shorter negate none t q n ih h = cc
class_with-shorter negate (some (found, q')) t q n ih h = ih found (cc)

class_of-shorter : (p q : Bytes) (t : Test) → class_of p ≡ some (t, q) → length q < length p
unfolding class_of
class_of-shorter [] q t h = cc
class_of-shorter (c ∷ p) q t h = ground (
  arith,
  class_with-shorter true (spans_of [] none p) t q (length p)
      (λ (found : Spans). spans_of-shorter [] none p q found),
  class_with-shorter false (spans_of [] none (c ∷ p)) t q (length (c ∷ p))
      (λ (found : Spans). spans_of-shorter [] none (c ∷ p) q found),
)

pub test-shorter : (p q : Bytes) (t : Test) → head p ≡ at_test t q → length q < length p
unfolding head
test-shorter [] q t h = cc
test-shorter (b ∷ p) q t h = elim (Option-cases (class_of p)) [
  | inl open_end ↦ ground arith
  | inr ((t', q'), closed) ↦ ground (arith, class_of-shorter p q' t')
]

pub data Matches : Bytes → Bytes → Type 0 where
  empty : {p : Bytes} → head p ≡ at_end → Matches p []
  byte :
      {p q : Bytes} {t : Test} {c : ℕ} {s : Bytes}
      → head p ≡ at_test t q
      → accepts t c ≡ true
      → Matches q s
      → Matches p (c ∷ s)
  leave : {p q s : Bytes} → head p ≡ at_star q → Matches q s → Matches p s
  take : {p q : Bytes} {c : ℕ} {s : Bytes} → head p ≡ at_star q → Matches p s → Matches p (c ∷ s)

module _ {p q : Bytes} {t : Test} (h : head p ≡ at_test t q) where
  pub byte_inv : {c : ℕ} {s : Bytes} → Matches p (c ∷ s) → (accepts t c ≡ true) × Matches q s
  byte_inv {c} {s} (byte {q = q'} {t = t'} h' a d) =
      let same_test : t' ≡ t = cc in
      let same_rest : q' ≡ q = cc in
      (subst (λ u. accepts u c ≡ true) same_test a, subst (λ r. Matches r s) same_rest d)
  byte_inv (leave h' d) = cc
  byte_inv (take h' d) = cc

  pub byte_needed : ¬ Matches p []
  byte_needed (empty h') = cc
  byte_needed (leave h' d) = cc

module _ {p q : Bytes} (h : head p ≡ at_star q) where
  pub star_inv : {s : Bytes} → Matches p s → Matches q s ⊎ Matches p (drop 1 s)
  star_inv (empty h') = cc
  star_inv (byte h' a d) = cc
  star_inv {s} (leave {q = q'} h' d) =
      let same : q' ≡ q = cc in inl (subst (λ r. Matches r s) same d)
  star_inv (take h' d) = inr d

  pub star_end : Matches p [] → Matches q []
  star_end (empty h') = cc
  star_end (leave {q = q'} h' d) = let same : q' ≡ q = cc in subst (λ r. Matches r []) same d

  -- A star takes nothing, or a byte.
  pub star_intro : (s : Bytes) → Matches q s ⊎ Matches p (drop 1 s) → Matches p s
  star_intro s (inl d) = leave h d
  star_intro [] (inr d) = d
  star_intro (c ∷ s) (inr d) = take h d

-- What a star matches depends on what is behind it alone.
pub same_star :
    {o p q s : Bytes} → head o ≡ at_star q → head p ≡ at_star q → Matches o s → Matches p s
same_star ho hp (empty h) = cc
same_star ho hp (byte h a d) = cc
same_star {q} {s} ho hp (leave {q = q'} h d) =
    let same : q' ≡ q = cc in leave hp (subst (λ r. Matches r s) same d)
same_star ho hp (take h d) = take hp (same_star ho hp d)

pub head-star : (q : Bytes) → head (b'*' ∷ q) ≡ at_star q
unfolding head
head-star q = refl

-- Two stars in a row are one.
pub two_stars :
    {o p q s : Bytes} → head o ≡ at_star p → head p ≡ at_star q → Matches o s → Matches p s
two_stars ho hp (empty h) = cc
two_stars ho hp (byte h a d) = cc
two_stars {p} {s} ho hp (leave {q = q'} h d) =
    let same : q' ≡ p = cc in subst (λ r. Matches r s) same d
two_stars ho hp (take h d) = take hp (two_stars ho hp d)

-- A star in front of a test: it can take the byte that the test took.
pub star_skips :
    {o p q : Bytes} {t : Test} (c : ℕ) (s : Bytes)
    → head o ≡ at_star p
    → head p ≡ at_test t q
    → Matches o (c ∷ s)
    → Matches (b'*' ∷ q) s
star_skips {q} c [] ho hp d = elim (star_inv ho d) [
  | inl now ↦ leave (head-star q) (byte_inv hp now).1
  | inr later ↦ absurd (byte_needed hp (star_end ho later))
]
star_skips {q} c (x ∷ s) ho hp d = elim (star_inv ho d) [
  | inl now ↦ leave (head-star q) (byte_inv hp now).1
  | inr later ↦ take (head-star q) (star_skips x s ho hp later)
]

pub end_needed : (c : ℕ) (s : Bytes) → ¬ Matches [] (c ∷ s)
unfolding head
end_needed c s (byte h a d) = cc
end_needed c s (leave h d) = cc
end_needed c s (take h d) = cc
