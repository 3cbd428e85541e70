-- ===== src/ContentGuard/Fnmatch/Decides.antt =====
-- The loop of globMatch ends within its fuel and decides whether the name matches the pattern.
use gasworks.Prelude.{
  ℕ, zero, suc, ◌+◌, ◌*◌, ◌≡◌, refl, ◌<◌, ◌≤◌, ◌∙◌, Bool, true, false, [], ◌∷◌, Option, none, some,
  if◌then◌else◌, ◌==◌, length, arith, Bool-cases, Option-cases, inl, inr, ◌⊎◌, ◌↔◌, drop,
}
use gasworks.ContentGuard.Fnmatch.{
  Bytes, class_loop, match_class, consume, only_stars, Back, retry, glob_loop, glob_match, fnmatch,
  negated,
}
use gasworks.ContentGuard.Fnmatch.Grammar.{
  Spans, in_spans, Test, any_byte, literal, accepts, spans_of, class_of, class_with, test-shorter,
  at_star, at_test, head, Matches, empty, byte, leave, byte_inv, byte_needed, end_needed, star_inv,
  star_end, star_intro, head-star, same_star, two_stars, star_skips,
}

-- The answer that the spans of a class give for `ch`.
abbrev answer : ℕ → Option (Spans × Bytes) → Option (Bool × Bytes)
answer ch none = none
answer ch (some (spans, q)) = some (in_spans spans ch, q)

class_loop-eq-answer :
    (ch : ℕ) (spans : Spans) (prev : Option ℕ) (p : Bytes)
    → class_loop ch (in_spans spans ch) prev p ≡ answer ch (spans_of spans prev p)
unfolding class_loop spans_of
class_loop-eq-answer ch spans prev [] = refl
class_loop-eq-answer ch spans prev (c ∷ []) = ground arith
class_loop-eq-answer ch spans none (c ∷ d ∷ p) =
    ground (arith, class_loop-eq-answer ch ((c, c) ∷ spans) (some c) (d ∷ p))
class_loop-eq-answer ch spans (some b) (c ∷ d ∷ p) = ground (
  arith,
  class_loop-eq-answer ch ((c, c) ∷ spans) (some c) (d ∷ p),
  class_loop-eq-answer ch ((b, d) ∷ spans) (some d) p,
)

abbrev verdict : ℕ → Option (Test × Bytes) → Option (Bool × Bytes)
verdict ch none = none
verdict ch (some (t, q)) = some (accepts t ch, q)

negated-answer :
    (ch : ℕ) (r : Option (Spans × Bytes)) → negated (answer ch r) ≡ verdict ch (class_with true r)
unfolding negated class_with
negated-answer ch none = refl
negated-answer ch (some (spans, q)) = refl

answer-verdict :
    (ch : ℕ) (r : Option (Spans × Bytes)) → answer ch r ≡ verdict ch (class_with false r)
unfolding class_with
answer-verdict ch none = refl
answer-verdict ch (some (spans, q)) = refl

verdict-if :
    (ch : ℕ) (b : Bool) (x y : Option (Test × Bytes))
    → (if b then verdict ch x else verdict ch y) ≡ verdict ch (if b then x else y)
verdict-if ch true x y = refl
verdict-if ch false x y = refl

match_class-eq-verdict : (ch : ℕ) (p : Bytes) → match_class p ch ≡ verdict ch (class_of p)
unfolding match_class class_of
match_class-eq-verdict ch [] = refl
match_class-eq-verdict ch (c ∷ p) = rw (class_loop-eq-answer ch [] none p) (
    rw (class_loop-eq-answer ch [] none (c ∷ p)) (
      rw (negated-answer ch (spans_of [] none p))
        (rw (answer-verdict ch (spans_of [] none (c ∷ p))) (verdict-if ch _ _ _))))

-- What `consume` does is what the first item of the pattern says.
abbrev Consumes : Bytes → Option Bytes → ℕ → Type 0
Consumes p o c =
    (t : Test) × (q : Bytes) × (head p ≡ at_test t q) × (o ≡ (if accepts t c then some q else none))

consume-Consumes : (b c : ℕ) (p : Bytes) → (b == b'*') ≡ false → Consumes (b ∷ p) (consume b p c) c
unfolding consume head
consume-Consumes b c p h = elim (Bool-cases (b == b'?')) [
  | inl any ↦ (any_byte, p, ground arith, ground arith)
  | inr other ↦ elim (Bool-cases (b == b'[')) [
    | inr plain ↦ (literal b, p, ground arith, ground arith)
    | inl bracket ↦ elim (Option-cases (class_of p)) [
      | inl open_end ↦ (literal b'[', p, ground arith, ground (arith, match_class-eq-verdict c p))
      | inr ((t, q), closed) ↦ (t, q, ground arith, ground (arith, match_class-eq-verdict c p))
    ]
  ]
]

only_stars→Matches : (p : Bytes) → only_stars p ≡ true → Matches p []
unfolding only_stars head
only_stars→Matches [] h = empty refl
only_stars→Matches (b ∷ p) h = elim (Bool-cases (b == b'*')) [
  | inl is_star ↦ leave (rw is_star) (only_stars→Matches p (ground arith))
  | inr other ↦ absurd (ground arith)
]

star_first : (b : ℕ) (p : Bytes) → (b == b'*') ≡ true → head (b ∷ p) ≡ at_star p
unfolding head
star_first b p h = rw h

Matches→only_stars : (p : Bytes) → Matches p [] → only_stars p ≡ true
unfolding only_stars
Matches→only_stars [] d = refl
Matches→only_stars (b ∷ p) d = elim (Bool-cases (b == b'*')) [
  | inl is_star ↦ rw is_star (Matches→only_stars p (star_end (star_first b p is_star) d))
  | inr other ↦
      let (t, q, starts, _) = consume-Consumes b 0 p other in absurd (byte_needed starts d)
]

-- The answer is there, and it is right about `G`.
abbrev pub Answers : Option Bool → Type 0 → Type 0
Answers r G = (b : Bool) × (r ≡ some b) × ((b ≡ true) ↔ G)

Answers-iff : {r : Option Bool} {G H : Type 0} → Answers r G → G ↔ H → Answers r H
Answers-iff (b, e, h) k = (b, e, (λ t. k.0 (h.0 t), λ g. h.1 (k.1 g)))

-- What the saved star can still match: it takes one byte more than the last time.
abbrev Later : Back → Type 0
Later none = ⊥
Later (some (q, s)) = Matches (b'*' ∷ q) (drop 1 s)

-- `m` bounds the name that is left to the saved star, `k` every pattern in play.
abbrev Saved : ℕ → ℕ → Bytes → Back → Type 0
Saved m k s none = Unit {0}
Saved m k s (some (q, bs)) = (length s ≤ length bs) × (length bs ≤ m) × (length q < k)

record Inv (k f m : ℕ) (p s : Bytes) (back : Back) : Type 0 where
  pattern_bound : length p < k
  name_bound : length s ≤ m
  saved : Saved m k s back
  fuel : m * k + length p < f
  -- Giving up the saved star for one in front of `p` loses nothing.
  covered : Later back → Matches (b'*' ∷ p) s

star_split : (q s : Bytes) → (Matches q s ⊎ Matches (b'*' ∷ q) (drop 1 s)) ↔ Matches (b'*' ∷ q) s
star_split q s = (star_intro (head-star q) s, star_inv (head-star q))

-- Any round from which the loop goes on.
abbrev Decided : ℕ → ℕ → Type 0
Decided k f =
    (m : ℕ) (p s : Bytes) (back : Back)
    → Inv k f m p s back
    → Answers (glob_loop f p s back) (Matches p s ⊎ Later back)

-- A new star at `q`, in front of the name `s`.
at_star-Answers :
    (k f m : ℕ) (q s : Bytes)
    → Decided k f
    → length q < k
    → length s ≤ m
    → m * k + length q < f
    → Answers (glob_loop f q s (some (q, s))) (Matches (b'*' ∷ q) s)
at_star-Answers k f m q s ih hq hs hf =
    Answers-iff
      (ih m q s (some (q, s)) (record {
        pattern_bound = hq;
        name_bound = hs;
        saved = (omega arith, hs, hq);
        fuel = hf;
        covered = λ d. star_intro (head-star q) s (inr d);
      }))
      (star_split q s)

mismatch-Answers :
    (k f m c : ℕ) (p s : Bytes) (back : Back)
    → Decided k f
    → Inv k (suc f) m p (c ∷ s) back
    → ¬ Matches p (c ∷ s)
    → Answers (retry back (glob_loop f)) (Matches p (c ∷ s) ⊎ Later back)
unfolding retry
mismatch-Answers k f m c p s none ih i wrong =
    (false, refl, (λ h. cc, λ g. elim g [ inl d ↦ absurd (wrong d) | inr l ↦ absurd l ]))
mismatch-Answers k f zero c p s (some (q, bs)) ih i wrong = absurd (omega (arith, i.saved))
mismatch-Answers k f (suc m) c p s (some (q, [])) ih i wrong = absurd (omega (arith, i.saved))
mismatch-Answers k f (suc m) c p s (some (q, x ∷ bs)) ih i wrong =
    Answers-iff
      (at_star-Answers k f m q bs ih (omega (arith, i.saved)) (omega (arith, i.saved))
        (grind (arith, i.saved, i.fuel)))
      (λ d. inr d, λ g. elim g [ inl d ↦ absurd (wrong d) | inr l ↦ l ])

Saved-byte : (k m c : ℕ) (s : Bytes) (back : Back) → Saved m k (c ∷ s) back → Saved m k s back
Saved-byte k m c s none h = tt
Saved-byte k m c s (some (q, bs)) h = omega arith

byte-Answers :
    (k f m c : ℕ) (p q s : Bytes) (t : Test) (back : Back)
    → Decided k f
    → Inv k (suc f) m p (c ∷ s) back
    → head p ≡ at_test t q
    → accepts t c ≡ true
    → Answers (glob_loop f q s back) (Matches p (c ∷ s) ⊎ Later back)
byte-Answers k f m c p q s t back ih i starts fits =
    Answers-iff
      (ih m q s back (record {
        pattern_bound = omega (arith, i.pattern_bound, test-shorter p q t starts);
        name_bound = omega (arith, i.name_bound);
        saved = Saved-byte k m c s back i.saved;
        fuel = omega (arith, i.fuel, test-shorter p q t starts);
        covered = λ l. star_skips c s (head-star p) starts (i.covered l);
      }))
      (
        λ g. elim g [ inl d ↦ inl (byte starts fits d) | inr l ↦ inr l ],
        λ g. elim g [ inl d ↦ inl (byte_inv starts d).1 | inr l ↦ inr l ],
      )

glob_loop-Answers : (k f : ℕ) → Decided k f
unfolding glob_loop
glob_loop-Answers k zero m p s back i = absurd (omega (arith, i.fuel))
glob_loop-Answers k (suc f) m p [] back i = (
  only_stars p,
  refl,
  (
    λ h. inl (only_stars→Matches p h),
    λ g. elim g [
      | inl d ↦ Matches→only_stars p d
      | inr l ↦ Matches→only_stars p (star_end (head-star p) (i.covered l))
    ],
  ),
)
glob_loop-Answers k (suc f) m [] (c ∷ s) back i =
    mismatch-Answers k f m c [] s back (glob_loop-Answers k f) i (end_needed c s)
glob_loop-Answers k (suc f) m (b ∷ p) (c ∷ s) back i = elim (Bool-cases (b == b'*')) [
  | inl is_star ↦
      let starts : head (b ∷ p) ≡ at_star p = star_first b p is_star in
      rw is_star (
        Answers-iff
          (at_star-Answers k f m p (c ∷ s) (glob_loop-Answers k f) (omega (arith, i.pattern_bound))
            i.name_bound (omega (arith, i.fuel)))
          (
            λ d. inl (same_star (head-star p) starts d),
            λ g. elim g [
              | inl d ↦ same_star starts (head-star p) d
              | inr l ↦
                  same_star starts (head-star p)
                    (two_stars (head-star (b ∷ p)) starts (i.covered l))
            ],
          ))
  | inr other ↦
      let (t, q, starts, step) = consume-Consumes b c p other in
      rw other (elim (Bool-cases (accepts t c)) [
        | inl fits ↦
            let onward : consume b p c ≡ some q = step ∙ rw fits refl in
            rw onward
              (byte-Answers k f m c (b ∷ p) q s t back (glob_loop-Answers k f) i starts fits)
        | inr not_fits ↦
            let stop : consume b p c ≡ none = step ∙ rw not_fits refl in
            rw stop (
              mismatch-Answers k f m c (b ∷ p) s back (glob_loop-Answers k f) i
                (λ d. cc (byte_inv starts d).0))
      ])
]

-- On every name and every pattern the loop of globMatch stops within its fuel, and it answers
-- true exactly if the name matches, where a class is read byte by byte as matchClass reads it,
-- negated by a caret as by an exclamation mark.
pub glob_match-Answers : (name pat : Bytes) → Answers (glob_match name pat) (Matches pat name)
unfolding glob_match
glob_match-Answers name pat =
    Answers-iff
      (glob_loop-Answers (length pat + 1) _ (length name) pat name none (record {
        pattern_bound = omega arith;
        name_bound = omega arith;
        saved = tt;
        fuel = grind arith;
        covered = λ l. absurd l;
      }))
      (λ g. elim g [ inl d ↦ d | inr l ↦ absurd l ], λ d. inl d)

pub fnmatch_iff : (name pat : Bytes) → (fnmatch name pat ≡ true) ↔ Matches pat name
unfolding fnmatch
fnmatch_iff name pat = let (b, e, right) = glob_match-Answers name pat in rw e right
