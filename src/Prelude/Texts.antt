-- ===== src/Prelude/Texts.antt =====
-- Texts of the source as the list of their bytes (all of them are ASCII), and Go's
-- strings.HasPrefix, HasSuffix, TrimPrefix and TrimSuffix on them.
use Prim.Native.Nat.{ℕ, ◌-◌}
use Prim.Native.Char.{code}
use Prim.Native.String.{String}
use mathlib.Core.Path.{◌≡◌, refl, sym, ap, ◌∙◌}
use mathlib.Core.Bool.{Bool, true, false, ◌&&◌}
use mathlib.Core.List.{List, [], ◌∷◌, ◌++◌}
use native.Mathlib.Omega.{arith}
use gasworks.Prelude.Tests.{◌==◌, leb, if◌then◌else◌}
use gasworks.Prelude.Lists.{
  length, take, drop, list_eq, list_eq_iff, list_eq_refl, length-append, take-append-drop,
  drop-append_length, take-append_length,
}

abbrev pub codes : String → List ℕ
codes String.[] = []
codes (String.◌∷◌ c s) = code c ∷ codes s

abbrev pub has_prefix : List ℕ → List ℕ → Bool
has_prefix s [] = true
has_prefix [] (b ∷ p) = false
has_prefix (c ∷ s) (b ∷ p) = c == b && has_prefix s p

pub has_prefix_split : (s p : List ℕ) → has_prefix s p ≡ true → s ≡ p ++ drop (length p) s
has_prefix_split s [] h = refl
has_prefix_split [] (b ∷ p) h = cc
has_prefix_split (c ∷ s) (b ∷ p) h = ground (arith, has_prefix_split s p)

pub has_prefix-append : (p r : List ℕ) → has_prefix (p ++ r) p ≡ true
has_prefix-append [] r = refl
has_prefix-append (b ∷ p) r = ground (arith, has_prefix-append p r)

unfoldable pub has_suffix : List ℕ → List ℕ → Bool
has_suffix s e = leb (length e) (length s) && list_eq (drop (length s - length e) s) e

unfoldable pub without_suffix : List ℕ → List ℕ → List ℕ
unfolding has_suffix
without_suffix s e = if has_suffix s e then take (length s - length e) s else s

pub has_suffix-append : (r e : List ℕ) → has_suffix (r ++ e) e ≡ true
unfolding has_suffix
has_suffix-append r e =
    let cut : length (r ++ e) - length e ≡ length r = omega (arith, length-append r e) in
    let fits : leb (length e) (length (r ++ e)) ≡ true = ground (arith, length-append r e) in
    rw fits (rw cut (rw (drop-append_length (length r) r e refl) (list_eq_refl e)))

pub without_suffix-append : (r e : List ℕ) → without_suffix (r ++ e) e ≡ r
unfolding without_suffix
without_suffix-append r e =
    let cut : length (r ++ e) - length e ≡ length r = omega (arith, length-append r e) in
    rw (has_suffix-append r e) (rw cut (take-append_length (length r) r e refl))

pub has_suffix_split : (s e : List ℕ) → has_suffix s e ≡ true → s ≡ without_suffix s e ++ e
unfolding has_suffix without_suffix
has_suffix_split s e h = rw h (
    sym (take-append-drop (length s - length e) s)
    ∙ ap (λ t. take (length s - length e) s ++ t)
        ((list_eq_iff (drop (length s - length e) s) e).0 (ground arith)))
