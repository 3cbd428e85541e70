-- ===== src/Spool/Bytes.antt =====
-- Big-endian integers in a byte slice (encoding/binary's BigEndian, as frame.go, segment.go,
-- recover.go and capacity.go use it), and the slices that the decoders take.
-- A byte slice is a list of numbers below 256.
use gasworks.Prelude.{
  ℕ, zero, suc, ◌+◌, ◌*◌, ◌/◌, ◌%◌, ◌^◌, ◌≤◌, ◌<◌, ◌≡◌, refl, sym, ap, ap₂, ◌∙◌, List, [], ◌∷◌,
  ◌++◌, arith, length, take, drop, All, length-append, All-append, All-take, All-drop, length-take,
  length-drop, take-add,
}
use mathlib.Core.List.{foldl, foldl-append}
use native.Mathlib.Nat.{pow-suc}

abbrev pub IsByte : ℕ → Type 0
IsByte b = b < 256

abbrev pub IsBytes : List ℕ → Type 0
IsBytes = All IsByte

-- The `k` big-endian bytes of `v % 256 ^ k`.
unfoldable pub put_be : ℕ → ℕ → List ℕ
put_be zero v = []
put_be (suc k) v = put_be k (v / 256) ++ (v % 256) ∷ []

unfoldable pub push_byte : ℕ → ℕ → ℕ
push_byte acc b = acc * 256 + b

-- The number that a run of bytes spells.
unfoldable pub get_be : List ℕ → ℕ
unfolding push_byte
get_be = foldl push_byte 0

-- data[off:off+n].
abbrev pub slice : ℕ → ℕ → List ℕ → List ℕ
slice off n data' = take n (drop off data')

pub length-put_be : (k v : ℕ) → length (put_be k v) ≡ k
unfolding put_be
length-put_be zero v = refl
length-put_be (suc k) v =
    omega (arith, length-append (put_be k (v / 256)) ((v % 256) ∷ []), length-put_be k (v / 256))

pub put_be-IsBytes : (k v : ℕ) → IsBytes (put_be k v)
unfolding put_be
put_be-IsBytes zero v = tt
put_be-IsBytes (suc k) v =
    All-append IsByte (put_be k (v / 256)) _ (put_be-IsBytes k (v / 256)) (omega arith)

get_be-append : (xs : List ℕ) (b : ℕ) → get_be (xs ++ b ∷ []) ≡ get_be xs * 256 + b
unfolding get_be
get_be-append xs b = rw foldl-append refl

-- Reading back what was written.
pub get_be-put_be : (k v : ℕ) → v < 256 ^ k → get_be (put_be k v) ≡ v
unfolding put_be
get_be-put_be zero v h = unfold get_be in omega arith
get_be-put_be (suc k) v h =
    get_be-append (put_be k (v / 256)) (v % 256)
    ∙ rw (get_be-put_be k (v / 256) (grind (arith, pow-suc 256 k))) (omega arith)

unsnoc :
    (k : ℕ) (xs : List ℕ)
    → length xs ≡ suc k
    → IsBytes xs
    → (ys : List ℕ) × (b : ℕ) × (xs ≡ ys ++ b ∷ []) × (length ys ≡ k) × IsBytes ys × IsByte b
unsnoc k [] h hb = absurd (omega arith)
unsnoc zero (x ∷ []) h hb = ([], x, refl, refl, tt, hb.0)
unsnoc zero (x ∷ y ∷ xs) h hb = absurd (omega arith)
unsnoc (suc k) (x ∷ xs) h hb =
    let (ys, b, e, l, by, bb) = unsnoc k xs (omega arith) hb.1 in
    (x ∷ ys, b, ap (λ r. x ∷ r) e, omega arith, (hb.0, by), bb)

-- What `k` bytes spell is below 256 ^ k.
pub get_be-lt : (k : ℕ) (xs : List ℕ) → length xs ≡ k → IsBytes xs → get_be xs < 256 ^ k
get_be-lt zero [] h hb = unfold get_be in omega arith
get_be-lt zero (x ∷ xs) h hb = absurd (omega arith)
get_be-lt (suc k) xs h hb =
    let (ys, b, e, l, by, bb) = unsnoc k xs h hb in
    let n : get_be xs ≡ get_be ys * 256 + b = ap get_be e ∙ get_be-append ys b in
    let below : get_be ys < 256 ^ k = get_be-lt k ys l by in grind (arith, pow-suc 256 k)

-- Writing again what was read.
pub put_be-get_be : (k : ℕ) (xs : List ℕ) → length xs ≡ k → IsBytes xs → put_be k (get_be xs) ≡ xs
unfolding put_be
put_be-get_be zero [] h hb = refl
put_be-get_be zero (x ∷ xs) h hb = absurd (omega arith)
put_be-get_be (suc k) xs h hb =
    let (ys, b, e, l, by, bb) = unsnoc k xs h hb in
    let n : get_be xs ≡ get_be ys * 256 + b = ap get_be e ∙ get_be-append ys b in
    let q : get_be xs / 256 ≡ get_be ys = omega arith in
    let r : get_be xs % 256 ≡ b = omega arith in rw (q, r, put_be-get_be k ys l by) (sym e)

-- Writing a field that was read gives the bytes that it was read from.
pub put_be-slice :
    (off k v : ℕ) (d : List ℕ)
    → get_be (slice off k d) ≡ v
    → off + k ≤ length d
    → IsBytes d
    → put_be k v ≡ slice off k d
put_be-slice off k v d e h hb =
    ap (put_be k) (sym e)
    ∙ put_be-get_be k (slice off k d) (omega (arith, length-take k (drop off d), length-drop off d))
        (All-take IsByte k (drop off d) (All-drop IsByte off d hb))

-- A field behind a prefix makes a longer prefix.
pub append-slice :
    (d : List ℕ) (a b : ℕ) (x y : List ℕ)
    → x ≡ take a d
    → y ≡ slice a b d
    → (x ++ y) ≡ take (a + b) d
append-slice d a b x y p q = ap₂ (λ (r s : List ℕ). r ++ s) p q ∙ sym (take-add a b d)
