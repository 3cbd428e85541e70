-- ===== src/ContentGuard/Fnmatch.antt =====
-- contentguard/fnmatch.go: the glob matcher of the deny list. A position in the pattern or in the
-- name is what is left of it from there on.
pub mod Grammar
pub mod Decides
use gasworks.Prelude.{
  ℕ, zero, suc, ◌+◌, ◌*◌, Bool, true, false, not, ◌&&◌, ◌||◌, List, [], ◌∷◌, Option, none, some,
  if◌then◌else◌, ◌==◌, leb, length, drop,
}

abbrev pub Bytes : Type 0
Bytes = List ℕ

-- `j > start`
abbrev pub is_some : Option ℕ → Bool
is_some none = false
is_some (some _) = true

-- `lo <= ch && ch <= hi`, with `lo` the byte before the dash
abbrev pub in_range : Option ℕ → ℕ → ℕ → Bool
in_range none hi ch = false
in_range (some lo) hi ch = leb lo ch && leb ch hi

-- The loop of matchClass from index `j`: `prev` is `pat[j-1]` once `j > start`. It answers `found`
-- with the pattern behind the closing bracket, or none if there is no such bracket.
class_loop : ℕ → Bool → Option ℕ → Bytes → Option (Bool × Bytes)
class_loop ch found prev [] = none
class_loop ch found prev (c ∷ []) = if c == b']' && is_some prev then some (found, []) else none
class_loop ch found prev (c ∷ d ∷ p) =
    let range = class_loop ch (found || in_range prev d ch) (some d) p in
    let member = class_loop ch (found || c == ch) (some c) (d ∷ p) in
    if c == b']' && is_some prev
    then some (found, d ∷ p)
    else if c == b'-' && is_some prev && not (d == b']')
    then range
    else member

pub negated : Option (Bool × Bytes) → Option (Bool × Bytes)
negated none = none
negated (some (found, p)) = some (not found, p)

-- The pattern `p` stands right behind the opening bracket.
unfoldable pub match_class : Bytes → ℕ → Option (Bool × Bytes)
unfolding class_loop negated
match_class [] ch = none
match_class (c ∷ p) ch =
    if c == b'!' || c == b'^'
    then negated (class_loop ch false none p)
    else class_loop ch false none (c ∷ p)

-- The cases '?', '[' and default of the switch on the pattern's byte `b`: the pattern behind it if
-- the name's byte `c` is consumed, none on a mismatch.
unfoldable pub consume : ℕ → Bytes → ℕ → Option Bytes
unfolding match_class
consume b p c =
    if b == b'?'
    then some p
    else if b == b'['
    then elim (match_class p c) [
      | some (matched, q) ↦ if matched then some q else none
      | none ↦ if c == b'[' then some p else none
    ]
    else if b == c
    then some p
    else none

-- The last loop and the return.
unfoldable pub only_stars : Bytes → Bool
only_stars [] = true
only_stars (b ∷ p) = let rest = only_stars p in if b == b'*' then rest else false

-- `star` and `starName`: the pattern behind the last star, and the name from `starName` on.
abbrev pub Back : Type 0
Back = Option (Bytes × Bytes)

abbrev pub Round : Type 0
Round = Bytes → Bytes → Back → Option Bool

retry : Back → Round → Option Bool
retry none next = some false
retry (some (q, s)) next = next q (drop 1 s) (some (q, drop 1 s))

unfoldable pub glob_loop : ℕ → Round
unfolding consume only_stars retry
glob_loop zero p s back = none
glob_loop (suc f) p [] back = some (only_stars p)
glob_loop (suc f) [] (c ∷ s) back = retry back (glob_loop f)
glob_loop (suc f) (b ∷ p) (c ∷ s) back =
    let at_star = glob_loop f p (c ∷ s) (some (p, c ∷ s)) in
    let at_byte : Option Bool = elim (consume b p c) [
      | some q ↦ glob_loop f q s back
      | none ↦ retry back (glob_loop f)
    ] in
    if b == b'*' then at_star else at_byte

-- The fuel counts the rounds: a pattern's length of them for each byte at which a star can stand.
unfoldable pub glob_match : Bytes → Bytes → Option Bool
unfolding glob_loop
glob_match name pat = glob_loop ((length name + 1) * (length pat + 1)) pat name none

-- The loop stops within its fuel, so that none does not occur.
pub settled : Option Bool → Bool
settled none = false
settled (some b) = b

unfoldable pub fnmatch : Bytes → Bytes → Bool
unfolding settled
fnmatch name pattern' = settled (glob_match name pattern')
