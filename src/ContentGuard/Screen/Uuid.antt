-- ===== src/ContentGuard/Screen/Uuid.antt =====
-- The stems that isUUIDStem of contentguard.go takes: five groups of hexadecimal digits.
use gasworks.Prelude.{
  ℕ, zero, suc, ◌+◌, true, [], ◌∷◌, ◌++◌, ◌≡◌, ◌≤◌, ◌<◌, length-append, append-nil, ==_iff, ◌↔◌,
  inl, inr, refl, subst, sym, ◌∙◌, ap, arith, ◌==◌, length, drop, All, Bool-cases,
}
use gasworks.ContentGuard.Fnmatch.{Bytes}
use gasworks.ContentGuard.Screen.{uuid_layout, is_hex, follows, is_uuid_stem}

abbrev pub IsHex : ℕ → Type 0
IsHex c = is_hex c ≡ true

-- `n` bytes that are hexadecimal digits
pub record Digits (n : ℕ) (s : Bytes) : Type 0 where
  pub count : length s ≡ n
  pub hex : All IsHex s

-- Five groups of digits with a dash between two of them.
pub record IsUuid (s : Bytes) : Type 0 where
  pub a : Bytes
  pub b : Bytes
  pub c : Bytes
  pub d : Bytes
  pub e : Bytes
  pub digits : Digits 8 a × Digits 4 b × Digits 4 c × Digits 4 d × Digits 12 e
  pub whole : s ≡ a ++ (b'-' ∷ (b ++ (b'-' ∷ (c ++ (b'-' ∷ (d ++ (b'-' ∷ e)))))))

abbrev xs_then : ℕ → Bytes → Bytes
xs_then zero l = l
xs_then (suc n) l = b'x' ∷ xs_then n l

-- A group of `n` digits, and what is behind it.
record Group (n : ℕ) (l s : Bytes) : Type 0 where
  front : Bytes
  back : Bytes
  digits : Digits n front
  whole : s ≡ front ++ back
  goes_on : follows l back ≡ true

follows-Group : (n : ℕ) (l s : Bytes) → n ≤ length s → follows (xs_then n l) s ≡ true → Group n l s
unfolding follows
follows-Group zero l s hl h = record {
  front = [];
  back = s;
  digits = record { count = refl; hex = tt };
  whole = refl;
  goes_on = h;
}
follows-Group (suc n) l [] hl h = absurd (omega arith)
follows-Group (suc n) l (c ∷ s) hl h =
    let g = follows-Group n l s (omega arith) (ground arith) in
    record {
      front = c ∷ g.front;
      back = g.back;
      digits = record { count = omega (arith, g.digits.count); hex = (ground arith, g.digits.hex) };
      whole = ap (λ t. c ∷ t) g.whole;
      goes_on = g.goes_on;
    }

Digits-follows : (n : ℕ) (a l r : Bytes) → Digits n a → follows (xs_then n l) (a ++ r) ≡ follows l r
unfolding follows
Digits-follows zero [] l r h = refl
Digits-follows zero (c ∷ a) l r h = absurd (omega (arith, h.count))
Digits-follows (suc n) [] l r h = absurd (omega (arith, h.count))
Digits-follows (suc n) (c ∷ a) l r h =
    rw h.hex.0 (Digits-follows n a l r (record { count = omega (arith, h.count); hex = h.hex.1 }))

follows-Digits : (n : ℕ) (s : Bytes) → length s ≡ n → follows (xs_then n []) s ≡ true → Digits n s
unfolding follows
follows-Digits zero [] hl h = record { count = refl; hex = tt }
follows-Digits zero (c ∷ s) hl h = absurd (omega arith)
follows-Digits (suc n) [] hl h = absurd (omega arith)
follows-Digits (suc n) (c ∷ s) hl h =
    let rest = follows-Digits n s (omega arith) (ground arith) in
    record { count = hl; hex = (ground arith, rest.hex) }

-- A group with a dash behind it.
record Dashed (n : ℕ) (l s : Bytes) : Type 0 where
  front : Bytes
  back : Bytes
  digits : Digits n front
  whole : s ≡ front ++ (b'-' ∷ back)
  goes_on : follows l back ≡ true
  count : length back + suc n ≡ length s

dash_first :
    (l s : Bytes)
    → 0 < length s
    → follows (b'-' ∷ l) s ≡ true
    → (s ≡ b'-' ∷ drop 1 s) × (follows l (drop 1 s) ≡ true)
unfolding follows
dash_first l [] hl h = absurd (omega arith)
dash_first l (c ∷ s) hl h = (ground arith, ground arith)

follows-Dashed :
    (n : ℕ) (l s : Bytes) → n < length s → follows (xs_then n (b'-' ∷ l)) s ≡ true → Dashed n l s
follows-Dashed n l s hl h =
    let g = follows-Group n (b'-' ∷ l) s (omega arith) h in
    let cut : length s ≡ n + length g.back =
      ap length g.whole ∙ omega (arith, length-append g.front g.back, g.digits.count) in
    let (dash, on) = dash_first l g.back (omega arith) g.goes_on in
    record {
      front = g.front;
      back = drop 1 g.back;
      digits = g.digits;
      whole = g.whole ∙ ap (λ t. g.front ++ t) dash;
      goes_on = on;
      count = omega (arith, cut, ap length dash);
    }

-- The layout behind each of its dashes.
abbrev behind_four : Bytes
behind_four = xs_then 12 []

abbrev behind_three : Bytes
behind_three = xs_then 4 (b'-' ∷ behind_four)

abbrev behind_two : Bytes
behind_two = xs_then 4 (b'-' ∷ behind_three)

abbrev behind_one : Bytes
behind_one = xs_then 4 (b'-' ∷ behind_two)

follows-IsUuid : (s : Bytes) → length s ≡ 36 → follows uuid_layout s ≡ true → IsUuid s
follows-IsUuid s hl h =
    let one = follows-Dashed 8 behind_one s (omega arith) h in
    let two = follows-Dashed 4 behind_two one.back (omega (arith, one.count)) one.goes_on in
    let three =
      follows-Dashed 4 behind_three two.back (omega (arith, one.count, two.count)) two.goes_on in
    let four =
      follows-Dashed 4 behind_four three.back (omega (arith, one.count, two.count, three.count))
        three.goes_on in
    let counted : length four.back ≡ 12 =
      omega (arith, one.count, two.count, three.count, four.count) in
    record {
      a = one.front;
      b = two.front;
      c = three.front;
      d = four.front;
      e = four.back;
      digits = (
        one.digits,
        two.digits,
        three.digits,
        four.digits,
        follows-Digits 12 four.back counted four.goes_on,
      );
      whole =
          one.whole
          ∙ ap (λ t. one.front ++ (b'-' ∷ t))
              (two.whole
                ∙ ap (λ t. two.front ++ (b'-' ∷ t))
                    (three.whole ∙ ap (λ t. three.front ++ (b'-' ∷ t)) four.whole));
    }

Dashed-follows :
    (n : ℕ) (a l r : Bytes)
    → Digits n a
    → follows (xs_then n (b'-' ∷ l)) (a ++ (b'-' ∷ r)) ≡ follows l r
unfolding follows
Dashed-follows n a l r h = Digits-follows n a (b'-' ∷ l) (b'-' ∷ r) h

Digits-all : (n : ℕ) (s : Bytes) → Digits n s → follows (xs_then n []) s ≡ true
unfolding follows
Digits-all n s h =
    ap (λ t. follows (xs_then n []) t) (sym (append-nil s)) ∙ Digits-follows n s [] [] h

length-dash : (a r : Bytes) (n : ℕ) → Digits n a → length (a ++ (b'-' ∷ r)) ≡ n + 1 + length r
length-dash a r n h = omega (arith, length-append a (b'-' ∷ r), h.count)

uuid-follows :
    (a b c d e : Bytes)
    → Digits 8 a
    → Digits 4 b
    → Digits 4 c
    → Digits 4 d
    → Digits 12 e
    → is_uuid_stem (a ++ (b'-' ∷ (b ++ (b'-' ∷ (c ++ (b'-' ∷ (d ++ (b'-' ∷ e)))))))) ≡ true
unfolding is_uuid_stem
uuid-follows a b c d e ha hb hc hd he =
    let tail_d = d ++ (b'-' ∷ e) in
    let tail_c = c ++ (b'-' ∷ tail_d) in
    let tail_b = b ++ (b'-' ∷ tail_c) in
    let counted : length (a ++ (b'-' ∷ tail_b)) ≡ 36 = omega (
      arith,
      length-dash a tail_b 8 ha,
      length-dash b tail_c 4 hb,
      length-dash c tail_d 4 hc,
      length-dash d e 4 hd,
      he.count,
    ) in
    rw counted (
      Dashed-follows 8 a behind_one tail_b ha
      ∙ Dashed-follows 4 b behind_two tail_c hb
      ∙ Dashed-follows 4 c behind_three tail_d hc
      ∙ Dashed-follows 4 d behind_four e hd
      ∙ Digits-all 12 e he)

-- The loop over the layout takes exactly such stems.
pub is_uuid_stem_iff : (s : Bytes) → (is_uuid_stem s ≡ true) ↔ IsUuid s
unfolding is_uuid_stem
is_uuid_stem_iff s = (
  λ h. elim (Bool-cases (length s == 36)) [
    | inl counted ↦ follows-IsUuid s ((==_iff (length s) 36).0 counted) (rw counted at h)
    | inr other ↦ cc (rw other at h)
  ],
  λ u.
      let (ha, hb, hc, hd, he) = u.digits in
      subst (λ t. is_uuid_stem t ≡ true) (sym u.whole)
        (uuid-follows u.a u.b u.c u.d u.e ha hb hc hd he),
)
