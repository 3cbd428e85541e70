-- ===== src/ContentGuard/Screen/Pem.antt =====
-- What the sniff of contentguard.go catches.
use gasworks.Prelude.{
  ℕ, true, [], ◌∷◌, ◌++◌, some, ◌≡◌, ◌↔◌, ◌⊎◌, inl, inr, refl, sym, ◌∙◌, ap, arith, if◌then◌else◌,
  ltb, length, take, drop, All, codes, has_prefix, has_prefix_split, has_prefix-append, Bool-cases,
  take_all,
}
use gasworks.ContentGuard.Fnmatch.{Bytes}
use gasworks.ContentGuard.Screen.{
  pem_content, sniff_bytes, pem_bom, is_blank, trim_left, looks_like_pem, screen_content, trim_bom,
}

abbrev pub IsBlank : ℕ → Type 0
IsBlank c = is_blank c ≡ true

-- A byte-order mark or none, then blanks, then the marker of a key block.
pub record StartsPem (s : Bytes) : Type 0 where
  pub mark : Bytes
  pub blanks : Bytes
  pub rest : Bytes
  pub mark_bom : (mark ≡ []) ⊎ (mark ≡ pem_bom)
  pub blank : All IsBlank blanks
  pub whole : s ≡ mark ++ (blanks ++ (codes "-----BEGIN" ++ rest))

leading : Bytes → Bytes
leading [] = []
leading (c ∷ s) = let rest = leading s in if is_blank c then c ∷ rest else []

leading-trim_left : (s : Bytes) → (s ≡ leading s ++ trim_left s) × All IsBlank (leading s)
unfolding leading trim_left
leading-trim_left [] = (refl, tt)
leading-trim_left (c ∷ s) = elim (Bool-cases (is_blank c)) [
  | inl blank ↦ let (e, a) = leading-trim_left s in rw blank (ap (λ r. c ∷ r) e, (blank, a))
  | inr other ↦ rw other (refl, tt)
]

trim_left-append : (ws s : Bytes) → All IsBlank ws → trim_left s ≡ s → trim_left (ws ++ s) ≡ s
unfolding trim_left
trim_left-append [] s h e = e
trim_left-append (w ∷ ws) s h e = rw h.0 (trim_left-append ws s h.1 e)

trim_left-marker : (r : Bytes) → trim_left (codes "-----BEGIN" ++ r) ≡ codes "-----BEGIN" ++ r
unfolding trim_left is_blank
trim_left-marker r = refl

trim_bom-blank :
    (ws r : Bytes)
    → All IsBlank ws
    → trim_bom (ws ++ (codes "-----BEGIN" ++ r)) ≡ ws ++ (codes "-----BEGIN" ++ r)
unfolding trim_bom is_blank
trim_bom-blank [] r h = refl
trim_bom-blank (w ∷ ws) r h = ground (arith, h.0)

marked-looks_like_pem :
    (mark ws r : Bytes)
    → (mark ≡ []) ⊎ (mark ≡ pem_bom)
    → All IsBlank ws
    → looks_like_pem (mark ++ (ws ++ (codes "-----BEGIN" ++ r))) ≡ true
unfolding looks_like_pem
marked-looks_like_pem mark ws r (inl bare) h = rw bare (
    rw (trim_bom-blank ws r h) (
      rw (trim_left-append ws (codes "-----BEGIN" ++ r) h (trim_left-marker r))
        (has_prefix-append (codes "-----BEGIN") r)))
marked-looks_like_pem mark ws r (inr bom) h = rw bom (
    rw (trim_left-append ws (codes "-----BEGIN" ++ r) h (trim_left-marker r))
      (has_prefix-append (codes "-----BEGIN") r))

StartsPem→looks_like_pem : (s : Bytes) → StartsPem s → looks_like_pem s ≡ true
StartsPem→looks_like_pem s h =
    rw h.whole (marked-looks_like_pem h.mark h.blanks h.rest h.mark_bom h.blank)

-- Behind a mark that was cut off.
unmarked :
    (mark s : Bytes)
    → (mark ≡ []) ⊎ (mark ≡ pem_bom)
    → has_prefix (trim_left s) (codes "-----BEGIN") ≡ true
    → StartsPem (mark ++ s)
unmarked mark s m h =
    let (split, blank) = leading-trim_left s in
    record {
      mark = mark;
      blanks = leading s;
      rest = drop 10 (trim_left s);
      mark_bom = m;
      blank = blank;
      whole =
          ap (λ t. mark ++ t)
            (split
              ∙ ap (λ t. leading s ++ t) (has_prefix_split (trim_left s) (codes "-----BEGIN") h));
    }

looks_like_pem→StartsPem : (s : Bytes) → looks_like_pem s ≡ true → StartsPem s
unfolding looks_like_pem trim_bom
looks_like_pem→StartsPem s h = elim (Bool-cases (has_prefix s pem_bom)) [
  | inl marked ↦
      rw (has_prefix_split s pem_bom marked)
        (unmarked pem_bom (drop 3 s) (inr refl) (rw marked at h))
  | inr bare ↦ unmarked [] s (inl refl) (rw bare at h)
]

cut-eq-take : (n : ℕ) (s : Bytes) → (if ltb n (length s) then take n s else s) ≡ take n s
cut-eq-take n s = elim (Bool-cases (ltb n (length s))) [
  | inl longer ↦ rw longer
  | inr short ↦ rw short (sym (take_all n s (ground arith)))
]

-- A content is refused exactly if its first 64 bytes are a byte-order mark or none, then blanks,
-- then "-----BEGIN" and anything.
pub screen_content_iff :
    (content : Bytes)
    → (screen_content content ≡ some pem_content) ↔ StartsPem (take sniff_bytes content)
unfolding screen_content
screen_content_iff content =
    rw (cut-eq-take sniff_bytes content)
      (elim (Bool-cases (looks_like_pem (take sniff_bytes content))) [
        | inl pem ↦ rw pem (λ _. looks_like_pem→StartsPem (take 64 content) pem, λ _. refl)
        | inr plain ↦ rw plain (λ h. cc, λ h. cc (StartsPem→looks_like_pem (take 64 content) h))
      ])
