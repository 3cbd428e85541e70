-- ===== src/ContentGuard/Screen/Names.antt =====
-- What the screen of contentguard.go on a transcript's name lets through.
use gasworks.Prelude.{
  Bool, true, ◌||◌, List, [], ◌∷◌, ◌++◌, none, some, ◌≡◌, ◌≢◌, ◌↔◌, ◌⊎◌, inl, inr, refl, subst, sym,
  arith, if◌then◌else◌, drop, All, codes, has_prefix, has_prefix_split, has_prefix-append,
  Bool-cases, has_suffix, has_suffix-append, has_suffix_split, without_suffix,
  without_suffix-append, list_eq, list_eq_iff, list_eq_refl,
}
use gasworks.ContentGuard.Fnmatch.{Bytes, fnmatch}
use gasworks.ContentGuard.Fnmatch.Grammar.{Matches}
use gasworks.ContentGuard.Fnmatch.Decides.{fnmatch_iff}
use gasworks.ContentGuard.Screen.Uuid.{IsHex, IsUuid, is_uuid_stem_iff}
use gasworks.ContentGuard.Screen.{
  denylisted_name, deny_basenames, deny_globs, is_listed, any_glob, is_uuid_stem, all_hex,
  is_agent_hex_stem, denied, allowed, screen_name, no_bytes,
}

abbrev pub Any {ℓ} : {A : Type ℓ} → (A → Type 0) → List A → Type 0
Any P [] = ⊥
Any P (x ∷ xs) = P x ⊎ Any P xs

is_listed_iff :
    (name : Bytes) (ns : List Bytes) → (is_listed name ns ≡ true) ↔ Any (λ n. name ≡ n) ns
unfolding is_listed
is_listed_iff name [] = (λ h. cc, λ h. absurd h)
is_listed_iff name (n ∷ ns) = (
  λ h. elim (Bool-cases (list_eq name n)) [
    | inl same ↦ inl ((list_eq_iff name n).0 same)
    | inr other ↦ inr ((is_listed_iff name ns).0 (rw other at h))
  ],
  λ h. elim h [
    | inl same ↦ rw (same, list_eq_refl n)
    | inr rest ↦ ground (arith, (is_listed_iff name ns).1 rest)
  ],
)

any_glob_iff :
    (name : Bytes) (gs : List Bytes) → (any_glob name gs ≡ true) ↔ Any (λ g. Matches g name) gs
unfolding any_glob
any_glob_iff name [] = (λ h. cc, λ h. absurd h)
any_glob_iff name (g ∷ gs) = (
  λ h. elim (Bool-cases (fnmatch name g)) [
    | inl hit ↦ inl ((fnmatch_iff name g).0 hit)
    | inr other ↦ inr ((any_glob_iff name gs).0 (rw other at h))
  ],
  λ h. elim h [
    | inl hit ↦ rw ((fnmatch_iff name g).1 hit)
    | inr rest ↦ ground (arith, (any_glob_iff name gs).1 rest)
  ],
)

-- "agent-" and at least one hexadecimal digit.
pub record IsAgent (s : Bytes) : Type 0 where
  pub hex : Bytes
  pub some_hex : hex ≢ []
  pub digits : All IsHex hex
  pub whole : s ≡ codes "agent-" ++ hex

all_hex_iff : (s : Bytes) → (all_hex s ≡ true) ↔ All IsHex s
unfolding all_hex
all_hex_iff [] = (λ _. tt, λ _. refl)
all_hex_iff (c ∷ s) =
    (λ h. (ground arith, (all_hex_iff s).0 (ground arith)), λ h. rw h.0 ((all_hex_iff s).1 h.1))

is_agent_hex_stem-IsHex :
    (s : Bytes) → is_agent_hex_stem (codes "agent-" ++ s) ≡ true → (s ≢ []) × All IsHex s
unfolding is_agent_hex_stem no_bytes
is_agent_hex_stem-IsHex [] h = cc
is_agent_hex_stem-IsHex (c ∷ s) h = (λ e. cc, (all_hex_iff (c ∷ s)).0 h)

IsHex-is_agent_hex_stem :
    (s : Bytes) → s ≢ [] → All IsHex s → is_agent_hex_stem (codes "agent-" ++ s) ≡ true
unfolding is_agent_hex_stem no_bytes
IsHex-is_agent_hex_stem [] ne h = absurd (ne refl)
IsHex-is_agent_hex_stem (c ∷ s) ne h = (all_hex_iff (c ∷ s)).1 h

agent-prefix : (s : Bytes) → is_agent_hex_stem s ≡ true → s ≡ codes "agent-" ++ drop 6 s
unfolding is_agent_hex_stem
agent-prefix s h = elim (Bool-cases (has_prefix s (codes "agent-"))) [
  | inl starts ↦ has_prefix_split s (codes "agent-") starts
  | inr other ↦ cc (rw other at h)
]

is_agent_hex_stem_iff : (s : Bytes) → (is_agent_hex_stem s ≡ true) ↔ IsAgent s
is_agent_hex_stem_iff s = (
  λ h.
      let (ne, hex) =
        is_agent_hex_stem-IsHex (drop 6 s)
          (subst (λ t. is_agent_hex_stem t ≡ true) (agent-prefix s h) h) in
      record { hex = drop 6 s; some_hex = ne; digits = hex; whole = agent-prefix s h },
  λ a. rw a.whole (IsHex-is_agent_hex_stem a.hex a.some_hex a.digits),
)

-- A basename in lower case has the shape of a transcript of the provider.
pub data Shape (provider lower : Bytes) : Type 0 where
  claude_session :
      (stem : Bytes)
      → provider ≡ codes "claude"
      → lower ≡ stem ++ codes ".jsonl"
      → IsUuid stem
      → Shape provider lower
  claude_agent :
      (stem : Bytes)
      → provider ≡ codes "claude"
      → lower ≡ stem ++ codes ".jsonl"
      → IsAgent stem
      → Shape provider lower
  codex_rollout :
      (front back : Bytes)
      → provider ≡ codes "codex"
      → lower ≡ front ++ codes ".jsonl"
      → lower ≡ codes "rollout-" ++ back
      → Shape provider lower

-- A basename is on the deny list: a dotfile, or in lower case one of the names or a match of one of
-- the globs.
pub data Denied (name lower : Bytes) : Type 0 where
  dotfile : (rest : Bytes) → name ≡ b'.' ∷ rest → Denied name lower
  listed : Any (λ n. lower ≡ n) deny_basenames → Denied name lower
  matched : Any (λ g. Matches g lower) deny_globs → Denied name lower

or_right : (a b : Bool) → b ≡ true → (a || b) ≡ true
or_right a b h = ground arith

either_test :
    (a b c : Bool)
    → (a ≡ true) ⊎ (b ≡ true) ⊎ (c ≡ true)
    → (if a then true else if b then true else c) ≡ true
either_test a b c h = ground arith

module _ (base to_lower : Bytes → Bytes) where
  denied→Denied : (name : Bytes) → denied base to_lower name ≡ true → Denied name (to_lower name)
  unfolding denied
  denied→Denied name h = elim (Bool-cases (has_prefix name (codes "."))) [
    | inl dot ↦ dotfile (drop 1 name) (has_prefix_split name (codes ".") dot)
    | inr no_dot ↦ elim (Bool-cases (is_listed (to_lower name) deny_basenames)) [
      | inl hit ↦ listed ((is_listed_iff (to_lower name) deny_basenames).0 hit)
      | inr not_listed ↦
          matched ((any_glob_iff (to_lower name) deny_globs).0 (rw (no_dot, not_listed) at h))
    ]
  ]

  Denied→denied : (name : Bytes) → Denied name (to_lower name) → denied base to_lower name ≡ true
  unfolding denied
  Denied→denied name d =
      either_test (has_prefix name (codes ".")) (is_listed (to_lower name) deny_basenames)
        (any_glob (to_lower name) deny_globs)
        (elim d [
          | dotfile rest e ↦ inl (rw e)
          | listed a ↦ inr (inl ((is_listed_iff (to_lower name) deny_basenames).1 a))
          | matched a ↦ inr (inr ((any_glob_iff (to_lower name) deny_globs).1 a))
        ])

  allowed→Shape :
      (provider name : Bytes)
      → allowed base to_lower provider name ≡ true
      → Shape provider (to_lower name)
  unfolding allowed
  allowed→Shape provider name h =
      let lower = to_lower name in
      let stem = without_suffix lower (codes ".jsonl") in
      elim (Bool-cases (list_eq provider (codes "claude"))) [
        | inl claude ↦ elim (Bool-cases (has_suffix lower (codes ".jsonl"))) [
          | inr other ↦ cc (rw (claude, other) at h)
          | inl ends ↦
              let e : provider ≡ codes "claude" =
                (list_eq_iff provider (codes "claude")).0 claude in
              let whole : lower ≡ stem ++ codes ".jsonl" =
                has_suffix_split lower (codes ".jsonl") ends in
              elim (Bool-cases (is_uuid_stem stem)) [
                | inl uuid ↦ claude_session stem e whole ((is_uuid_stem_iff stem).0 uuid)
                | inr other ↦
                    claude_agent stem e whole
                      ((is_agent_hex_stem_iff stem).0 (rw (claude, ends, other) at h))
              ]
        ]
        | inr not_claude ↦ elim (Bool-cases (list_eq provider (codes "codex"))) [
          | inr other ↦ cc (rw (not_claude, other) at h)
          | inl codex ↦ elim (Bool-cases (has_suffix lower (codes ".jsonl"))) [
            | inr other ↦ cc (rw (not_claude, codex, other) at h)
            | inl ends ↦
                codex_rollout stem (drop 8 lower) ((list_eq_iff provider (codes "codex")).0 codex)
                  (has_suffix_split lower (codes ".jsonl") ends)
                  (has_prefix_split lower (codes "rollout-") (rw (not_claude, codex, ends) at h))
          ]
        ]
      ]

  Shape→allowed :
      (provider name : Bytes)
      → Shape provider (to_lower name)
      → allowed base to_lower provider name ≡ true
  unfolding allowed
  Shape→allowed provider name (claude_session stem p e u) = rw (
    p,
    e,
    has_suffix-append stem (codes ".jsonl"),
    without_suffix-append stem (codes ".jsonl"),
    (is_uuid_stem_iff stem).1 u,
  )
  Shape→allowed provider name (claude_agent stem p e a) =
      rw
        (p, e, has_suffix-append stem (codes ".jsonl"), without_suffix-append stem (codes ".jsonl"))
        (or_right (is_uuid_stem stem) (is_agent_hex_stem stem) ((is_agent_hex_stem_iff stem).1 a))
  Shape→allowed provider name (codex_rollout front back p e e') =
      let ends : has_suffix (to_lower name) (codes ".jsonl") ≡ true =
        subst (λ t. has_suffix t (codes ".jsonl") ≡ true) (sym e)
          (has_suffix-append front (codes ".jsonl")) in
      let starts : has_prefix (to_lower name) (codes "rollout-") ≡ true =
        subst (λ t. has_prefix t (codes "rollout-") ≡ true) (sym e')
          (has_prefix-append (codes "rollout-") back) in
      rw (p, ends, starts)

  -- A path is let through exactly if its basename is not on the deny list and, in lower case, has
  -- the shape of a transcript of the provider. It is refused as denylisted exactly if it is on
  -- the list.
  pub screen_name_iff :
      (provider path : Bytes)
      → ((screen_name base to_lower provider path ≡ none)
          ↔ ((¬ Denied (base path) (to_lower (base path))) × Shape provider (to_lower (base path))))
        × ((screen_name base to_lower provider path ≡ some denylisted_name)
            ↔ Denied (base path) (to_lower (base path)))
  unfolding screen_name
  screen_name_iff provider path = elim (Bool-cases (denied base to_lower (base path))) [
    | inl hit ↦
        let d = denied→Denied (base path) hit in
        rw hit ((λ h. cc, λ h. absurd (h.0 d)), (λ _. d, λ _. refl))
    | inr clear ↦
        let fine : ¬ Denied (base path) (to_lower (base path)) =
          λ d. cc (Denied→denied (base path) d) in
        elim (Bool-cases (allowed base to_lower provider (base path))) [
          | inl shaped ↦
              rw (clear, shaped)
                (
                  (λ _. (fine, allowed→Shape provider (base path) shaped), λ _. refl),
                  (λ h. cc, λ d. absurd (fine d)),
                )
          | inr other ↦
              rw (clear, other)
                (
                  (λ h. cc, λ h. cc (Shape→allowed provider (base path) h.1)),
                  (λ h. cc, λ d. absurd (fine d)),
                )
        ]
  ]
