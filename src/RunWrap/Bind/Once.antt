-- ===== src/RunWrap/Bind/Once.antt =====
-- What the discovery binds, and what its last pass cannot.
use gasworks.Prelude.{
  ℕ, ◌+◌, ◌≤◌, ◌≡◌, refl, Bool, true, false, List, [], ◌∷◌, Option, some, if◌then◌else◌, list_eq,
  list_eq_iff, arith, if-intro, Bool-cases, Option-cases, inl, inr,
}
use gasworks.RunWrap.Env.{Text}
use gasworks.RunWrap.Bind.{
  has_key, Discovery, undiscovered, bind_native, bind_path, scan, scan_passes, discover_and_bind,
  no_session,
}

abbrev pub occurrences : Text → List Text → ℕ
occurrences key [] = 0
occurrences key (x ∷ xs) = if list_eq x key then 1 + occurrences key xs else occurrences key xs

absent : (key : Text) (xs : List Text) → has_key key xs ≡ false → occurrences key xs ≡ 0
unfolding has_key
absent key [] h = refl
absent key (x ∷ xs) h = ground (arith, absent key xs)

present : (key : Text) (xs : List Text) → has_key key xs ≡ true → 1 ≤ occurrences key xs
unfolding has_key
present key [] h = cc
present key (x ∷ xs) h = ground (arith, present key xs)

-- A new head is at most one occurrence.
fresh_head :
    (key x : Text) (xs : List Text)
    → has_key x xs ≡ false
    → occurrences key xs ≤ 1
    → occurrences key (x ∷ xs) ≤ 1
fresh_head key x xs h few = elim (Bool-cases (list_eq x key)) [
  | inl same ↦
      let e = (list_eq_iff x key).0 same in
      let none_yet = absent key xs (rw e at h) in rw (same, none_yet) (omega arith)
  | inr other ↦ rw other few
]

-- What each new session keeps, a discovery keeps.
module _ (native_session_id : Text → Option Text) (bind_session : Bool → Text → ℕ → Bool)
    (pre_launch : List Text) (P : List Text → Type 0)
    (grows : (n : Text) (bs : List Text) → has_key n bs ≡ false → P bs → P (n ∷ bs)) where
  native_keeps :
      (cancelled : Bool) (d : Discovery) (native : Text)
      → P d.bound
      → P (bind_native native_session_id bind_session pre_launch cancelled d native).bound
  unfolding bind_native
  native_keeps cancelled d native h =
      if-intro (λ (e : Discovery). P e.bound) (no_session native) (λ e. h)
        (λ e.
          if-intro (λ (e : Discovery). P e.bound) (has_key native d.bound) (λ e. h)
            (λ new.
              if-intro (λ (e : Discovery). P e.bound) (bind_session cancelled native d.calls)
                (λ e. grows native d.bound new h) (λ e. h)))

  path_keeps :
      (cancelled : Bool) (d : Discovery) (path : Text)
      → P d.bound
      → P (bind_path native_session_id bind_session pre_launch cancelled d path).bound
  unfolding bind_path
  path_keeps cancelled d path h =
      if-intro (λ (e : Discovery). P e.bound) (has_key path pre_launch) (λ e. h)
        (λ e. elim (Option-cases (native_session_id path)) [
          | inl no_id ↦ rw no_id h
          | inr (native, is) ↦ rw is (native_keeps cancelled d native h)
        ])

  scan_keeps :
      (cancelled : Bool) (d : Discovery) (paths : List Text)
      → P d.bound
      → P (scan native_session_id bind_session pre_launch cancelled d paths).bound
  unfolding scan
  scan_keeps cancelled d [] h = h
  scan_keeps cancelled d (path ∷ paths) h =
      scan_keeps cancelled (bind_path native_session_id bind_session pre_launch cancelled d path)
        paths (path_keeps cancelled d path h)

  passes_keep :
      (d : Discovery) (passes : List (List Text))
      → P d.bound
      → P (scan_passes native_session_id bind_session pre_launch d passes).bound
  unfolding scan_passes
  passes_keep d [] h = h
  passes_keep d (paths ∷ passes) h =
      passes_keep (scan native_session_id bind_session pre_launch false d paths) passes
        (scan_keeps false d paths h)

more :
    (key x : Text) (xs : List Text)
    → has_key x xs ≡ false
    → 1 ≤ occurrences key xs
    → 1 ≤ occurrences key (x ∷ xs)
more key x xs new h = ground arith

no : ◌≡◌ {A = Bool} false true → ⊥
no e = cc

-- The path is among those of a pass.
abbrev pub seen : Text → List (List Text) → Bool
seen path [] = false
seen path (paths ∷ passes) = if has_key path paths then true else seen path passes

module _ (native_session_id : Text → Option Text) (bind_session : Bool → Text → ℕ → Bool)
    (pre_launch : List Text) (path native : Text) where
  native_binds :
      (d : Discovery)
      → no_session native ≡ false
      → bind_session false native d.calls ≡ true
      → 1
        ≤ occurrences native
            (bind_native native_session_id bind_session pre_launch false d native).bound
  unfolding bind_native
  native_binds d named accepted = elim (Bool-cases (has_key native d.bound)) [
    | inl old ↦ rw (named, old) (present native d.bound old)
    | inr new ↦ rw (named, new, accepted) (rw ((list_eq_iff native native).1 refl) (omega arith))
  ]

  scan_binds :
      (d : Discovery) (paths : List Text)
      → native_session_id path ≡ some native
      → no_session native ≡ false
      → has_key path pre_launch ≡ false
      → ((n : ℕ) → bind_session false native n ≡ true)
      → has_key path paths ≡ true
      → 1 ≤ occurrences native (scan native_session_id bind_session pre_launch false d paths).bound
  unfolding scan has_key bind_path
  scan_binds d [] is named new accepts h = absurd (no h)
  scan_binds d (x ∷ paths) is named new accepts h = elim (Bool-cases (list_eq x path)) [
    | inl same ↦
        let e = (list_eq_iff x path).0 same in
        rw e (
          scan_keeps native_session_id bind_session pre_launch (λ bs. 1 ≤ occurrences native bs)
            (more native) false _ paths (rw (new, is) (native_binds d named (accepts d.calls))))
    | inr other ↦
        scan_binds (bind_path native_session_id bind_session pre_launch false d x) paths is named
          new accepts (rw other at h)
  ]

  passes_bind :
      (d : Discovery) (passes : List (List Text))
      → native_session_id path ≡ some native
      → no_session native ≡ false
      → has_key path pre_launch ≡ false
      → ((n : ℕ) → bind_session false native n ≡ true)
      → seen path passes ≡ true
      → 1
        ≤ occurrences native (scan_passes native_session_id bind_session pre_launch d passes).bound
  unfolding scan_passes
  passes_bind d [] is named new accepts h = absurd (no h)
  passes_bind d (paths ∷ passes) is named new accepts h = elim (Bool-cases (has_key path paths)) [
    | inl here ↦
        passes_keep native_session_id bind_session pre_launch (λ bs. 1 ≤ occurrences native bs)
          (more native) _ passes (scan_binds d paths is named new accepts here)
    | inr later ↦
        passes_bind (scan native_session_id bind_session pre_launch false d paths) passes is named
          new accepts (rw later at h)
  ]

  -- If the daemon accepts every call of the passes before the last one, the session of a file
  -- that was not there before the launch, and that one of those passes finds, is bound exactly
  -- once, whatever the passes find and the last one brings.
  pub discover_and_bind_once :
      (passes : List (List Text)) (last : List Text)
      → native_session_id path ≡ some native
      → no_session native ≡ false
      → has_key path pre_launch ≡ false
      → ((n : ℕ) → bind_session false native n ≡ true)
      → seen path passes ≡ true
      → occurrences native
          (discover_and_bind native_session_id bind_session pre_launch passes last).bound
        ≡ 1
  unfolding discover_and_bind
  discover_and_bind_once passes last is named new accepts h =
      let through = scan_passes native_session_id bind_session pre_launch undiscovered passes in
      let keeps = scan_keeps native_session_id bind_session pre_launch in
      let some_bound =
        keeps (λ bs. 1 ≤ occurrences native bs) (more native) true through last
          (passes_bind undiscovered passes is named new accepts h) in
      let few =
        keeps (λ bs. occurrences native bs ≤ 1) (fresh_head native) true through last
          (passes_keep native_session_id bind_session pre_launch (λ bs. occurrences native bs ≤ 1)
            (fresh_head native) undiscovered passes (omega arith)) in
      omega (arith, some_bound, few)
