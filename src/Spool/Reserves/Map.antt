-- ===== src/Spool/Reserves/Map.antt =====
-- The entries as a map: lookup after each change, and after sorting.
use gasworks.Prelude.{
  ℕ, ◌≡◌, ◌⊎◌, inl, inr, ◌≢◌, refl, sym, ap, ◌∙◌, true, false, Bool-cases, List, [], ◌∷◌, ◌++◌,
  none, some, list_eq, list_eq_iff, list_eq_refl, arith, if◌then◌else◌,
}
use gasworks.Spool.Reserves.{Entry, lookup, delete, insert_sorted, sort_strings, string_lt}

-- The ids are distinct.
abbrev pub Distinct : List Entry → Type 0
Distinct [] = Unit
Distinct (x ∷ m) = (lookup x.run_id m ≡ none) × Distinct m

pub list_neq : (a b : List ℕ) → a ≢ b → list_eq a b ≡ false
list_neq a b h = elim (Bool-cases (list_eq a b)) [
  | inl eq ↦ absurd (h ((list_eq_iff a b).0 eq))
  | inr ne ↦ ne
]

pub key_cases :
    (a b : List ℕ) → ((a ≡ b) × (list_eq a b ≡ true)) ⊎ ((a ≢ b) × (list_eq a b ≡ false))
key_cases a b = elim (Bool-cases (list_eq a b)) [
  | inl eq ↦ inl ((list_eq_iff a b).0 eq, eq)
  | inr ne ↦ inr (λ e. ground (arith, (list_eq_iff a b).1 e), ne)
]

pub lookup-none :
    (id : List ℕ) (y : Entry) (m : List Entry)
    → lookup id (y ∷ m) ≡ none
    → (list_eq y.run_id id ≡ false) × (lookup id m ≡ none)
unfolding lookup
lookup-none id y m h = ground arith

pub lookup-append-none :
    (id : List ℕ) (m n : List Entry) → lookup id m ≡ none → lookup id (m ++ n) ≡ lookup id n
unfolding lookup
lookup-append-none id [] n h = refl
lookup-append-none id (x ∷ m) n h = elim (Bool-cases (list_eq x.run_id id)) [
  | inl eq ↦ absurd (ground (arith, lookup-none id x m h))
  | inr ne ↦ rw (ne, lookup) (lookup-append-none id m n (lookup-none id x m h).1)
]

pub lookup-append-inv :
    (id : List ℕ) (m n : List Entry) → lookup id (m ++ n) ≡ none → lookup id n ≡ none
unfolding lookup
lookup-append-inv id [] n h = h
lookup-append-inv id (x ∷ m) n h = lookup-append-inv id m n (lookup-none id x (m ++ n) h).1

-- A new entry at the end.
pub lookup-append_same :
    (id : List ℕ) (v : ℕ) (m : List Entry)
    → lookup id m ≡ none
    → lookup id (m ++ record { run_id = id; bytes = v } ∷ []) ≡ some v
unfolding lookup
lookup-append_same id v m h = lookup-append-none id m _ h ∙ rw (list_eq_refl id, lookup) refl

pub lookup-append_other :
    (id other : List ℕ) (v : ℕ) (m : List Entry)
    → other ≢ id
    → lookup other (m ++ record { run_id = id; bytes = v } ∷ []) ≡ lookup other m
unfolding lookup
lookup-append_other id other v [] h = rw (list_neq id other (λ e. h (sym e)), lookup) refl
lookup-append_other id other v (x ∷ m) h = elim (Bool-cases (list_eq x.run_id other)) [
  | inl eq ↦ rw (eq, lookup) refl
  | inr ne ↦ rw (ne, lookup) (lookup-append_other id other v m h)
]

pub lookup-delete_same : (id : List ℕ) (m : List Entry) → lookup id (delete id m) ≡ none
unfolding lookup delete
lookup-delete_same id [] = refl
lookup-delete_same id (x ∷ m) = elim (Bool-cases (list_eq x.run_id id)) [
  | inl eq ↦ rw (eq, delete) (lookup-delete_same id m)
  | inr ne ↦ rw (ne, delete, ne, lookup) (lookup-delete_same id m)
]

pub lookup-delete_other :
    (id other : List ℕ) (m : List Entry) → other ≢ id → lookup other (delete id m) ≡ lookup other m
unfolding lookup delete
lookup-delete_other id other [] h = refl
lookup-delete_other id other (x ∷ m) h = elim (Bool-cases (list_eq x.run_id id)) [
  | inl eq ↦
      let ne : list_eq x.run_id other ≡ false =
        list_neq x.run_id other (λ e. h (sym e ∙ (list_eq_iff x.run_id id).0 eq)) in
      rw (eq, delete, ne, lookup) (lookup-delete_other id other m h)
  | inr keep ↦ elim (Bool-cases (list_eq x.run_id other)) [
    | inl eq ↦ rw (keep, delete, eq, lookup) refl
    | inr ne ↦ rw (keep, delete, ne, lookup) (lookup-delete_other id other m h)
  ]
]

pub Distinct-delete : (id : List ℕ) (m : List Entry) → Distinct m → Distinct (delete id m)
unfolding delete
Distinct-delete id [] d = tt
Distinct-delete id (x ∷ m) d = elim (Bool-cases (list_eq x.run_id id)) [
  | inl eq ↦ rw (eq, delete) (Distinct-delete id m d.1)
  | inr ne ↦
      rw (ne, delete)
        (
          lookup-delete_other id x.run_id m
                (λ e. absurd (ground (arith, (list_eq_iff x.run_id id).1 e)))
              ∙ d.0,
          Distinct-delete id m d.1,
        )
]

pub Distinct-append :
    (id : List ℕ) (v : ℕ) (m : List Entry)
    → lookup id m ≡ none
    → Distinct m
    → Distinct (m ++ record { run_id = id; bytes = v } ∷ [])
unfolding lookup
Distinct-append id v [] h d = (refl, tt)
Distinct-append id v (x ∷ m) h d =
    let (ne, above) = lookup-none id x m h in
    (
      lookup-append_other id x.run_id v m
            (λ e. absurd (ground (arith, (list_eq_iff x.run_id id).1 e)))
          ∙ d.0,
      Distinct-append id v m above d.1,
    )

-- Sorting keeps the map.
lookup-insert_sorted :
    (id : List ℕ) (x : Entry) (m : List Entry)
    → lookup x.run_id m ≡ none
    → lookup id (insert_sorted x m) ≡ lookup id (x ∷ m)
unfolding lookup insert_sorted
lookup-insert_sorted id x [] h = refl
lookup-insert_sorted id x (y ∷ m) h = elim (Bool-cases (string_lt x.run_id y.run_id)) [
  | inl before ↦ rw (before, insert_sorted) refl
  | inr behind ↦
      let more = lookup-insert_sorted id x m (lookup-none x.run_id y m h).1 in
      elim (key_cases y.run_id id) [
        | inl (same, eq) ↦
            let ne : list_eq x.run_id id ≡ false = list_neq x.run_id id (λ e. absurd (
              ground (
                arith,
                lookup-none x.run_id y m h,
                (list_eq_iff y.run_id x.run_id).1 (same ∙ sym e),
              ))) in
            rw (behind, insert_sorted, eq, lookup, ne, lookup) refl
        | inr (other, ne) ↦ rw (behind, insert_sorted, ne, lookup) more
      ]
]

pub lookup-sort_strings :
    (id : List ℕ) (m : List Entry) → Distinct m → lookup id (sort_strings m) ≡ lookup id m
unfolding lookup sort_strings
lookup-sort_strings id [] d = refl
lookup-sort_strings id (x ∷ m) d =
    lookup-insert_sorted id x (sort_strings m) (lookup-sort_strings x.run_id m d.1 ∙ d.0)
    ∙ ap (λ l. if list_eq x.run_id id then some x.bytes else l) (lookup-sort_strings id m d.1)

Distinct-insert_sorted :
    (x : Entry) (m : List Entry)
    → lookup x.run_id m ≡ none
    → Distinct m
    → Distinct (insert_sorted x m)
unfolding insert_sorted
Distinct-insert_sorted x [] h d = (h, tt)
Distinct-insert_sorted x (y ∷ m) h d = elim (Bool-cases (string_lt x.run_id y.run_id)) [
  | inl before ↦ rw (before, insert_sorted) (h, d)
  | inr behind ↦
      let (ne, fresh) = lookup-none x.run_id y m h in
      rw (behind, insert_sorted)
        (
          lookup-insert_sorted y.run_id x m fresh
              ∙ (unfold lookup in
                  rw
                    (
                      list_neq x.run_id y.run_id
                          (λ e. absurd (ground (arith, (list_eq_iff y.run_id x.run_id).1 (sym e)))),
                      lookup,
                    )
                    d.0),
          Distinct-insert_sorted x m fresh d.1,
        )
]

pub sort_strings-Distinct : (m : List Entry) → Distinct m → Distinct (sort_strings m)
unfolding sort_strings
sort_strings-Distinct [] d = tt
sort_strings-Distinct (x ∷ m) d =
    Distinct-insert_sorted x (sort_strings m) (lookup-sort_strings x.run_id m d.1 ∙ d.0)
      (sort_strings-Distinct m d.1)
