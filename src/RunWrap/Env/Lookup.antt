-- ===== src/RunWrap/Env/Lookup.antt =====
-- What a child reads back.
use gasworks.Prelude.{
  ◌≡◌, ◌≢◌, refl, sym, inl, inr, Bool, true, false, List, [], ◌∷◌, ◌++◌, if◌then◌else◌, arith, drop,
  length, has_prefix, has_prefix-append, Bool-cases, All, drop-append_length, list_eq, list_eq_iff,
  ap, subst,
}
use gasworks.RunWrap.Env.{
  Text, run_id_env_var, assignment, without_key, without_run_id, with_run_id, env_lookup,
}

-- A key has no equals sign.
abbrev pub IsKey : Text → Type 0
IsKey = All (λ c. c ≢ 61)

lookup_without :
    (key : Text) (env : List Text) (last : Text)
    → env_lookup (without_key (assignment key) env ++ (assignment key ++ last) ∷ []) key ≡ last
unfolding env_lookup without_key
lookup_without key [] last =
    rw (has_prefix-append (assignment key) last)
      (drop-append_length (length (assignment key)) (assignment key) last refl)
lookup_without key (kv ∷ env) last = elim (Bool-cases (has_prefix kv (assignment key))) [
  | inl own ↦ rw own (lookup_without key env last)
  | inr other ↦ rw other (rw other (lookup_without key env last))
]

-- A text assigns one key.
one_assignment :
    (kv k j : Text)
    → IsKey k
    → IsKey j
    → has_prefix kv (assignment k) ≡ true
    → has_prefix kv (assignment j) ≡ true
    → k ≡ j
one_assignment kv [] [] hk hj p q = refl
one_assignment [] [] (c ∷ j) hk hj p q = cc
one_assignment (d ∷ kv) [] (c ∷ j) hk hj p q = ground (arith, hj.0)
one_assignment [] (c ∷ k) j hk hj p q = cc
one_assignment (d ∷ kv) (c ∷ k) [] hk hj p q = ground (arith, hk.0)
one_assignment (d ∷ kv) (c ∷ k) (b ∷ j) hk hj p q = ground (arith, one_assignment kv k j hk.1 hj.1)

differ : ◌≡◌ {A = Bool} true false → ⊥
differ e = cc

other_lookup :
    (own key : Text) (env : List Text) (last : Text)
    → IsKey own
    → IsKey key
    → own ≢ key
    → env_lookup (without_key (assignment own) env ++ (assignment own ++ last) ∷ []) key
      ≡ env_lookup env key
unfolding env_lookup without_key
other_lookup own key [] last ho hk ne =
    elim (Bool-cases (has_prefix (assignment own ++ last) (assignment key))) [
      | inl clash ↦ absurd (
          ne (
            one_assignment (assignment own ++ last) own key ho hk
              (has_prefix-append (assignment own) last) clash))
      | inr apart ↦ rw apart refl
    ]
other_lookup own key (kv ∷ env) last ho hk ne =
    let ih = other_lookup own key env last ho hk ne in
    elim (Bool-cases (has_prefix kv (assignment own))) [
      | inl mine ↦ elim (Bool-cases (has_prefix kv (assignment key))) [
        | inl clash ↦ absurd (ne (one_assignment kv own key ho hk mine clash))
        | inr apart ↦ rw (mine, apart) ih
      ]
      | inr kept ↦ rw kept (
          ap (λ t. if has_prefix kv (assignment key) then drop (length (assignment key)) kv else t)
            ih)
    ]

-- In the environment of the child a key without an equals sign reads as it did in the base
-- environment, but the run id's variable, which reads as the new run id whatever was inherited.
pub env_lookup-with_run_id :
    (env : List Text) (run_id key : Text)
    → IsKey key
    → env_lookup (with_run_id env run_id) key
      ≡ (if list_eq run_id_env_var key then run_id else env_lookup env key)
unfolding with_run_id without_run_id
env_lookup-with_run_id env run_id key hk = elim (Bool-cases (list_eq run_id_env_var key)) [
  | inl same ↦ rw same (
      subst
        (λ k.
          env_lookup
            (without_key (assignment run_id_env_var) env
              ++ (assignment run_id_env_var ++ run_id) ∷ [])
            k
          ≡ run_id)
        ((list_eq_iff run_id_env_var key).0 same) (lookup_without run_id_env_var env run_id))
  | inr other ↦ rw other (
      other_lookup run_id_env_var key env run_id (omega arith) hk
        (λ e. differ (rw (sym ((list_eq_iff run_id_env_var key).1 e)) other)))
]
