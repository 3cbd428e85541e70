-- ===== src/Spool/Reserves/Retry.antt =====
-- What a write of the `reserves` sidecar leaves behind, on disk and in memory.
use gasworks.Prelude.{
  ℕ, ◌≤◌, ◌≡◌, ◌≢◌, refl, sym, ap, ◌∙◌, ◌⊎◌, inl, inr, true, false, List, [], ◌∷◌, ◌++◌, Option,
  none, some, ok, list_eq, length, ltb, ◌<◌, All, All-append, Bool-cases, length-append, arith,
}
use gasworks.Word.{IsNat63}
use gasworks.Spool.Checks.{Checks}
use gasworks.Spool.AtomicWrite.{
  Call, Env, sync_dir, read_target, target_cases, atomic_write_file_all_or_nothing,
}
use gasworks.Spool.Reserves.{
  Entry, Reserves, ReserveError, persist_failed, reserve_run_id, lookup, is_open, delete,
  encode_reserves, read_reserves, persist, reserve, release, max_run_id_len, max_reserve_entries,
}
use gasworks.Spool.Reserves.Map.{lookup-append_same, Distinct-append, Distinct-delete}
use gasworks.Spool.Reserves.Settled.{is_open-some}
use gasworks.Spool.Reserves.RoundTrip.{IsEntry, IsLedger, decode_reserves-encode_reserves}

nonempty : (id : List ℕ) → list_eq id [] ≡ false → 1 ≤ length id
nonempty [] h = absurd (ground arith)
nonempty (b ∷ id) h = omega arith

not_open : (id : List ℕ) (m : List Entry) → is_open id m ≡ false → lookup id m ≡ none
unfolding is_open
not_open id m h = ground arith

length-delete : (id : List ℕ) (m : List Entry) → length (delete id m) ≤ length m
unfolding delete
length-delete id [] = omega arith
length-delete id (x ∷ m) = ground (arith, length-delete id m)

All-delete : (id : List ℕ) (m : List Entry) → All IsEntry m → All IsEntry (delete id m)
unfolding delete
All-delete id [] h = tt
All-delete id (x ∷ m) h = elim (Bool-cases (list_eq x.run_id id)) [
  | inl eq ↦ rw (eq, delete) (All-delete id m h.1)
  | inr ne ↦ rw (ne, delete) (h.0, All-delete id m h.1)
]

delete-IsLedger : (id : List ℕ) (m : List Entry) → IsLedger m → IsLedger (delete id m)
delete-IsLedger id m good = record {
  entries = All-delete id m good.entries;
  distinct = Distinct-delete id m good.distinct;
  few = omega (arith, length-delete id m, good.few);
}

module _ (c : Checks) where
  -- The sidecar on disk holds the map in memory.
  pub record IsDurable (r : Reserves) : Type 0 where
    pub stored : List Entry
    pub read : read_reserves c (read_target r.slot.target) ≡ ok stored
    pub same : (id : List ℕ) → lookup id stored ≡ lookup id r.open_runs

  persist-IsDurable :
      (e : Env) (r : Reserves)
      → IsLedger r.open_runs
      → (persist c e r).1 ≡ none
      → IsDurable (persist c e r).0
  unfolding persist read_reserves
  persist-IsDurable e r good h = elim (target_cases e (encode_reserves c r.open_runs) r.slot) [
    | inl (done, now) ↦
        let (n, decoded, same) = decode_reserves-encode_reserves c r.open_runs good in
        record { stored = n; read = rw now decoded; same = same }
    | inr (x, failed, left) ↦ absurd (ground (arith, failed, h))
  ]

  persist-open :
      (e : Env) (r : Reserves) → IsLedger r.open_runs → IsLedger (persist c e r).0.open_runs
  unfolding persist
  persist-open e r good = good

  -- The map after a run was added.
  abbrev pub with_run : Reserves → List ℕ → List Entry
  with_run r id = r.open_runs ++ record { run_id = id; bytes = r.fixed_reserve } ∷ []

  reserve_cases :
      (e : Env) (r : Reserves) (id : List ℕ)
      → (reserve c e r id ≡ (r, some reserve_run_id))
        ⊎ (reserve c e r id ≡ (r, none))
        ⊎ ((list_eq id [] ≡ false)
            × (ltb max_run_id_len (length id) ≡ false)
            × (is_open id r.open_runs ≡ false)
            × (reserve c e r id ≡ persist c e (record r { open_runs = with_run r id })))
  unfolding reserve
  reserve_cases e r id = ground arith

  release_cases :
      (e : Env) (r : Reserves) (id : List ℕ)
      → (release c e r id ≡ (r, none))
        ⊎ (release c e r id ≡ persist c e (record r { open_runs = delete id r.open_runs }))
  unfolding release
  release_cases e r id = ground arith

  with_run-IsLedger :
      (r : Reserves) (id : List ℕ)
      → IsLedger r.open_runs
      → IsNat63 r.fixed_reserve
      → length r.open_runs < max_reserve_entries
      → list_eq id [] ≡ false
      → ltb max_run_id_len (length id) ≡ false
      → is_open id r.open_runs ≡ false
      → IsLedger (with_run r id)
  with_run-IsLedger r id good hb few h1 h2 h3 = record {
    entries =
        All-append IsEntry r.open_runs _ good.entries
          (record { nonempty = nonempty id h1; bounded = ground arith; bytes = hb }, tt);
    distinct =
        Distinct-append id r.fixed_reserve r.open_runs (not_open id r.open_runs h3) good.distinct;
    few =
        omega
          (arith, length-append r.open_runs (record { run_id = id; bytes = r.fixed_reserve } ∷ []));
  }

  -- If the sidecar holds the map in memory, the map can be stored and has room for a run, and the
  -- fixed reserve is not negative, then after a `Reserve` that reports success the sidecar holds
  -- the map in memory again, and the map can be stored.
  pub reserve-IsDurable :
      (e : Env) (r : Reserves) (id : List ℕ)
      → IsLedger r.open_runs
      → IsNat63 r.fixed_reserve
      → length r.open_runs < max_reserve_entries
      → IsDurable r
      → (reserve c e r id).1 ≡ none
      → IsDurable (reserve c e r id).0 × IsLedger (reserve c e r id).0.open_runs
  reserve-IsDurable e r id good hb few before h = elim (reserve_cases e r id) [
    | inl bad ↦ absurd (cc (ap (λ (p : Reserves × Option ReserveError). p.1) bad))
    | inr (inl same) ↦ rw same (before, good)
    | inr (inr (h1, h2, h3, next)) ↦
        let more = with_run-IsLedger r id good hb few h1 h2 h3 in
        rw next (
          persist-IsDurable e (record r { open_runs = with_run r id }) more
              (ap (λ (p : Reserves × Option ReserveError). p.1) (sym next) ∙ h),
          persist-open e _ more,
        )
  ]

  -- If the sidecar holds the map in memory and the map can be stored, then the same is so after a
  -- `Release` that reports success.
  pub release-IsDurable :
      (e : Env) (r : Reserves) (id : List ℕ)
      → IsLedger r.open_runs
      → IsDurable r
      → (release c e r id).1 ≡ none
      → IsDurable (release c e r id).0 × IsLedger (release c e r id).0.open_runs
  release-IsDurable e r id good before h = elim (release_cases e r id) [
    | inl same ↦ rw same (before, good)
    | inr next ↦
        let less = delete-IsLedger id r.open_runs good in
        rw next (
          persist-IsDurable e (record r { open_runs = delete id r.open_runs }) less
              (ap (λ (p : Reserves × Option ReserveError). p.1) (sym next) ∙ h),
          persist-open e _ less,
        )
  ]

  -- A write that failed before the rename.
  persist_kept :
      (e : Env) (r : Reserves) (x : Call)
      → r.slot.temp ≡ none
      → (persist c e r).1 ≡ some (persist_failed x)
      → x ≢ sync_dir
      → (persist c e r).0.slot.target ≡ r.slot.target
  unfolding persist
  persist_kept e r x ht h hx =
      elim (atomic_write_file_all_or_nothing e (encode_reserves c r.open_runs) r.slot ht).0 [
        | inl (done, now) ↦ absurd (ground (arith, done, h))
        | inr (inl (failed, now)) ↦ absurd (ground (arith, failed, h, hx))
        | inr (inr (y, failed, ny, kept)) ↦ kept
      ]

  -- An open run is not written again.
  second :
      (e : Env) (r : Reserves) (id : List ℕ)
      → list_eq id [] ≡ false
      → ltb max_run_id_len (length id) ≡ false
      → is_open id r.open_runs ≡ true
      → reserve c e r id ≡ (r, none)
  unfolding reserve
  second e r id h1 h2 h3 = rw (h1, h2, h3, reserve) refl

  now_open :
      (e : Env) (r : Reserves) (id : List ℕ)
      → is_open id r.open_runs ≡ false
      → is_open id (persist c e (record r { open_runs = with_run r id })).0.open_runs ≡ true
  unfolding persist
  now_open e r id h =
      is_open-some id r.fixed_reserve (with_run r id)
        (lookup-append_same id r.fixed_reserve r.open_runs (not_open id r.open_runs h))

  -- With no temporary file left over: if a `Reserve` failed in a call before the directory's
  -- fsync, a second one for the same run reports success although the sidecar is still the one
  -- from before the first, whatever would have happened to a write.
  pub reserve_retry :
      (e e' : Env) (r : Reserves) (id : List ℕ) (x : Call)
      → r.slot.temp ≡ none
      → (reserve c e r id).1 ≡ some (persist_failed x)
      → x ≢ sync_dir
      → ((reserve c e' (reserve c e r id).0 id).1 ≡ none)
        × ((reserve c e' (reserve c e r id).0 id).0.slot.target ≡ r.slot.target)
  reserve_retry e e' r id x ht h hx = elim (reserve_cases e r id) [
    | inl bad ↦
        absurd (ground (arith, sym (ap (λ (p : Reserves × Option ReserveError). p.1) bad) ∙ h))
    | inr (inl same) ↦
        absurd (ground (arith, sym (ap (λ (p : Reserves × Option ReserveError). p.1) same) ∙ h))
    | inr (inr (h1, h2, h3, next)) ↦
        let r' = record r { open_runs = with_run r id } in
        rw next (
          ap (λ (p : Reserves × Option ReserveError). p.1)
              (second e' (persist c e r').0 id h1 h2 (now_open e r id h3)),
          ap (λ (p : Reserves × Option ReserveError). p.0.slot.target)
                (second e' (persist c e r').0 id h1 h2 (now_open e r id h3))
              ∙ persist_kept e r' x ht
                  (ap (λ (p : Reserves × Option ReserveError). p.1) (sym next) ∙ h) hx,
        )
  ]
