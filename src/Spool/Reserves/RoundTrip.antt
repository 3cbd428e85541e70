-- ===== src/Spool/Reserves/RoundTrip.antt =====
-- The `reserves` sidecar is read back as the map that was written.
use gasworks.Prelude.{
  ℕ, suc, ◌+◌, ◌-◌, ◌≤◌, ◌≡◌, refl, sym, ap, ◌∙◌, Bool, false, List, [], ◌∷◌, ◌++◌, append_assoc,
  append-nil, none, some, ok, list_eq_iff, length, arith, take, drop, if◌then◌else◌, ltb, ◌==◌,
  ◌||◌, length-append, take-append_length, drop-append_length, All, inl, inr, Bool-cases,
}
use gasworks.Word.{IsNat63, slt}
use gasworks.Spool.Bytes.{put_be, get_be, slice, length-put_be, get_be-put_be}
use gasworks.Spool.Sealed.{with_crc, length-with_crc, take-with_crc_end, crc-with_crc_end}
use gasworks.Spool.Checks.{Checks}
use gasworks.Spool.Reserves.{
  Entry, lookup, is_open, insert_sorted, sort_strings, string_lt, entry_bytes, entries_bytes,
  decode_entries, max_run_id_len, max_reserve_entries, reserves_magic, encode_reserves,
  decode_reserves,
}
use gasworks.Spool.Reserves.Map.{
  Distinct, lookup-sort_strings, sort_strings-Distinct, lookup-none, lookup-append-inv, list_neq,
}

pub is_open-none : (id : List ℕ) (m : List Entry) → lookup id m ≡ none → is_open id m ≡ false
unfolding is_open
is_open-none id m h = rw (h, is_open) refl

-- An entry behind others has an id that none of them has.
fresh_in_front :
    (acc : List Entry) (x : Entry) (m : List Entry)
    → Distinct (acc ++ x ∷ m)
    → lookup x.run_id acc ≡ none
unfolding lookup
fresh_in_front [] x m d = refl
fresh_in_front (y ∷ acc) x m d =
    let apart = lookup-none y.run_id x m (lookup-append-inv y.run_id acc (x ∷ m) d.0) in
    rw
      (
        list_neq y.run_id x.run_id (λ e. ground (arith, (list_eq_iff x.run_id y.run_id).1 (sym e))),
        lookup,
      )
      (fresh_in_front acc x m d.1)

-- The tests of one round, all passed.
guards_off {ℓ} :
    {A : Type ℓ} (short negative empty big over dup : Bool) (fail out : A)
    → short ≡ false
    → negative ≡ false
    → empty ≡ false
    → big ≡ false
    → over ≡ false
    → dup ≡ false
    → (if short
        then fail
        else if negative || empty || big || over
        then fail
        else if dup
        then fail
        else out)
      ≡ out
guards_off short negative empty big over dup fail out h1 h2 h3 h4 h5 h6 =
    rw (h1, h2, h3, h4, h5, h6) refl

-- What one entry can hold.
pub record IsEntry (x : Entry) : Type 0 where
  pub nonempty : 1 ≤ length x.run_id
  pub bounded : length x.run_id ≤ max_run_id_len
  pub bytes : IsNat63 x.bytes

module _ (x : Entry) (rest : List ℕ) (good : IsEntry x) where
  length-entry_bytes : length (entry_bytes x ++ rest) ≡ 10 + length x.run_id + length rest
  unfolding put_be
  length-entry_bytes =
      omega (arith, length-append (entry_bytes x) rest, length-append x.run_id rest)

  bytes_read : get_be (take 8 (entry_bytes x ++ rest)) ≡ x.bytes
  unfolding put_be
  bytes_read = get_be-put_be 8 x.bytes (omega (arith, good.bytes))

  len_read : get_be (slice 8 2 (entry_bytes x ++ rest)) ≡ length x.run_id
  unfolding put_be
  len_read = get_be-put_be 2 (length x.run_id) (omega (arith, good.bounded))

  id_read : slice 10 (length x.run_id) (entry_bytes x ++ rest) ≡ x.run_id
  unfolding put_be
  id_read = take-append_length _ x.run_id rest refl

  entry_size : length (entry_bytes x) ≡ 10 + length x.run_id
  unfolding put_be
  entry_size = omega arith

  rest_read : drop (10 + length x.run_id) (entry_bytes x ++ rest) ≡ rest
  rest_read = drop-append_length _ (entry_bytes x) rest entry_size

  entry_round :
      (count : ℕ) (m : List Entry)
      → 4 ≤ length rest
      → lookup x.run_id m ≡ none
      → decode_entries (suc count) m (entry_bytes x ++ rest)
        ≡ decode_entries count (m ++ x ∷ []) rest
  unfolding decode_entries
  entry_round count m hl h =
      rw (len_read, id_read, bytes_read, rest_read)
        (guards_off (ltb (length (entry_bytes x ++ rest)) 14) (slt x.bytes 0) (length x.run_id == 0)
          (ltb max_run_id_len (length x.run_id))
          (ltb (length (entry_bytes x ++ rest)) (14 + length x.run_id)) (is_open x.run_id m) none
          (decode_entries count (m ++ x ∷ []) rest) (ground (arith, length-entry_bytes))
          (ground (arith, good.bytes)) (ground (arith, good.nonempty))
          (ground (arith, good.bounded)) (ground (arith, length-entry_bytes))
          (is_open-none x.run_id m h))

length-entries : (m : List Entry) (rest : List ℕ) → length rest ≤ length (entries_bytes m ++ rest)
length-entries m rest = omega (arith, length-append (entries_bytes m) rest)

-- The entry loop gives back the entries, in the order in which they stand.
decode_entries-entries_bytes :
    (acc m : List Entry) (rest : List ℕ)
    → 4 ≤ length rest
    → All IsEntry m
    → Distinct (acc ++ m)
    → decode_entries (length m) acc (entries_bytes m ++ rest) ≡ some (acc ++ m, rest)
decode_entries-entries_bytes acc [] rest hl he d = unfold decode_entries in rw append-nil
decode_entries-entries_bytes acc (x ∷ m) rest hl he d =
    ap (decode_entries (suc (length m)) acc) (append_assoc (entry_bytes x) (entries_bytes m) rest)
    ∙ entry_round x (entries_bytes m ++ rest) he.0 (length m) acc
        (omega (arith, length-entries m rest)) (fresh_in_front acc x m d)
    ∙ decode_entries-entries_bytes (acc ++ x ∷ []) m rest hl he.1
        (rw (append_assoc acc (x ∷ []) m) d)
    ∙ ap (λ l. some (l, rest)) (append_assoc acc (x ∷ []) m)

All-insert_sorted :
    (x : Entry) (m : List Entry) → IsEntry x → All IsEntry m → All IsEntry (insert_sorted x m)
unfolding insert_sorted
All-insert_sorted x [] hx h = (hx, tt)
All-insert_sorted x (y ∷ m) hx h = elim (Bool-cases (string_lt x.run_id y.run_id)) [
  | inl before ↦ rw (before, insert_sorted) (hx, h)
  | inr behind ↦ rw (behind, insert_sorted) (h.0, All-insert_sorted x m hx h.1)
]

All-sort_strings : (m : List Entry) → All IsEntry m → All IsEntry (sort_strings m)
unfolding sort_strings
All-sort_strings [] h = tt
All-sort_strings (x ∷ m) h = All-insert_sorted x (sort_strings m) h.0 (All-sort_strings m h.1)

length-insert_sorted : (x : Entry) (m : List Entry) → length (insert_sorted x m) ≡ 1 + length m
unfolding insert_sorted
length-insert_sorted x [] = refl
length-insert_sorted x (y ∷ m) = elim (Bool-cases (string_lt x.run_id y.run_id)) [
  | inl before ↦ rw (before, insert_sorted) (omega arith)
  | inr behind ↦ rw (behind, insert_sorted) (omega (arith, length-insert_sorted x m))
]

length-sort_strings : (m : List Entry) → length (sort_strings m) ≡ length m
unfolding sort_strings
length-sort_strings [] = refl
length-sort_strings (x ∷ m) =
    omega (arith, length-insert_sorted x (sort_strings m), length-sort_strings m)

-- A map that the sidecar can hold.
pub record IsLedger (m : List Entry) : Type 0 where
  pub entries : All IsEntry m
  pub distinct : Distinct m
  pub few : length m ≤ max_reserve_entries

module _ (c : Checks) (m : List Entry) (good : IsLedger m) where
  abbrev ledger_body : List ℕ
  ledger_body = put_be 4 reserves_magic ++ put_be 4 (length m) ++ entries_bytes (sort_strings m)

  count_read : get_be (slice 4 4 (encode_reserves c m)) ≡ length m
  unfolding encode_reserves put_be
  count_read = get_be-put_be 4 (length m) (omega (arith, good.few))

  magic_read : get_be (slice 0 4 (encode_reserves c m)) ≡ reserves_magic
  unfolding encode_reserves put_be
  magic_read = get_be-put_be 4 reserves_magic (omega arith)

  abbrev crc4 : List ℕ
  crc4 = put_be 4 (c.crc32c ledger_body)

  entries_read :
      drop 8 (encode_reserves c m)
      ≡ entries_bytes (sort_strings m) ++ put_be 4 (c.crc32c ledger_body)
  unfolding encode_reserves put_be
  entries_read = refl

  long : 12 ≤ length (encode_reserves c m)
  unfolding encode_reserves put_be
  long = omega (
    arith,
    length-append (entries_bytes (sort_strings m)) crc4,
    length-put_be 4 (c.crc32c ledger_body),
  )

  walked :
      decode_entries
        (length m)
        []
        (entries_bytes (sort_strings m) ++ put_be 4 (c.crc32c ledger_body))
      ≡ some (sort_strings m, put_be 4 (c.crc32c ledger_body))
  walked =
      ap
        (λ n.
          decode_entries n [] (entries_bytes (sort_strings m) ++ put_be 4 (c.crc32c ledger_body)))
        (sym (length-sort_strings m))
      ∙ decode_entries-entries_bytes [] (sort_strings m) (put_be 4 (c.crc32c ledger_body))
          (omega (arith, length-put_be 4 (c.crc32c ledger_body))) (All-sort_strings m good.entries)
          (sort_strings-Distinct m good.distinct)

  crc_read :
      c.crc32c (take (length (encode_reserves c m) - 4) (encode_reserves c m))
      ≡ get_be (take 4 crc4)
  unfolding encode_reserves
  crc_read =
      ap (λ n. c.crc32c (take n (with_crc c ledger_body)))
        (omega (arith, length-with_crc c ledger_body))
      ∙ ap c.crc32c (take-with_crc_end c ledger_body (length ledger_body) refl)
      ∙ sym (crc-with_crc_end c ledger_body (length ledger_body) refl)
      ∙ ap (λ d. get_be (take 4 d)) (drop-append_length _ ledger_body crc4 refl)

  decoded : decode_reserves c (encode_reserves c m) ≡ ok (sort_strings m)
  unfolding decode_reserves
  decoded =
      rw (count_read, magic_read, entries_read, walked)
        (ground (arith, long, crc_read, good.few, length-put_be 4 (c.crc32c ledger_body)))

  -- The sidecar of a map that it can hold (distinct ids of 1 to 256 bytes, at most 65536 of them,
  -- no negative reserve) decodes to the same map.
  pub decode_reserves-encode_reserves :
      (n : List Entry) × (decode_reserves c (encode_reserves c m) ≡ ok n)
      × ((id : List ℕ) → lookup id n ≡ lookup id m)
  decode_reserves-encode_reserves =
      (sort_strings m, decoded, λ id. lookup-sort_strings id m good.distinct)
