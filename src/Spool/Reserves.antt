-- ===== src/Spool/Reserves.antt =====
-- capacity.go: the ledger of terminal reserves and its `reserves` sidecar. A Go map is the list of
-- its entries; the order in which a `range` visits them is that of the list, whatever it is.
pub mod Map
pub mod RoundTrip
pub mod Reconcile
pub mod Settled
pub mod Retry
use gasworks.Prelude.{
  ℕ, zero, suc, ◌+◌, ◌-◌, Bool, true, false, not, ◌||◌, ◌&&◌, List, [], ◌∷◌, ◌++◌, Option, none,
  some, Result, ok, err, ltb, ◌==◌, if◌then◌else◌, length, take, drop, list_eq,
}
use gasworks.Word.{slt, add64}
use gasworks.Spool.Bytes.{put_be, get_be, slice}
use gasworks.Spool.Sealed.{with_crc}
use gasworks.Spool.Checks.{Checks}
use gasworks.Spool.Sidecar.{
  SidecarError, FileRead, absent, content, unreadable, checksum_mismatch, read_failed,
}
use gasworks.Spool.AtomicWrite.{Call, Env, Slot, read_target, atomic_write_file}

-- "ORS1"
abbrev pub reserves_magic : ℕ
reserves_magic = 0x4F525331

-- 1 << 16
abbrev pub max_reserve_entries : ℕ
max_reserve_entries = 65536

abbrev pub max_run_id_len : ℕ
max_run_id_len = 256

-- A run id and its bytes.
pub record Entry : Type 0 where
  pub run_id : List ℕ
  pub bytes : ℕ

-- The comma-ok read of a map.
unfoldable pub lookup : List ℕ → List Entry → Option ℕ
lookup id [] = none
lookup id (x ∷ m) = if list_eq x.run_id id then some x.bytes else lookup id m

unfoldable pub is_open : List ℕ → List Entry → Bool
is_open id m = elim (lookup id m) [ none ↦ false | some n ↦ true ]

-- delete(open, id)
unfoldable pub delete : List ℕ → List Entry → List Entry
delete id [] = []
delete id (x ∷ m) = let rest = delete id m in if list_eq x.run_id id then rest else x ∷ rest

-- The order of strings, byte by byte.
unfoldable pub string_lt : List ℕ → List ℕ → Bool
string_lt [] [] = false
string_lt [] (b ∷ ys) = true
string_lt (a ∷ xs) [] = false
string_lt (a ∷ xs) (b ∷ ys) = ltb a b || (a == b && string_lt xs ys)

-- sort.Strings, on the entries of the ids.
unfoldable pub insert_sorted : Entry → List Entry → List Entry
insert_sorted x [] = x ∷ []
insert_sorted x (y ∷ m) =
    let rest = insert_sorted x m in if string_lt x.run_id y.run_id then x ∷ y ∷ m else y ∷ rest

unfoldable pub sort_strings : List Entry → List Entry
sort_strings [] = []
sort_strings (x ∷ m) = insert_sorted x (sort_strings m)

abbrev pub entry_bytes : Entry → List ℕ
entry_bytes x = put_be 8 x.bytes ++ put_be 2 (length x.run_id) ++ x.run_id

abbrev pub entries_bytes : List Entry → List ℕ
entries_bytes [] = []
entries_bytes (x ∷ m) = entry_bytes x ++ entries_bytes m

pub data ReserveError : Type 0 where
  reserve_run_id : ReserveError
  persist_failed : Call → ReserveError

-- `slot` is the sidecar file under `dir`.
pub record Reserves : Type 0 where
  pub slot : Slot
  pub fixed_reserve : ℕ
  pub open_runs : List Entry

-- The entry loop of `decodeReserves`, over what is left of the data, which ends in the 4 bytes of the
-- checksum: the entries, and what is left behind the last.
unfoldable pub decode_entries : ℕ → List Entry → List ℕ → Option (List Entry × List ℕ)
decode_entries zero m d = some (m, d)
decode_entries (suc count) m d =
    let id_len = get_be (slice 8 2 d) in
    let id = slice 10 id_len d in
    let rest =
      decode_entries count (m ++ record { run_id = id; bytes = get_be (take 8 d) } ∷ [])
        (drop (10 + id_len) d) in
    if ltb (length d) 14
    then none
    else if slt (get_be (take 8 d)) 0
        || id_len == 0
        || ltb max_run_id_len id_len
        || ltb (length d) (14 + id_len)
    then none
    else if is_open id m
    then none
    else rest

module _ (c : Checks) where
  unfoldable pub encode_reserves : List Entry → List ℕ
  encode_reserves m =
      with_crc c (put_be 4 reserves_magic ++ put_be 4 (length m) ++ entries_bytes (sort_strings m))

  unfoldable pub decode_reserves : List ℕ → Result SidecarError (List Entry)
  decode_reserves d =
      let count = get_be (slice 4 4 d) in
      if ltb (length d) 12
      then err checksum_mismatch
      else if not (get_be (slice 0 4 d) == reserves_magic)
      then err checksum_mismatch
      else if ltb max_reserve_entries count
      then err checksum_mismatch
      else elim (decode_entries count [] (drop 8 d)) [
        | none ↦ err checksum_mismatch
        | some (m, rest) ↦
            if not (length rest == 4)
            then err checksum_mismatch
            else if not (c.crc32c (take (length d - 4) d) == get_be (take 4 rest))
            then err checksum_mismatch
            else ok m
      ]

  -- Without a file the map is nil, which `LoadReserves` makes an empty one.
  unfoldable pub read_reserves : FileRead → Result SidecarError (List Entry)
  read_reserves absent = ok []
  read_reserves (content d) = decode_reserves d
  read_reserves unreadable = err read_failed

  unfoldable pub load_reserves : Slot → ℕ → Result SidecarError Reserves
  load_reserves s fixed = elim (read_reserves (read_target s.target)) [
    | err e ↦ err e
    | ok m ↦ ok (record { slot = s; fixed_reserve = fixed; open_runs = m })
  ]

  -- The write of the open set.
  unfoldable pub persist : Env → Reserves → Reserves × Option ReserveError
  persist e r =
      let (slot', failed) = atomic_write_file e (encode_reserves r.open_runs) r.slot in
      (record r { slot = slot' }, elim failed [ none ↦ none | some x ↦ some (persist_failed x) ])

  unfoldable pub reserve : Env → Reserves → List ℕ → Reserves × Option ReserveError
  unfolding persist
  reserve e r id =
      if list_eq id [] || ltb max_run_id_len (length id)
      then (r, some reserve_run_id)
      else if is_open id r.open_runs
      then (r, none)
      else persist e (record r {
        open_runs = r.open_runs ++ record { run_id = id; bytes = r.fixed_reserve } ∷ [];
      })

  unfoldable pub release : Env → Reserves → List ℕ → Reserves × Option ReserveError
  unfolding persist
  release e r id =
      if not (is_open id r.open_runs)
      then (r, none)
      else persist e (record r { open_runs = delete id r.open_runs })

unfoldable pub open_reserve_bytes : List Entry → ℕ
open_reserve_bytes [] = 0
open_reserve_bytes (x ∷ m) = add64 x.bytes (open_reserve_bytes m)
