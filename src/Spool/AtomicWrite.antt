-- ===== src/Spool/AtomicWrite.antt =====
-- segment.go: `atomicWriteFile`, the replacement discipline of the sidecars. Every call of the
-- operating system may fail; what a failed write had got into the temporary file is a prefix.
use gasworks.Prelude.{
  ℕ, ◌≡◌, ◌≢◌, Bool, true, List, Option, none, some, if◌then◌else◌, take, arith, ◌⊎◌,
}
use gasworks.Spool.Sidecar.{FileRead, absent, content}

-- The calls, in the order in which they are made; `remove` is the clean-up's.
pub data Call : Type 0 where
  ensure_dir create_temp chmod write sync close rename sync_dir remove : Call

-- Which calls fail, and how many bytes a failed write puts down.
pub record Env : Type 0 where
  pub fails : Call → Bool
  pub short : ℕ

-- The file, and the temporary file beside it.
pub record Slot : Type 0 where
  pub target : Option (List ℕ)
  pub temp : Option (List ℕ)

-- What os.ReadFile of the target gives.
abbrev pub read_target : Option (List ℕ) → FileRead
read_target none = absent
read_target (some b) = content b

-- `cleanup`: the error of os.Remove is dropped.
cleanup : Env → Slot → Slot
cleanup e s = if e.fails remove then s else record s { temp = none }

-- The failed call, or none.
unfoldable pub atomic_write_file : Env → List ℕ → Slot → Slot × Option Call
unfolding cleanup
atomic_write_file e b s =
    let created = record s { temp = some List.[] } in
    let written = record s { temp = some b } in
    if e.fails ensure_dir
    then (s, some ensure_dir)
    else if e.fails create_temp
    then (s, some create_temp)
    else if e.fails chmod
    then (cleanup e created, some chmod)
    else if e.fails write
    then (cleanup e (record s { temp = some (take e.short b) }), some write)
    else if e.fails sync
    then (cleanup e written, some sync)
    else if e.fails close
    then (cleanup e written, some close)
    else if e.fails rename
    then (cleanup e written, some rename)
    else if e.fails sync_dir
    then (record { target = some b; temp = none }, some sync_dir)
    else (record { target = some b; temp = none }, none)

-- Where no temporary file is left over, and whichever calls fail, the target afterwards holds
-- what it held or the new bytes, whole. It holds the new bytes if no error is reported, and what
-- it held if the error is of a call before the directory's fsync. A temporary file is left only
-- where its removal failed.
pub atomic_write_file_all_or_nothing :
    (e : Env) (b : List ℕ) (s : Slot)
    → s.temp ≡ none
    → ((((atomic_write_file e b s).1 ≡ none) × ((atomic_write_file e b s).0.target ≡ some b))
        ⊎ (((atomic_write_file e b s).1 ≡ some sync_dir)
            × ((atomic_write_file e b s).0.target ≡ some b))
        ⊎ ((x : Call) × ((atomic_write_file e b s).1 ≡ some x)
            × (x ≢ sync_dir)
            × ((atomic_write_file e b s).0.target ≡ s.target)))
      × ((e.fails remove ≡ true) ⊎ ((atomic_write_file e b s).0.temp ≡ none))
unfolding atomic_write_file
atomic_write_file_all_or_nothing e b s h = ground arith

-- The same without the temporary file, and without saying which error leaves what.
pub target_cases :
    (e : Env) (b : List ℕ) (s : Slot)
    → (((atomic_write_file e b s).1 ≡ none) × ((atomic_write_file e b s).0.target ≡ some b))
      ⊎ ((x : Call) × ((atomic_write_file e b s).1 ≡ some x)
          × (((atomic_write_file e b s).0.target ≡ s.target)
              ⊎ ((atomic_write_file e b s).0.target ≡ some b)))
unfolding atomic_write_file
target_cases e b s = ground arith
