-- ===== src/Spool/Compact.antt =====
-- compact.go: `Compact` over the segments in the order of `listSegments`, each with the first
-- sequence that its name carries, and `ReclaimEmptyTrailingSegment`.
pub mod Prefix
use gasworks.Prelude.{
  ℕ, zero, suc, ◌+◌, ◌-◌, ◌≤◌, ◌<◌, ◌≡◌, refl, sym, ap, ◌∙◌, ◌⊎◌, inl, inr, Bool, Bool-cases, true,
  false, not, List, [], ◌∷◌, ◌++◌, Option, none, some, length, if◌then◌else◌, arith, leb, ltb, ◌==◌,
  ◌||◌, ◌*◌, take, drop, list_eq,
}
use gasworks.Word.{max_int64, slt, sub64, add64}

-- A segment file: its name and its size (none if os.Stat fails).
pub record Named : Type 0 where
  pub name : List ℕ
  pub size : Option ℕ

-- The same with the first sequence that its name carries.
pub record SegFile : Type 0 where
  pub name : List ℕ
  pub size : Option ℕ
  pub first : ℕ

-- ".seg"
abbrev pub seg_suffix : List ℕ
seg_suffix = 46 ∷ 115 ∷ 101 ∷ 103 ∷ []

-- strings.TrimSuffix(base, ".seg"), if it is there.
unfoldable pub trim_suffix : List ℕ → Option (List ℕ)
trim_suffix base =
    if ltb (length base) 4
    then none
    else if list_eq (drop (length base - 4) base) seg_suffix
    then some (take (length base - 4) base)
    else none

unfoldable pub parse_digits : ℕ → List ℕ → Option ℕ
parse_digits n [] = some n
parse_digits n (b ∷ s) =
    let rest = parse_digits (n * 10 + (b - 48)) s in if ltb b 48 || ltb 57 b then none else rest

-- strconv.ParseInt(stem, 10, 64): an optional sign and digits, within the range of int64.
unfoldable pub parse_int : List ℕ → Option ℕ
unfolding parse_digits
parse_int [] = none
parse_int (b ∷ s) =
    let digits = if b == 43 || b == 45 then s else b ∷ s in
    if list_eq digits [] then none else elim (parse_digits 0 digits) [
      | none ↦ none
      | some n ↦
          if b == 45
          then if ltb 9223372036854775808 n then none else some (sub64 0 n)
          else if ltb max_int64 n
          then none
          else some n
    ]

unfoldable pub parse_segment_first_sequence : List ℕ → Option ℕ
unfolding trim_suffix parse_int
parse_segment_first_sequence base = elim (trim_suffix base) [
  | none ↦ none
  | some stem ↦ parse_int stem
]

-- The first sequences of all the names, or none if one does not parse.
unfoldable pub first_sequences : List Named → Option (List SegFile)
unfolding parse_segment_first_sequence
first_sequences [] = some []
first_sequences (x ∷ xs) =
    let rest = first_sequences xs in
    elim (parse_segment_first_sequence x.name) [
      | none ↦ none
      | some v ↦ elim rest [
        | none ↦ none
        | some l ↦ some (record { name = x.name; size = x.size; first = v } ∷ l)
      ]
    ]

pub data CompactError : Type 0 where
  remove_failed sync_failed bad_name : CompactError

-- What a call reports, and the segments that are left.
pub record Compaction : Type 0 where
  pub removed_segments : List SegFile
  pub removed_bytes : ℕ
  pub remaining_segments : ℕ
  pub wal : List SegFile
  pub failed : Option CompactError

-- The files without what their names carry.
abbrev pub named : List SegFile → List Named
named [] = []
named (x ∷ xs) = record { name = x.name; size = x.size } ∷ named xs

abbrev pub size_of : Option ℕ → ℕ
size_of none = 0
size_of (some n) = n

-- Whether the removal, and the fsync of the directory behind it, fail for the segment.
module _ (remove_fails sync_fails : SegFile → Bool) where
  -- The loop, with what it has removed so far: it ends at the last segment.
  unfoldable pub compact_loop : ℕ → List SegFile → ℕ → ℕ → List SegFile → Compaction
  compact_loop ack removed bytes remaining [] = record {
    removed_segments = removed;
    removed_bytes = bytes;
    remaining_segments = remaining;
    wal = [];
    failed = none;
  }
  compact_loop ack removed bytes remaining (x ∷ []) = record {
    removed_segments = removed;
    removed_bytes = bytes;
    remaining_segments = remaining;
    wal = x ∷ [];
    failed = none;
  }
  compact_loop ack removed bytes remaining (x ∷ y ∷ xs) =
      let rest =
        compact_loop ack (removed ++ x ∷ []) (add64 bytes (size_of x.size)) (remaining - 1)
          (y ∷ xs) in
      if slt ack (sub64 y.first 1)
      then record {
        removed_segments = removed;
        removed_bytes = bytes;
        remaining_segments = remaining;
        wal = x ∷ y ∷ xs;
        failed = none;
      }
      else if remove_fails x
      then record {
        removed_segments = removed;
        removed_bytes = bytes;
        remaining_segments = remaining;
        wal = x ∷ y ∷ xs;
        failed = some remove_failed;
      }
      else if sync_fails x
      then record {
        removed_segments = removed;
        removed_bytes = bytes;
        remaining_segments = remaining;
        wal = y ∷ xs;
        failed = some sync_failed;
      }
      else rest

  -- What is reported, and what is left in the directory. With fewer than two segments the names are
  -- not looked at.
  unfoldable pub compact : ℕ → List Named → Compaction × List Named
  unfolding compact_loop first_sequences
  compact ack xs =
      let nothing : Compaction = record {
        removed_segments = [];
        removed_bytes = 0;
        remaining_segments = length xs;
        wal = [];
        failed = none;
      } in
      if ltb (length xs) 2 then (nothing, xs) else elim (first_sequences xs) [
        | none ↦ (record nothing { remaining_segments = 0; failed = some bad_name }, xs)
        | some fs ↦ let r = compact_loop ack [] 0 (length xs) fs in (r, named r.wal)
      ]
