-- ===== src/Upload/Store.antt =====
-- upload/batch.go: `SpoolFrameStore`, the planner's store over the segments of the log. What a read of
-- the directory gives is an argument; `sort.Slice` is an insertion sort, which agrees with it where
-- no two names carry the same sequence.
pub mod Windows
pub mod Contract
pub mod Planner
use gasworks.Prelude.{
  ℕ, Bool, true, false, ◌||◌, List, [], ◌∷◌, ◌++◌, Option, none, some, Result, ok, err,
  if◌then◌else◌,
}
use gasworks.Word.{slt}
use gasworks.Spool.Checks.{Checks}
use gasworks.Spool.Compact.{trim_suffix, parse_int}
use gasworks.Spool.Frame.{Frame, sequence_min}
use gasworks.Spool.Segment.{open_segment, read_all}
use gasworks.Upload.Batch.{Record}

pub record DirEntry : Type 0 where
  pub name : List ℕ
  pub is_dir : Bool
  pub bytes : List ℕ

-- os.ReadDir: fs.ErrNotExist, another error, or the entries.
pub data Listing : Type 0 where
  missing unreadable : Listing
  entries : List DirEntry → Listing

-- A segment: the first sequence that its name carries, and its bytes.
pub record SegmentRef : Type 0 where
  pub first : ℕ
  pub bytes : List ℕ

-- The loop over the entries; none is a name that does not parse.
unfoldable pub segment_refs : List DirEntry → Option (List SegmentRef)
segment_refs [] = some []
segment_refs (e ∷ es) =
    let rest = segment_refs es in
    if e.is_dir then rest else elim (trim_suffix e.name) [
      | none ↦ rest
      | some stem ↦ elim (parse_int stem) [
        | none ↦ none
        | some n ↦ elim rest [
          | none ↦ none
          | some refs ↦ some (record { first = n; bytes = e.bytes } ∷ refs)
        ]
      ]
    ]

unfoldable pub insert_ref : SegmentRef → List SegmentRef → List SegmentRef
insert_ref x [] = x ∷ []
insert_ref x (y ∷ ys) =
    let rest = insert_ref x ys in if slt y.first x.first then y ∷ rest else x ∷ y ∷ ys

unfoldable pub sort_refs : List SegmentRef → List SegmentRef
unfolding insert_ref
sort_refs [] = []
sort_refs (x ∷ xs) = insert_ref x (sort_refs xs)

-- None is an error.
unfoldable pub list_segment_paths : Listing → Option (List SegmentRef)
list_segment_paths missing = some []
list_segment_paths unreadable = none
list_segment_paths (entries es) = elim (segment_refs es) [
  | none ↦ none
  | some refs ↦ some (sort_refs refs)
]

-- The frames within [first, last].
unfoldable pub window : ℕ → ℕ → List Frame → List Record
window first last [] = []
window first last (f ∷ fs) =
    let rest = window first last fs in
    if slt f.sequence first || slt last f.sequence
    then rest
    else record { sequence = f.sequence; payload = f.payload } ∷ rest

module _ (c : Checks) where
  unfoldable pub read_segment_frames : SegmentRef → Option (List Frame)
  read_segment_frames s = elim (open_segment c s.bytes 0) [
    | err e ↦ none
    | ok seg ↦ elim (read_all c seg) [ err e ↦ none | ok frames ↦ some frames ]
  ]

  -- The loop over the segments; none is an error.
  unfoldable pub read_segments : ℕ → ℕ → List SegmentRef → Option (List Record)
  read_segments first last [] = some []
  read_segments first last (s ∷ ss) =
      let rest = read_segments first last ss in
      if slt last s.first then some [] else elim (read_segment_frames s) [
        | none ↦ none
        | some frames ↦ elim rest [
          | none ↦ none
          | some records ↦ some (window first last frames ++ records)
        ]
      ]

  unfoldable pub read_range : Listing → ℕ → ℕ → Option (List Record)
  read_range wal first last =
      if slt first sequence_min || slt last first
      then none
      else elim (list_segment_paths wal) [ none ↦ none | some segs ↦ read_segments first last segs ]
