-- ===== src/Daemon/Registry/Replay.antt =====
-- daemon/registry.go: ReplayWAL, which rebuilds the registry from the segments on disk.
-- `decode` is the generated UnmarshalJSON of a payload.
use gasworks.Prelude.{
  ℕ, Bool, not, ◌&&◌, List, [], ◌∷◌, Option, none, some, Result, ok, err, if◌then◌else◌, codes,
  has_suffix,
}
use gasworks.Spool.Checks.{Checks}
use gasworks.Spool.Frame.{Frame}
use gasworks.Spool.Segment.{OpenError, open_segment, read_all}
use gasworks.Spool.Reserves.{string_lt}
use gasworks.Daemon.Registry.{Text, Observation, Registry, FoldError, fold}

-- An entry of the directory, with the file's bytes, and whether closing it reports an error.
pub record DirEntry : Type 0 where
  pub name : Text
  pub is_dir : Bool
  pub bytes : List ℕ
  pub close_fails : Bool

pub data ListError : Type 0 where
  not_exist unreadable : ListError

pub data ReplayError : Type 0 where
  list_failed decode_failed close_failed : ReplayError
  open_failed read_failed : OpenError → ReplayError
  fold_failed : FoldError → ReplayError

-- filepath.Ext(name) == ".seg"
is_segment : DirEntry → Bool
is_segment e = not e.is_dir && has_suffix e.name (codes ".seg")

unfoldable pub segments : List DirEntry → List DirEntry
unfolding is_segment
segments [] = []
segments (e ∷ es) = let rest = segments es in if is_segment e then e ∷ rest else rest

-- sort.Strings, on the entries of the names
unfoldable pub insert_name : DirEntry → List DirEntry → List DirEntry
insert_name e [] = e ∷ []
insert_name e (x ∷ es) =
    let rest = insert_name e es in if string_lt e.name x.name then e ∷ x ∷ es else x ∷ rest

unfoldable pub sort_names : List DirEntry → List DirEntry
unfolding insert_name
sort_names [] = []
sort_names (e ∷ es) = insert_name e (sort_names es)

module _ (c : Checks) (decode : List ℕ → Option Observation) where
  -- The loop over the frames of one segment.
  unfoldable pub fold_frames : List Frame → Registry → Registry × Option ReplayError
  fold_frames [] r = (r, none)
  fold_frames (f ∷ fs) r = elim (decode f.payload) [
    | none ↦ (r, some decode_failed)
    | some o ↦ elim (fold r o).1 [
      | none ↦ fold_frames fs (fold r o).0
      | some x ↦ ((fold r o).0, some (fold_failed x))
    ]
  ]

  unfoldable pub replay_segment : DirEntry → Registry → Registry × Option ReplayError
  replay_segment e r = elim (open_segment c e.bytes 0) [
    | err x ↦ (r, some (open_failed x))
    | ok s ↦ elim (read_all c s) [
      | err x ↦ (r, some (read_failed x))
      | ok frames ↦ if e.close_fails then (r, some close_failed) else fold_frames frames r
    ]
  ]

  unfoldable pub replay_segments : List DirEntry → Registry → Registry × Option ReplayError
  replay_segments [] r = (r, none)
  replay_segments (e ∷ es) r = elim (replay_segment e r).1 [
    | none ↦ replay_segments es (replay_segment e r).0
    | some x ↦ ((replay_segment e r).0, some x)
  ]

  unfoldable pub replay_wal :
      Result ListError (List DirEntry) → Registry → Registry × Option ReplayError
  unfolding segments sort_names
  replay_wal (err not_exist) r = (r, none)
  replay_wal (err unreadable) r = (r, some list_failed)
  replay_wal (ok entries) r = replay_segments (sort_names (segments entries)) r
