-- ===== src/Daemon/Registry/Restart.antt =====
-- A restart: the registry that is rebuilt from the segments is the one that folded the appends.
use gasworks.Prelude.{
  ℕ, ◌≤◌, false, List, [], ◌∷◌, ◌++◌, Option, none, some, ok, ◌≡◌, refl, sym, ap, ◌∙◌, arith,
  length,
}
use gasworks.Word.{max_int64}
use gasworks.Spool.Checks.{Checks}
use gasworks.Spool.Frame.{Frame}
use gasworks.Spool.Segment.{
  Segment, SegmentHeader, default_segment_ceiling, open_segment, read_all, ceiling_or_default,
}
use gasworks.Spool.Segment.Header.{header_bytes, IsStorable}
use gasworks.Spool.Segment.Log.{IsLog, log_bytes}
use gasworks.Spool.Segment.Open.{open_segment-Holds}
use gasworks.Spool.Segment.Life.{read_all-Holds}
use gasworks.Daemon.Registry.{Observation, Registry, fold}
use gasworks.Daemon.Registry.History.{fold_live}
use gasworks.Daemon.Registry.Replay.{
  DirEntry, segments, sort_names, fold_frames, replay_segment, replay_segments, replay_wal,
}

abbrev pub IsReadable : Observation → Type 0
IsReadable o = (r : Registry) → (fold r o).1 ≡ none

fits_default :
    {d e : List ℕ} → d ≡ e → length d ≤ default_segment_ceiling → length e ≤ ceiling_or_default 0
unfolding ceiling_or_default
fits_default same h = rw (← same) h

default_small : ceiling_or_default 0 ≤ 4611686018427387904
unfolding ceiling_or_default
default_small = omega arith

module _ (c : Checks) (decode : List ℕ → Option Observation) where
  -- The payloads of the frames decode to the observations, each of which can be folded.
  abbrev pub Carry : List Frame → List Observation → Type 0
  Carry [] [] = Unit {0}
  Carry [] (o ∷ os) = ⊥
  Carry (f ∷ fs) [] = ⊥
  Carry (f ∷ fs) (o ∷ os) = (decode f.payload ≡ some o) × IsReadable o × Carry fs os

  -- A segment file as the spool writes it, and the observations that were appended to it.
  pub record Written (e : DirEntry) (os : List Observation) : Type 0 where
    pub header : SegmentHeader
    pub frames : List Frame
    pub bytes : e.bytes ≡ header_bytes c header ++ log_bytes c frames
    pub storable : IsStorable header
    pub log : IsLog c header.first_sequence frames
    pub positive : 1 ≤ header.first_sequence
    pub int64 : header.first_sequence ≤ max_int64
    pub fits : length e.bytes ≤ default_segment_ceiling
    pub closes : e.close_fails ≡ false
    pub carry : Carry frames os

  -- Segment files in a row, and all that was appended to them.
  abbrev pub WrittenAll : List DirEntry → List Observation → Type 0
  WrittenAll [] os = os ≡ []
  WrittenAll (e ∷ es) os =
      (here : List Observation) × (later : List Observation) × (os ≡ here ++ later)
      × Written e here
      × WrittenAll es later

  fold_live-append :
      (os ps : List Observation) (r : Registry)
      → fold_live r (os ++ ps) ≡ fold_live (fold_live r os) ps
  unfolding fold_live
  fold_live-append [] ps r = refl
  fold_live-append (o ∷ os) ps r = fold_live-append os ps (fold r o).0

  fold_frames-Carry :
      (fs : List Frame) (os : List Observation) (r : Registry)
      → Carry fs os
      → fold_frames c decode fs r ≡ (fold_live r os, none)
  unfolding fold_frames fold_live
  fold_frames-Carry [] [] r h = refl
  fold_frames-Carry [] (o ∷ os) r h = absurd h
  fold_frames-Carry (f ∷ fs) [] r h = absurd h
  fold_frames-Carry (f ∷ fs) (o ∷ os) r h =
      rw (h.0, h.1 r, fold_frames) (fold_frames-Carry fs os (fold r o).0 h.2)

  replay_segment-opened :
      (e : DirEntry) (s : Segment) (fs : List Frame) (r : Registry)
      → open_segment c e.bytes 0 ≡ ok s
      → read_all c s ≡ ok fs
      → e.close_fails ≡ false
      → replay_segment c decode e r ≡ fold_frames c decode fs r
  unfolding replay_segment
  replay_segment-opened e s fs r opens reads closes =
      rw (opens, replay_segment) (rw (reads, replay_segment) (rw closes refl))

  replay_segment-Written :
      (e : DirEntry) (os : List Observation) (r : Registry)
      → Written e os
      → replay_segment c decode e r ≡ (fold_live r os, none)
  replay_segment-Written e os r w =
      let (s, opens, holds, exact) =
        open_segment-Holds c w.header w.frames 0 w.storable w.log w.positive w.int64
          (fits_default w.bytes w.fits) default_small in
      replay_segment-opened e s w.frames r (ap (λ d. open_segment c d 0) w.bytes ∙ opens)
        (read_all-Holds c s w.frames exact holds) w.closes
      ∙ fold_frames-Carry w.frames os r w.carry

  replay_segments-Written :
      (es : List DirEntry) (os : List Observation) (r : Registry)
      → WrittenAll es os
      → replay_segments c decode es r ≡ (fold_live r os, none)
  unfolding replay_segments
  replay_segments-Written [] os r w = rw w (unfold fold_live in refl)
  replay_segments-Written (e ∷ es) os r (here, later, whole, w, ws) =
      let one = replay_segment-Written e here r w in
      rw (one, replay_segments)
        (rw one (
          replay_segments-Written es later (fold_live r here) ws
          ∙ ap (λ x. (x, none))
              (sym (fold_live-append here later r) ∙ ap (fold_live r) (sym whole))))

  -- Where the directory holds, by name, segment files as the spool writes them, whose payloads
  -- decode to observations that can be folded: a replay into a registry folds them all and gives
  -- no error, and leaves the registry that folded the same observations one by one as they were
  -- appended.
  pub replay_wal-Written :
      (entries : List DirEntry) (os : List Observation) (r : Registry)
      → WrittenAll (sort_names (segments entries)) os
      → replay_wal c decode (ok entries) r ≡ (fold_live r os, none)
  unfolding replay_wal
  replay_wal-Written entries os r w = replay_segments-Written (sort_names (segments entries)) os r w
