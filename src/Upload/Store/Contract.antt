-- ===== src/Upload/Store/Contract.antt =====
-- The store over the log holds to the contract that the planner relies on.
use gasworks.Prelude.{
  ℕ, ◌≤◌, ◌≡◌, ◌⊎◌, refl, sym, ap, ap₂, ◌∙◌, inl, inr, subst, Bool, true, false, ◌||◌, List, [],
  ◌∷◌, ◌++◌, Option, none, some, arith, All, All-append, All-map, Bool-cases, Option-cases,
  if-intro,
}
use gasworks.Word.{slt, IsNat63}
use gasworks.Spool.Checks.{Checks}
use gasworks.Spool.Frame.{Frame, sequence_min}
use gasworks.Upload.Batch.{Record}
use gasworks.Upload.Batch.Plans.{IsStore}
use gasworks.Upload.Store.{
  SegmentRef, Listing, insert_ref, sort_refs, segment_refs, list_segment_paths, window, missing,
  unreadable, entries, read_segment_frames, read_segments, read_range,
}
use gasworks.Upload.Store.Windows.{
  keep, Between, keep-append, keep-none, keep-eq-take, contiguous_within, IsSequenced,
  window-Between, window-keep,
}

none-ne : {rs : List Record} → ◌≡◌ {A = Option (List Record)} none (some rs) → ⊥
none-ne e = cc

none_both : ◌≡◌ {A = Bool} true false → ⊥
none_both e = cc

module _ (c : Checks) where
  -- What a segment gives, where it can be read, is at or above the sequence in its name.
  pub record IsNamed (s : SegmentRef) : Type 0 where
    pub first : IsNat63 s.first
    pub frames : (fs : List Frame) → read_segment_frames c s ≡ some fs → IsSequenced s.first fs

  IsSorted : ℕ → List SegmentRef → Type 0
  IsSorted low [] = Unit {0}
  IsSorted low (s ∷ ss) = (low ≤ s.first) × IsNamed s × IsSorted s.first ss

  insert_ref-IsSorted :
      (low : ℕ) (x : SegmentRef) (ys : List SegmentRef)
      → low ≤ x.first
      → IsNamed x
      → IsSorted low ys
      → IsSorted low (insert_ref x ys)
  unfolding insert_ref IsSorted
  insert_ref-IsSorted low x [] hl hx h = (hl, hx, tt)
  insert_ref-IsSorted low x (y ∷ ys) hl hx h =
      if-intro (IsSorted low) (slt y.first x.first)
        (λ less.
          (h.0, h.1, insert_ref-IsSorted y.first x ys (ground (arith, h.1.first, hx.first)) hx h.2))
        (λ more. (hl, hx, (ground (arith, h.1.first, hx.first), h.1, h.2)))

  sort_refs-IsSorted : (xs : List SegmentRef) → All IsNamed xs → IsSorted 0 (sort_refs xs)
  unfolding sort_refs IsSorted
  sort_refs-IsSorted [] h = tt
  sort_refs-IsSorted (x ∷ xs) h =
      insert_ref-IsSorted 0 x (sort_refs xs) (omega arith) h.0 (sort_refs-IsSorted xs h.1)

  -- How a read of the segments went.
  read_segments_cases :
      (first last : ℕ) (s : SegmentRef) (ss : List SegmentRef) (rs : List Record)
      → read_segments c first last (s ∷ ss) ≡ some rs
      → ((slt last s.first ≡ true) × (rs ≡ []))
        ⊎ ((slt last s.first ≡ false)
            × (fs : List Frame) × (rest : List Record) × (read_segment_frames c s ≡ some fs)
            × (read_segments c first last ss ≡ some rest)
            × (rs ≡ window first last fs ++ rest))
  unfolding read_segments
  read_segments_cases first last s ss rs e = elim (Bool-cases (slt last s.first)) [
    | inl stop ↦ inl (stop, cc (rw stop at e))
    | inr on ↦ elim (Option-cases (read_segment_frames c s)) [
      | inl bad ↦ absurd (none-ne (rw (on, bad, read_segments) at e))
      | inr (fs, read) ↦ elim (Option-cases (read_segments c first last ss)) [
        | inl bad ↦ absurd (none-ne (rw (on, read, bad) at e))
        | inr (rest, more) ↦ inr (on, fs, rest, read, more, cc (rw (on, read, more) at e))
      ]
    ]
  ]

  All-lower :
      (low low' last : ℕ) (rs : List Record)
      → low' ≤ low
      → All (Between low last) rs
      → All (Between low' last) rs
  All-lower low low' last rs h = All-map (λ r b. (omega (arith, b.0), b.1)) rs

  read_segments-Between :
      (first last low : ℕ) (segs : List SegmentRef) (rs : List Record)
      → IsNat63 last
      → IsSorted low segs
      → read_segments c first last segs ≡ some rs
      → All (Between low last) rs
  unfolding read_segments IsSorted
  read_segments-Between first last low [] rs hl h e =
      let same : [] ≡ rs = cc in subst (All (Between low last)) same tt
  read_segments-Between first last low (s ∷ ss) rs hl h e =
      elim (read_segments_cases first last s ss rs e) [
        | inl (stop, empty) ↦ subst (All (Between low last)) (sym empty) tt
        | inr (on, fs, rest, read, more, whole) ↦ subst (All (Between low last)) (sym whole) (
            All-lower s.first low last (window first last fs ++ rest) h.0 (
              All-append (Between s.first last) (window first last fs) rest
                (window-Between first last s.first fs hl (h.1.frames fs read))
                (read_segments-Between first last s.first ss rest hl h.2 more)))
      ]

  read_segments-keep :
      (first m last low : ℕ) (segs : List SegmentRef) (rs : List Record)
      → m ≤ last
      → IsNat63 last
      → IsSorted low segs
      → read_segments c first last segs ≡ some rs
      → read_segments c first m segs ≡ some (keep m rs)
  unfolding read_segments IsSorted keep
  read_segments-keep first m last low [] rs hm hl h e =
      let same : [] ≡ rs = cc in subst (λ t. some [] ≡ some (keep m t)) same refl
  read_segments-keep first m last low (s ∷ ss) rs hm hl h e = elim (Bool-cases (slt m s.first)) [
    | inl stop ↦
        let above =
          read_segments-Between first last s.first (s ∷ ss) rs hl (omega arith, h.1, h.2) e in
        rw stop (ap some (sym (keep-none m s.first last rs (ground (arith, h.1.first)) above)))
    | inr on ↦ elim (read_segments_cases first last s ss rs e) [
      | inl (stop, empty) ↦ absurd (none_both (ground (arith, h.1.first)))
      | inr (still, fs, rest, read, more, whole) ↦
          rw (on, read, read_segments-keep first m last s.first ss rest hm hl h.2 more)
            (ap some (
              ap₂ (λ (x y : List Record). x ++ y)
                (window-keep first m last s.first fs hm hl (h.1.frames fs read)) refl
              ∙ sym (keep-append m (window first last fs) rest)
              ∙ ap (keep m) (sym whole)))
    ]
  ]

  -- The log of a store: its names parse to segments that give what they are named for.
  abbrev pub IsWal : Listing → Type 0
  IsWal missing = Unit {0}
  IsWal unreadable = Unit {0}
  IsWal (entries es) = (refs : List SegmentRef) → segment_refs es ≡ some refs → All IsNamed refs

  list_segment_paths-IsSorted :
      (wal : Listing) (segs : List SegmentRef)
      → IsWal wal
      → list_segment_paths wal ≡ some segs
      → IsSorted 0 segs
  unfolding list_segment_paths IsSorted
  list_segment_paths-IsSorted missing segs h e =
      let same : [] ≡ segs = cc in subst (IsSorted 0) same tt
  list_segment_paths-IsSorted unreadable segs h e = cc
  list_segment_paths-IsSorted (entries es) segs h e = elim (Option-cases (segment_refs es)) [
    | inl bad ↦ cc (rw (bad, list_segment_paths) at e)
    | inr (refs, parsed) ↦
        let same : sort_refs refs ≡ segs = cc (rw (parsed, list_segment_paths) at e) in
        subst (IsSorted 0) same (sort_refs-IsSorted refs (h refs parsed))
  ]

  read_range_inv :
      (wal : Listing) (first last : ℕ) (rs : List Record)
      → read_range c wal first last ≡ some rs
      → (slt first sequence_min ≡ false)
        × (slt last first ≡ false)
        × (segs : List SegmentRef) × (list_segment_paths wal ≡ some segs)
        × (read_segments c first last segs ≡ some rs)
  unfolding read_range
  read_range_inv wal first last rs e =
      elim (Bool-cases (slt first sequence_min || slt last first)) [
        | inl bad ↦ absurd (none-ne (rw (bad, read_range) at e))
        | inr good ↦ elim (Option-cases (list_segment_paths wal)) [
          | inl failed ↦ absurd (none-ne (rw (good, failed, read_range) at e))
          | inr (segs, listed) ↦
              (ground arith, ground arith, segs, listed, rw (good, listed, read_range) at e)
        ]
      ]

  -- The store over a log whose segments, as far as they can be read, hold sequences from the one
  -- in their name on: where the records of a read follow one another from its first sequence,
  -- they do not run past its last one, and a read that ends earlier gives the first of them.
  pub read_range-IsStore : (wal : Listing) → IsWal wal → IsStore (read_range c wal)
  unfolding read_range
  read_range-IsStore wal h = record {
    within = λ first last rs h64 hl e row.
        let (low, ordered, segs, listed, read) = read_range_inv wal first last rs e in
        let sorted = list_segment_paths-IsSorted wal segs h listed in
        contiguous_within first last rs hl (ground (arith, h64))
          (read_segments-Between first last 0 segs rs hl sorted read) row;
    narrower = λ first mid last rs hf hm hl e row.
        let (low, ordered, segs, listed, read) = read_range_inv wal first last rs e in
        let sorted = list_segment_paths-IsSorted wal segs h listed in
        let fine : (slt first sequence_min || slt mid first) ≡ false = ground arith in
        rw (fine, listed)
          (read_segments-keep first mid last 0 segs rs hm hl sorted read
            ∙ ap some (
                keep-eq-take mid first last rs hm hl (omega arith)
                  (read_segments-Between first last 0 segs rs hl sorted read) row));
  }
