-- ===== src/Spool/Segment/Create.antt =====
-- segment.go: `CreateSegment`, one step per call of the system, and what it leaves behind.
use gasworks.Prelude.{
  ℕ, ◌+◌, ◌≤◌, ◌≡◌, refl, sym, ◌∙◌, ◌⊎◌, inl, inr, Bool, false, List, [], Option, none, some,
  Result, ok, err, length, take, take_all, length-take, append-nil, if◌then◌else◌, arith,
  Bool-cases,
}
use gasworks.Word.{max_int64, slt}
use gasworks.Spool.Checks.{Checks}
use gasworks.Spool.Segment.{
  SegmentHeader, HeaderError, Segment, encode_segment_header, ceiling_or_default,
}
use gasworks.Spool.Segment.Header.{
  IsStorable, header_bytes, length-header_bytes, encode_segment_header-IsStorable,
}
use gasworks.Spool.Segment.Append.{Holds}

pub data CreateCall : Type 0 where
  ensure_wal_dir open_excl chmod_file write_header sync_header sync_wal_dir : CreateCall

pub data CreateError : Type 0 where
  bad_first_sequence file_exists : CreateError
  bad_header : HeaderError → CreateError
  call_failed : CreateCall → CreateError

-- Which calls fail, and how many bytes a failed write puts down.
pub record CreateEnv : Type 0 where
  pub fails : CreateCall → Bool
  pub short : ℕ

module _ (c : Checks) where
  -- Past the guards: the file afterwards, and the result.
  unfoldable pub write_segment :
      CreateEnv → SegmentHeader → ℕ → List ℕ → Option (List ℕ) × Result CreateError Segment
  unfolding ceiling_or_default
  write_segment e h ceiling b =
      if e.fails open_excl
      then (none, err (call_failed open_excl))
      else if e.fails chmod_file
      then (some [], err (call_failed chmod_file))
      else if e.fails write_header
      then (some (take e.short b), err (call_failed write_header))
      else if e.fails sync_header
      then (some b, err (call_failed sync_header))
      else if e.fails sync_wal_dir
      then (some b, err (call_failed sync_wal_dir))
      else (
        some b,
        ok (record {
          file = b;
          header = h;
          ceiling = ceiling_or_default ceiling;
          size = length b;
          last = 0;
        }),
      )

  -- `old` is the file that has the name, if there is one: O_EXCL refuses it.
  unfoldable pub create_segment :
      CreateEnv → SegmentHeader → ℕ → Option (List ℕ) → Option (List ℕ) × Result CreateError Segment
  unfolding write_segment
  create_segment e h ceiling old =
      if slt h.first_sequence 1
      then (old, err bad_first_sequence)
      else if e.fails ensure_wal_dir
      then (old, err (call_failed ensure_wal_dir))
      else elim (encode_segment_header c h) [
        | err x ↦ (old, err (bad_header x))
        | ok b ↦ elim old [
          | some d ↦ (some d, err file_exists)
          | none ↦ write_segment e h ceiling b
        ]
      ]

  -- A new segment, and the file that it has.
  new_segment : SegmentHeader → ℕ → Segment
  new_segment h ceiling = record {
    file = header_bytes c h;
    header = h;
    ceiling = ceiling_or_default ceiling;
    size = length (header_bytes c h);
    last = 0;
  }

  new_segment-Holds :
      (h : SegmentHeader) (ceiling : ℕ)
      → IsStorable h
      → 1 ≤ h.first_sequence
      → h.first_sequence ≤ max_int64
      → 30 + length h.source_id ≤ ceiling_or_default ceiling
      → ceiling_or_default ceiling ≤ 4611686018427387904
      → Holds c (new_segment h ceiling) []
  unfolding new_segment
  new_segment-Holds h ceiling s h1 h2 fits top = record {
    header = s;
    positive = h1;
    log = tt;
    clean = take_all _ (header_bytes c h) (omega arith) ∙ sym (append-nil (header_bytes c h));
    within = omega arith;
    last = inl (refl, refl);
    last_int64 = omega arith;
    first_int64 = h2;
    fits = omega (arith, length-header_bytes c h);
    ceiling = top;
  }

  -- What a creation that failed leaves: nothing, or at most the bytes `b`.
  abbrev pub IsLeft : List ℕ → Option (List ℕ) × Result CreateError Segment → Type 0
  IsLeft b r =
      (x : CreateError) × (d : Option (List ℕ)) × (r ≡ (d, err x))
      × ((d ≡ none) ⊎ ((a : List ℕ) × (d ≡ some a) × (length a ≤ length b)))

  write_segment_cases :
      (e : CreateEnv) (h : SegmentHeader) (ceiling : ℕ)
      → (write_segment e h ceiling (header_bytes c h)
          ≡ (some (header_bytes c h), ok (new_segment h ceiling)))
        ⊎ IsLeft (header_bytes c h) (write_segment e h ceiling (header_bytes c h))
  unfolding write_segment new_segment
  write_segment_cases e h ceiling =
      let b = header_bytes c h in
      elim (Bool-cases (e.fails open_excl)) [
        | inl t ↦ inr (call_failed open_excl, none, rw (t, write_segment) refl, inl refl)
        | inr f1 ↦ elim (Bool-cases (e.fails chmod_file)) [
          | inl t ↦ inr (
            call_failed chmod_file,
            some [],
            rw (f1, t, write_segment) refl,
            inr ([], refl, omega arith),
          )
          | inr f2 ↦ elim (Bool-cases (e.fails write_header)) [
            | inl t ↦ inr (
              call_failed write_header,
              some (take e.short b),
              rw (f1, f2, t, write_segment) refl,
              inr (take e.short b, refl, omega (arith, length-take e.short b)),
            )
            | inr f3 ↦ elim (Bool-cases (e.fails sync_header)) [
              | inl t ↦ inr (
                call_failed sync_header,
                some b,
                rw (f1, f2, f3, t, write_segment) refl,
                inr (b, refl, omega arith),
              )
              | inr f4 ↦ elim (Bool-cases (e.fails sync_wal_dir)) [
                | inl t ↦ inr (
                  call_failed sync_wal_dir,
                  some b,
                  rw (f1, f2, f3, f4, t, write_segment) refl,
                  inr (b, refl, omega arith),
                )
                | inr f5 ↦ inl (rw (f1, f2, f3, f4, f5, write_segment) refl)
              ]
            ]
          ]
        ]
      ]

  -- Of a storable header with a positive first sequence, under a ceiling that holds it, and where
  -- the file does not exist: `CreateSegment` either returns a segment that holds no frames, with
  -- its file on disk ending at its size; or it reports an error and leaves no file, or one no
  -- longer than the header.
  pub create_segment-Holds :
      (e : CreateEnv) (h : SegmentHeader) (ceiling : ℕ)
      → IsStorable h
      → 1 ≤ h.first_sequence
      → h.first_sequence ≤ max_int64
      → 30 + length h.source_id ≤ ceiling_or_default ceiling
      → ceiling_or_default ceiling ≤ 4611686018427387904
      → ((s : Segment) × (create_segment e h ceiling none ≡ (some s.file, ok s))
          × (length s.file ≤ s.size)
          × Holds c s [])
        ⊎ IsLeft (header_bytes c h) (create_segment e h ceiling none)
  unfolding create_segment
  create_segment-Holds e h ceiling s h1 h2 fits top =
      let low : slt h.first_sequence 1 ≡ false = ground arith in
      let encoded = encode_segment_header-IsStorable c h s in
      elim (Bool-cases (e.fails ensure_wal_dir)) [
        | inl t ↦ inr (call_failed ensure_wal_dir, none, rw (low, t, create_segment) refl, inl refl)
        | inr f ↦ elim (write_segment_cases e h ceiling) [
          | inl made ↦ inl (
            new_segment h ceiling,
            rw (low, f, encoded, create_segment) (made ∙ (unfold new_segment in refl)),
            unfold new_segment in omega arith,
            new_segment-Holds h ceiling s h1 h2 fits top,
          )
          | inr (x, d, same, left) ↦ inr (x, d, rw (low, f, encoded, create_segment) same, left)
        ]
      ]
