-- ===== src/Spool/Recover/Chain.antt =====
-- Recovery of a write-ahead log: segments whose frames follow one another, the last one possibly
-- with a torn tail.
use gasworks.Prelude.{
  ℕ, ◌+◌, ◌≤◌, ◌<◌, ◌≡◌, ◌≢◌, ◌⊎◌, inl, inr, refl, sym, ap, ◌∙◌, true, false, Bool, ◌&&◌, List, [],
  ◌∷◌, ◌++◌, append_assoc, arith, length, drop, take, Option, ok, list_eq_iff, ◌==◌, if◌then◌else◌,
}
use gasworks.Spool.Checks.{Checks}
use gasworks.Spool.Frame.{Frame}
use gasworks.Spool.Sidecar.{Identity}
use gasworks.Spool.Segment.{SegmentHeader, decode_segment_header}
use gasworks.Spool.Segment.Header.{
  IsStorable, header_bytes, decode_segment_header-encode_segment_header,
}
use gasworks.Spool.Frame.RoundTrip.{frame_bytes}
use gasworks.Spool.Segment.Log.{IsLog, log_bytes, length-frame-append}
use gasworks.Spool.Recover.{
  WalFile, TruncateCall, Progress, Recovery, truncated_tail, untouched, recover_frames,
  adopt_header, recover_segment, walk, truncate_torn_tail, walked, torn, diagnostic,
  diagnostic_sync_dir, open_file, truncate, sync_file, close_file, sync_dir,
}

-- A segment of a log: its name, header and frames.
pub record LogSegment : Type 0 where
  pub name : List ℕ
  pub header : SegmentHeader
  pub frames : List Frame

module _ (c : Checks) where
  -- Segments of one source, with consecutive frames from sequence `s`.
  pub record IsSegment (i : Identity) (s : ℕ) (x : LogSegment) : Type 0 where
    pub storable : IsStorable x.header
    pub source : x.header.source_id ≡ i.source_id
    pub version : x.header.format_version ≡ i.format_version
    pub first : x.header.first_sequence ≡ s
    pub positive : 1 ≤ s
    pub log : IsLog c s x.frames

  abbrev pub IsChain : Identity → ℕ → List LogSegment → Type 0
  IsChain i s [] = Unit
  IsChain i s (x ∷ xs) = IsSegment i s x × IsChain i (s + length x.frames) xs

  -- The file of a segment with `tail` behind its frames.
  abbrev pub file_of : LogSegment → List ℕ → WalFile
  file_of x tail = record {
    name = x.name;
    bytes = header_bytes c x.header ++ (log_bytes c x.frames ++ tail);
  }

  module _ (fails : TruncateCall → Bool) (works : (x : TruncateCall) → fails x ≡ false) where
    adopt_same :
        (binding : Option Identity) (hdr : SegmentHeader) (rec : Recovery)
        → rec.source_id ≢ []
        → hdr.source_id ≡ rec.source_id
        → hdr.format_version ≡ rec.format_version
        → adopt_header c fails binding hdr rec ≡ ok rec
    unfolding adopt_header
    adopt_same binding hdr rec ne hs hv =
        ground (arith, list_eq_iff rec.source_id [], list_eq_iff hdr.source_id rec.source_id)

    pub frames_bare :
        (f : WalFile) (n : ℕ) (p : Progress)
        → n ≡ length f.bytes
        → recover_frames c fails f n true p
          ≡ untouched c fails f
              (ok (record p { rec = record p.rec { empty_trailing_segment = f.name } }))
    unfolding recover_frames
    frames_bare f n p e =
        let t : (n == length f.bytes) ≡ true = ground arith in rw (t, recover_frames)

    pub frames_walked :
        (f : WalFile) (n : ℕ) (is_last : Bool) (p : Progress) (e h : ℕ)
        → (is_last && n == length f.bytes) ≡ false
        → walk c (length f.bytes) n p.expected p.rec.highest_durable_sequence (drop n f.bytes)
          ≡ walked e h
        → recover_frames c fails f n is_last p
          ≡ untouched c fails f
              (ok (record { rec = record p.rec { highest_durable_sequence = h }; expected = e }))
    unfolding recover_frames
    frames_walked f n is_last p e h t w = rw (t, w, recover_frames)

    -- The progress after a torn tail was cut off at `off`.
    abbrev pub cut_at : WalFile → ℕ → ℕ → Progress → ℕ → ℕ → Progress
    cut_at f n off p e h = record {
      rec = record p.rec {
        highest_durable_sequence = h;
        outcome = truncated_tail;
        truncated_segment = f.name;
        discarded_bytes = length (drop off f.bytes);
        empty_trailing_segment = if off == n then f.name else p.rec.empty_trailing_segment;
      };
      expected = e;
    }

    pub frames_torn :
        (f : WalFile) (n off : ℕ) (p : Progress) (e h : ℕ)
        → n < length f.bytes
        → walk c (length f.bytes) n p.expected p.rec.highest_durable_sequence (drop n f.bytes)
          ≡ torn off e h
        → recover_frames c fails f n true p ≡ record {
          file = record f { bytes = take off f.bytes };
          tails = record { segment = f.name; valid_end = off; discarded = drop off f.bytes } ∷ [];
          result = ok (cut_at f n off p e h);
        }
    unfolding recover_frames truncate_torn_tail
    frames_torn f n off p e h l w =
        let t : (n == length f.bytes) ≡ false = ground arith in
        rw (
          t,
          w,
          recover_frames,
          works diagnostic,
          works diagnostic_sync_dir,
          works open_file,
          works truncate,
          works sync_file,
          works close_file,
          works sync_dir,
        )

    -- What recovery knows before a segment that should begin at `s`.
    pub record Known (i : Identity) (s : ℕ) (p : Progress) : Type 0 where
      pub source : p.rec.source_id ≡ i.source_id
      pub version : p.rec.format_version ≡ i.format_version
      pub nonempty : i.source_id ≢ []
      pub expected : (p.expected ≡ 0) ⊎ (p.expected ≡ s)

    pub recover_segment-frames :
        (identity binding : Option Identity) (is_last : Bool) (i : Identity) (s : ℕ)
        (x : LogSegment) (tail : List ℕ) (p : Progress)
        → IsSegment i s x
        → Known i s p
        → recover_segment c fails identity binding is_last (file_of x tail) p
          ≡ recover_frames c fails
              (file_of x tail)
              (length (header_bytes c x.header))
              is_last
              (record { rec = p.rec; expected = s })
    unfolding recover_segment
    recover_segment-frames identity binding is_last i s x tail p g k = elim k.expected [
      | inl z ↦
          let t : (p.expected == 0) ≡ true = ground arith in
          rw (decoded, adopted, t, recover_segment) (begin x.header.first_sequence g.first)
      | inr e ↦
          let t : (p.expected == 0) ≡ false = ground (arith, g.positive) in
          let u : (x.header.first_sequence == p.expected) ≡ true = ground (arith, g.first) in
          rw (decoded, adopted, t, u, recover_segment) (begin p.expected e)
    ]
      where
        decoded :
            decode_segment_header c (file_of x tail).bytes
            ≡ ok (x.header, length (header_bytes c x.header))
        decoded =
            decode_segment_header-encode_segment_header c x.header (log_bytes c x.frames ++ tail)
              g.storable

        adopted : adopt_header c fails binding x.header p.rec ≡ ok p.rec
        adopted =
            adopt_same binding x.header p.rec (λ e. k.nonempty (sym k.source ∙ e))
              (g.source ∙ sym k.source) (g.version ∙ sym k.version)

        begin :
            (n : ℕ)
            → n ≡ s
            → recover_frames c fails
                (file_of x tail)
                (length (header_bytes c x.header))
                is_last
                (record { rec = p.rec; expected = n })
              ≡ recover_frames c fails
                  (file_of x tail)
                  (length (header_bytes c x.header))
                  is_last
                  (record { rec = p.rec; expected = s })
        begin n e =
            ap
              (λ m.
                recover_frames c fails (file_of x tail) (length (header_bytes c x.header)) is_last
                  (record { rec = p.rec; expected = m }))
              e

    pub no_frames : (fs : List Frame) → length (log_bytes c fs ++ []) ≡ 0 → fs ≡ []
    no_frames [] h = refl
    no_frames (f ∷ fs) h = absurd (
        omega (
          arith,
          ap length (append_assoc (frame_bytes c f) (log_bytes c fs) []),
          length-frame-append c f (log_bytes c fs ++ []),
        ))

    -- What a segment adds to the progress.
    pub record Advanced (p p' : Progress) (s h : ℕ) : Type 0 where
      pub expected : p'.expected ≡ s
      pub highest : p'.rec.highest_durable_sequence ≡ h
      pub source : p'.rec.source_id ≡ p.rec.source_id
      pub version : p'.rec.format_version ≡ p.rec.format_version
      pub ack : p'.rec.acknowledged_through ≡ p.rec.acknowledged_through
