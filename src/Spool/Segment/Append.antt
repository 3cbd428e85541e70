-- ===== src/Spool/Segment/Append.antt =====
-- `Append` keeps a segment a header and whole frames with consecutive sequences, whatever the
-- file system does.
use gasworks.Prelude.{
  ℕ, ◌+◌, ◌≤◌, ◌<◌, ◌≡◌, ◌⊎◌, inl, inr, refl, sym, ap, ap₂, ◌∙◌, false, Bool-cases, Option-cases,
  Result-cases, List, [], ◌∷◌, ◌++◌, append_assoc, append-nil, Option, none, some, ok, arith,
  length, take, drop, length-append, take-append_length, take-append_add, length-take, take-take,
  ◌==◌, ==_iff,
}
use gasworks.Word.{max_int64, slt, add64}
use gasworks.Spool.Checks.{Checks}
use gasworks.Spool.Frame.{Frame, encode_frame}
use gasworks.Spool.Frame.RoundTrip.{
  frame_bytes, frame_bytes-sha, encode_frame-inv, length-frame_bytes,
}
use gasworks.Spool.Segment.{
  Segment, AppendEnv, AppendError, sequence_exhausted, non_contiguous, segment_full, write_failed,
  sync_failed, encode_failed, next_expected, write_at, rollback, write_frame, append,
}
use gasworks.Spool.Segment.Header.{IsStorable, header_bytes}
use gasworks.Spool.Segment.Log.{IsLog, IsStamped, log_bytes, log_bytes-append, IsLog-append}

module _ (file b : List ℕ) (off : ℕ) (fits : off ≤ length file) where
  length-front : length (take off file) ≡ off
  length-front = omega (arith, length-take off file)

  take-write_at : take off (write_at file off b) ≡ take off file
  take-write_at =
      take-append_length off (take off file) (b ++ drop (off + length b) file) length-front

  take-write_at_behind : take (off + length b) (write_at file off b) ≡ take off file ++ b
  take-write_at_behind =
      take-append_add off (length b) (take off file) (b ++ drop (off + length b) file) length-front
      ∙ ap (λ r. take off file ++ r) (take-append_length (length b) b _ refl)

  length-write_at : off + length b ≤ length (write_at file off b)
  length-write_at = omega (
    arith,
    length-append (take off file) (b ++ drop (off + length b) file),
    length-append b (drop (off + length b) file),
    length-front,
  )

module _ (c : Checks) where
  -- The bytes up to the last durable boundary.
  abbrev pub clean_bytes : Segment → List Frame → List ℕ
  clean_bytes s fs = header_bytes c s.header ++ log_bytes c fs

  -- The segment holds the frames `fs` and nothing else up to its size.
  pub record Holds (s : Segment) (fs : List Frame) : Type 0 where
    pub header : IsStorable s.header
    pub positive : 1 ≤ s.header.first_sequence
    pub log : IsLog c s.header.first_sequence fs
    pub clean : take s.size s.file ≡ clean_bytes s fs
    pub within : s.size ≤ length s.file
    pub last :
        ((fs ≡ []) × (s.last ≡ 0))
        ⊎ ((0 < length fs) × (s.last + 1 ≡ s.header.first_sequence + length fs))
    pub last_int64 : s.last ≤ max_int64
    pub first_int64 : s.header.first_sequence ≤ max_int64
    pub fits : s.size ≤ s.ceiling
    pub ceiling : s.ceiling ≤ 4611686018427387904

  -- The frame as it will be read back.
  abbrev pub stamp : Frame → Frame
  stamp f = record f { sha256 = c.sha256 f.payload }

  log_bytes-stamp :
      (fs : List Frame) (f : Frame)
      → log_bytes c (fs ++ stamp f ∷ []) ≡ log_bytes c fs ++ frame_bytes c f
  log_bytes-stamp fs f =
      log_bytes-append c fs (stamp f ∷ [])
      ∙ ap (λ d. log_bytes c fs ++ d) (append-nil _ ∙ frame_bytes-sha c f (c.sha256 f.payload))

  pub append_cases :
      (e : AppendEnv) (s : Segment) (f : Frame)
      → ((x : AppendError) × (append c e s f ≡ (s, some x)))
        ⊎ ((b : List ℕ) × (encode_frame c f ≡ ok b)
            × (next_expected s ≡ some f.sequence)
            × (slt s.ceiling (add64 s.size (length b)) ≡ false)
            × (append c e s f ≡ write_frame e s f.sequence b))
  unfolding append
  append_cases e s f = elim (Option-cases (next_expected s)) [
    | inl full ↦ inl (sequence_exhausted, rw (full, append))
    | inr (n, next) ↦ elim (Result-cases (encode_frame c f)) [
      | inr (x, bad) ↦ inl (encode_failed x, rw (next, bad, append))
      | inl (b, good) ↦ elim (Bool-cases (f.sequence == n)) [
        | inr off ↦ inl (non_contiguous, rw (next, good, append) (ground arith))
        | inl on ↦ elim (Bool-cases (slt s.ceiling (add64 s.size (length b)))) [
          | inl over ↦ inl (segment_full, rw (next, good, append) (ground arith))
          | inr under ↦ inr (
            b,
            good,
            next ∙ ap some (sym ((==_iff f.sequence n).0 on)),
            under,
            rw (next, good, append) (ground arith),
          )
        ]
      ]
    ]
  ]

  -- The next sequence is that behind the frames.
  next_expected-Holds :
      (s : Segment) (fs : List Frame) (n : ℕ)
      → Holds s fs
      → next_expected s ≡ some n
      → (n ≡ s.header.first_sequence + length fs) × (n ≤ max_int64)
  unfolding next_expected
  next_expected-Holds s fs n h e = elim h.last [
    | inl (empty, zero_last) ↦ let l : length fs ≡ 0 = ap length empty in ground arith
    | inr (some_frames, more) ↦ ground arith
  ]

  module _ (e : AppendEnv) (s : Segment) (f : Frame) (fs : List Frame) (h : Holds s fs) where
    -- A failed write leaves what the segment held.
    rollback-Holds :
        (b : List ℕ) → Holds (rollback e (record s { file = write_at s.file s.size b })) fs
    unfolding rollback
    rollback-Holds b = elim (Bool-cases e.truncate_fails) [
      | inl stuck ↦
          rw (stuck, rollback)
            (record {
              header = h.header;
              positive = h.positive;
              log = h.log;
              clean = take-write_at s.file b s.size h.within ∙ h.clean;
              within = omega (arith, length-write_at s.file b s.size h.within);
              last = h.last;
              last_int64 = h.last_int64;
              first_int64 = h.first_int64;
              fits = h.fits;
              ceiling = h.ceiling;
            })
      | inr cut ↦
          rw (cut, rollback)
            (record {
              header = h.header;
              positive = h.positive;
              log = h.log;
              clean =
                  take-take s.size s.size _ (omega arith)
                  ∙ take-write_at s.file b s.size h.within
                  ∙ h.clean;
              within = omega (
                arith,
                length-take s.size (write_at s.file s.size b),
                length-write_at s.file b s.size h.within,
              );
              last = h.last;
              last_int64 = h.last_int64;
              first_int64 = h.first_int64;
              fits = h.fits;
              ceiling = h.ceiling;
            })
    ]

    -- A completed write adds the frame.
    grown :
        (b : List ℕ)
        → encode_frame c f ≡ ok b
        → next_expected s ≡ some f.sequence
        → slt s.ceiling (add64 s.size (length b)) ≡ false
        → Holds
            (record s {
              file = write_at s.file s.size b;
              size = add64 s.size (length b);
              last = f.sequence;
            })
            (fs ++ stamp f ∷ [])
    grown b good next under =
        let (encodable, shape) = encode_frame-inv c f b good in
        let (seq, top) = next_expected-Holds s fs f.sequence h next in
        let small : length b ≤ 4194364 =
          omega (arith, ap length shape, length-frame_bytes c f, encodable.small) in
        let sum : add64 s.size (length b) ≡ s.size + length b = omega (arith, h.fits, h.ceiling) in
        let stamped : IsStamped c f.sequence (stamp f) = record {
          sequence = refl;
          positive = omega (arith, seq, h.positive);
          int64 = top;
          small = encodable.small;
          sha = refl;
        } in
        record {
          header = h.header;
          positive = h.positive;
          log = IsLog-append c _ f.sequence fs (stamp f ∷ []) (sym seq) h.log (stamped, tt);
          clean =
              ap (λ n. take n (write_at s.file s.size b)) sum
              ∙ take-write_at_behind s.file b s.size h.within
              ∙ ap₂ (λ (x y : List ℕ). x ++ y) h.clean shape
              ∙ append_assoc (header_bytes c s.header) (log_bytes c fs) (frame_bytes c f)
              ∙ ap (λ d. header_bytes c s.header ++ d) (sym (log_bytes-stamp fs f));
          within = omega (arith, sum, length-write_at s.file b s.size h.within);
          last = inr (
            omega (arith, length-append fs (stamp f ∷ [])),
            omega (arith, seq, length-append fs (stamp f ∷ [])),
          );
          last_int64 = top;
          first_int64 = h.first_int64;
          fits = ground (arith, h.fits, h.ceiling);
          ceiling = h.ceiling;
        }

    write_frame-Holds :
        (b : List ℕ)
        → encode_frame c f ≡ ok b
        → next_expected s ≡ some f.sequence
        → slt s.ceiling (add64 s.size (length b)) ≡ false
        → (((x : AppendError) × ((write_frame e s f.sequence b).1 ≡ some x)
              × Holds (write_frame e s f.sequence b).0 fs)
            ⊎ (((write_frame e s f.sequence b).1 ≡ none)
                × Holds (write_frame e s f.sequence b).0 (fs ++ stamp f ∷ [])))
    unfolding write_frame
    write_frame-Holds b good next under = elim (Bool-cases e.write_fails) [
      | inl bad ↦ inl (
        write_failed,
        rw (bad, write_frame),
        rw (bad, write_frame) (rollback-Holds (take e.short b)),
      )
      | inr written ↦ elim (Bool-cases e.sync_fails) [
        | inl bad ↦ inl (
          sync_failed,
          rw (written, bad, write_frame),
          rw (written, bad, write_frame) (rollback-Holds b),
        )
        | inr durable ↦ inr (
          rw (written, durable, write_frame),
          rw (written, durable, write_frame) (grown b good next under),
        )
      ]
    ]

  -- An append either fails and keeps the frames, or succeeds and puts its frame behind them.
  pub append-Holds :
      (e : AppendEnv) (s : Segment) (f : Frame) (fs : List Frame)
      → Holds s fs
      → (((x : AppendError) × ((append c e s f).1 ≡ some x) × Holds (append c e s f).0 fs)
          ⊎ (((append c e s f).1 ≡ none) × Holds (append c e s f).0 (fs ++ stamp f ∷ [])))
  append-Holds e s f fs h = elim (append_cases e s f) [
    | inl (x, same) ↦ inl (x, ap (λ (p : Segment × Option AppendError). p.1) same, rw same h)
    | inr (b, good, next, under, write) ↦ rw write (write_frame-Holds e s f fs h b good next under)
  ]
