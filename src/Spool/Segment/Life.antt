-- ===== src/Spool/Segment/Life.antt =====
-- A segment over many appends: what was reported as appended is what is read back.
use gasworks.Prelude.{
  ℕ, ◌≡◌, ◌≤◌, refl, ap, ◌∙◌, sym, inl, inr, List, [], ◌∷◌, ◌++◌, append_assoc, append-nil, Option,
  none, some, ok, length, drop, arith, drop-append_length, length-append, take_all, All, ◌+◌, take,
  length-take, length-drop, if-intro, false,
}
use gasworks.Word.{add64}
use gasworks.Spool.Checks.{Checks}
use gasworks.Spool.Frame.RoundTrip.{encode_frame-inv, length-frame_bytes}
use gasworks.Spool.Segment.{write_at, rollback, write_frame}
use gasworks.Spool.Frame.{Frame}
use gasworks.Spool.Segment.{
  SegmentHeader, read_loop, Segment, AppendEnv, AppendError, append, read_all,
  decode_segment_header,
}
use gasworks.Spool.Segment.Header.{header_bytes, decode_segment_header-encode_segment_header}
use gasworks.Spool.Segment.Log.{log_bytes, read_loop-log}
use gasworks.Spool.Segment.Append.{Holds, stamp, append-Holds, append_cases, clean_bytes}

module _ (c : Checks) where
  abbrev kept : Option AppendError → Frame → List Frame → List Frame
  kept none f fs = stamp c f ∷ fs
  kept (some x) f fs = fs

  -- Attempts at appending, each with what the file system does to it; the frames of those that
  -- reported success.
  unfoldable pub run : Segment → List (AppendEnv × Frame) → Segment × List Frame
  run s [] = (s, [])
  run s ((e, f) ∷ xs) =
      let (s', r) = append c e s f in let (s'', fs) = run s' xs in (s'', kept r f fs)

  -- The frames up to the segment's size.
  pub run-Holds :
      (s : Segment) (fs : List Frame) (xs : List (AppendEnv × Frame))
      → Holds c s fs
      → Holds c (run s xs).0 (fs ++ (run s xs).1)
  unfolding run
  run-Holds s fs [] h = rw append-nil h
  run-Holds s fs ((e, f) ∷ xs) h = elim (append-Holds c e s f fs h) [
    | inl (x, failed, h') ↦ rw failed (run-Holds (append c e s f).0 fs xs h')
    | inr (done, h') ↦
        rw done (rw append_assoc at (run-Holds (append c e s f).0 (fs ++ stamp c f ∷ []) xs h'))
  ]

  read_all-header :
      (s : Segment) (hdr : SegmentHeader) (n : ℕ)
      → decode_segment_header c s.file ≡ ok (hdr, n)
      → read_all c s ≡ read_loop c (length s.file) n [] (drop n s.file)
  unfolding read_all
  read_all-header s hdr n h = rw (h, read_all)

  -- A segment whose file ends at its size is read back whole: `ReadAll` gives its frames in
  -- order.
  pub read_all-Holds :
      (s : Segment) (fs : List Frame) → length s.file ≤ s.size → Holds c s fs → read_all c s ≡ ok fs
  read_all-Holds s fs exact h =
      read_all-header s s.header n (
        ap (decode_segment_header c) file
        ∙ decode_segment_header-encode_segment_header c s.header (log_bytes c fs) h.header)
      ∙ ap (λ d. read_loop c (length s.file) n [] (drop n d)) file
      ∙ ap (read_loop c (length s.file) n [])
          (drop-append_length n (header_bytes c s.header) (log_bytes c fs) refl)
      ∙ read_loop-log c (length s.file) n s.header.first_sequence [] fs enough h.log
    where
      n : ℕ
      n = length (header_bytes c s.header)

      file : s.file ≡ clean_bytes c s fs
      file = sym (take_all s.size s.file exact) ∙ h.clean

      enough : length (log_bytes c fs) ≤ length s.file
      enough =
          omega (arith, ap length file, length-append (header_bytes c s.header) (log_bytes c fs))

  -- The file ends at the last durable boundary.
  abbrev IsExact : Segment → Type 0
  IsExact s = length s.file ≤ s.size

  -- Where the truncation behind a failure works, an append keeps the file at its boundary.
  append-IsExact :
      (e : AppendEnv) (s : Segment) (f : Frame) (fs : List Frame)
      → Holds c s fs
      → e.truncate_fails ≡ false
      → IsExact s
      → IsExact (append c e s f).0
  unfolding write_frame rollback
  append-IsExact e s f fs h cut exact = elim (append_cases c e s f) [
    | inl (x, same) ↦ rw same exact
    | inr (b, good, next, under, write) ↦
        let (encodable, shape) = encode_frame-inv c f b good in
        let small : length b ≤ 4194364 =
          omega (arith, ap length shape, length-frame_bytes c f, encodable.small) in
        let sum : add64 s.size (length b) ≡ s.size + length b = omega (arith, h.fits, h.ceiling) in
        rw write (
          if-intro {A = Segment × Option AppendError} (λ r. IsExact r.0) e.write_fails
            (λ w.
              rw (cut, rollback)
                (omega (arith, length-take s.size (write_at s.file s.size (take e.short b)))))
            (λ w.
              if-intro {A = Segment × Option AppendError} (λ r. IsExact r.0) e.sync_fails
                (λ y.
                  rw (cut, rollback) (omega (arith, length-take s.size (write_at s.file s.size b))))
                (λ y. omega (
                  arith,
                  sum,
                  exact,
                  length-append (take s.size s.file) (b ++ drop (s.size + length b) s.file),
                  length-append b (drop (s.size + length b) s.file),
                  length-drop (s.size + length b) s.file,
                  length-take s.size s.file,
                ))))
  ]

  run-IsExact :
      (s : Segment) (fs : List Frame) (xs : List (AppendEnv × Frame))
      → Holds c s fs
      → IsExact s
      → All (λ x. x.0.truncate_fails ≡ false) xs
      → IsExact (run s xs).0
  unfolding run
  run-IsExact s fs [] h exact cut = exact
  run-IsExact s fs ((e, f) ∷ xs) h exact cut =
      let still = append-IsExact e s f fs h cut.0 exact in
      elim (append-Holds c e s f fs h) [
        | inl (x, failed, h') ↦ run-IsExact (append c e s f).0 fs xs h' still cut.1
        | inr (done, h') ↦ run-IsExact (append c e s f).0 (fs ++ stamp c f ∷ []) xs h' still cut.1
      ]

  -- Of a segment that holds frames in a file that ends at its size, over any attempts at `Append`
  -- where writes and fsyncs may fail, a write at any byte, but no truncation of a rollback does:
  -- `ReadAll` gives exactly the frames that the segment held and, behind them in order, those
  -- whose `Append` reported success.
  pub read_all-run :
      (s : Segment) (fs : List Frame) (xs : List (AppendEnv × Frame))
      → Holds c s fs
      → length s.file ≤ s.size
      → All (λ x. x.0.truncate_fails ≡ false) xs
      → read_all c (run s xs).0 ≡ ok (fs ++ (run s xs).1)
  read_all-run s fs xs h exact cut =
      read_all-Holds (run s xs).0 (fs ++ (run s xs).1) (run-IsExact s fs xs h exact cut)
        (run-Holds s fs xs h)
