-- ===== src/Spool/Segment/Open.antt =====
-- `OpenSegment` gives back the state in which a writer left the segment.
use gasworks.Prelude.{
  ℕ, zero, suc, ◌+◌, ◌≤◌, ◌<◌, ◌≡◌, ◌⊎◌, inl, inr, refl, ap, ◌∙◌, List, [], ◌∷◌, ◌++◌, ok, length,
  take_all, drop, arith, length-append, drop-append_length,
}
use gasworks.Word.{max_int64, add64}
use gasworks.Spool.Checks.{Checks}
use gasworks.Spool.Frame.{Frame, decode_frame, frame_ok}
use gasworks.Spool.Frame.RoundTrip.{frame_bytes}
use gasworks.Spool.Segment.{Segment, SegmentHeader, open_loop, open_segment, ceiling_or_default}
use gasworks.Spool.Segment.Header.{
  IsStorable, header_bytes, decode_segment_header-encode_segment_header,
}
use gasworks.Spool.Segment.Log.{
  IsStamped, IsLog, log_bytes, decode_frame-stamped, length-frame-append,
}
use gasworks.Spool.Segment.Append.{Holds}

module _ (c : Checks) where
  -- The segment after the loop has read the frames at `off`.
  abbrev after : ℕ → Segment → List Frame → Segment
  after off s [] = s
  after off s (f ∷ fs) =
      after (off + length (frame_bytes c f))
        (record s { last = f.sequence; size = off + length (frame_bytes c f) }) fs

  open_round :
      (fuel off k : ℕ) (s : Segment) (d : List ℕ) (f : Frame) (n : ℕ)
      → 0 < length d
      → decode_frame c d ≡ frame_ok f n
      → IsStamped c k f
      → open_loop c (suc fuel) off k s d
        ≡ open_loop c fuel
            (off + n)
            (k + 1)
            (record s { last = f.sequence; size = off + n })
            (drop n d)
  unfolding open_loop
  open_round fuel off k s [] f n hl h st = absurd (omega arith)
  open_round fuel off k s (b ∷ d) f n hl h st =
      let e : add64 k 1 ≡ k + 1 = omega (arith, st.int64) in
      rw (h, st.sequence, e, open_loop) (ground arith)

  open_loop-log :
      (fuel off k : ℕ) (s : Segment) (fs : List Frame)
      → length (log_bytes c fs) ≤ fuel
      → IsLog c k fs
      → open_loop c fuel off k s (log_bytes c fs) ≡ ok (after off s fs)
  open_loop-log fuel off k s [] hl h = unfold open_loop in refl
  open_loop-log zero off k s (f ∷ fs) hl h =
      absurd (omega (arith, length-frame-append c f (log_bytes c fs)))
  open_loop-log (suc fuel) off k s (f ∷ fs) hl h =
      let n = length (frame_bytes c f) in
      let s' = record s { last = f.sequence; size = off + n } in
      open_round fuel off k s (frame_bytes c f ++ log_bytes c fs) f n
        (omega (arith, length-frame-append c f (log_bytes c fs)))
        (decode_frame-stamped c k f (log_bytes c fs) h.0) h.0
      ∙ ap (open_loop c fuel (off + n) (k + 1) s')
          (drop-append_length n (frame_bytes c f) (log_bytes c fs) refl)
      ∙ open_loop-log fuel (off + n) (k + 1) s' fs
          (omega (arith, length-frame-append c f (log_bytes c fs))) h.1

  -- The fields of that segment; `k` is the sequence behind the frames read before.
  record IsAfter (off k : ℕ) (s : Segment) (fs : List Frame) (t : Segment) : Type 0 where
    file : t.file ≡ s.file
    header : t.header ≡ s.header
    ceiling : t.ceiling ≡ s.ceiling
    size : t.size ≡ off + length (log_bytes c fs)
    last : ((fs ≡ []) × (t.last ≡ s.last)) ⊎ ((0 < length fs) × (t.last + 1 ≡ k + length fs))
    last_int64 : t.last ≤ max_int64

  after-IsAfter :
      (off k : ℕ) (s : Segment) (fs : List Frame)
      → s.size ≡ off
      → s.last ≤ max_int64
      → IsLog c k fs
      → IsAfter off k s fs (after off s fs)
  after-IsAfter off k s [] hs hl h = record {
    file = refl;
    header = refl;
    ceiling = refl;
    size = omega (arith, hs);
    last = inl (refl, refl);
    last_int64 = hl;
  }
  after-IsAfter off k s (f ∷ fs) hs hl h =
      let n = length (frame_bytes c f) in
      let r =
        after-IsAfter (off + n) (k + 1) (record s { last = f.sequence; size = off + n }) fs refl
          (omega (arith, h.0.sequence, h.0.int64)) h.1 in
      record {
        file = r.file;
        header = r.header;
        ceiling = r.ceiling;
        size = omega (arith, r.size, length-append (frame_bytes c f) (log_bytes c fs));
        last = inr (
          omega arith,
          elim r.last [
            | inl (none, same) ↦ omega (arith, ap length none, same, h.0.sequence)
            | inr (some, next) ↦ omega (arith, next)
          ],
        );
        last_int64 = r.last_int64;
      }

  -- Under a ceiling that holds it, a file of a storable header and a log of frames from its first
  -- sequence on opens to a segment that holds exactly these frames and ends at its size: what
  -- `Append` needs to go on.
  pub open_segment-Holds :
      (h : SegmentHeader) (fs : List Frame) (ceiling : ℕ)
      → IsStorable h
      → IsLog c h.first_sequence fs
      → 1 ≤ h.first_sequence
      → h.first_sequence ≤ max_int64
      → length (header_bytes c h ++ log_bytes c fs) ≤ ceiling_or_default ceiling
      → ceiling_or_default ceiling ≤ 4611686018427387904
      → (s : Segment) × (open_segment c (header_bytes c h ++ log_bytes c fs) ceiling ≡ ok s)
        × Holds c s fs
        × (length s.file ≤ s.size)
  unfolding open_segment
  open_segment-Holds h fs ceiling st log h1 h2 fits top =
      let n = length (header_bytes c h) in
      let d = header_bytes c h ++ log_bytes c fs in
      let s0 : Segment = record {
        file = d;
        header = h;
        ceiling = ceiling_or_default ceiling;
        size = n;
        last = 0;
      } in
      let a = after-IsAfter n h.first_sequence s0 fs refl (omega arith) log in
      let sum = length-append (header_bytes c h) (log_bytes c fs) in
      (
        after n s0 fs,
        rw (decode_segment_header-encode_segment_header c h (log_bytes c fs) st, open_segment)
            (ap (open_loop c (length d) n h.first_sequence s0)
                (drop-append_length n (header_bytes c h) (log_bytes c fs) refl)
              ∙ open_loop-log (length d) n h.first_sequence s0 fs (omega (arith, sum)) log),
        record {
          header = rw a.header st;
          positive = rw a.header h1;
          log = rw a.header log;
          clean = rw (a.header, a.file) (take_all _ d (omega (arith, a.size, sum)));
          within = rw a.file (omega (arith, a.size, sum));
          last = rw a.header a.last;
          last_int64 = a.last_int64;
          first_int64 = rw a.header h2;
          fits = omega (arith, a.size, a.ceiling, sum, fits);
          ceiling = rw a.ceiling top;
        },
        rw a.file (omega (arith, a.size, sum)),
      )
