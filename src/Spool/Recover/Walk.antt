-- ===== src/Spool/Recover/Walk.antt =====
-- The frame loop of recovery over a log, and over a log with a torn tail behind it.
use gasworks.Prelude.{
  ℕ, zero, suc, ◌+◌, ◌≤◌, ◌<◌, ◌≡◌, refl, ap, ap₂, ◌∙◌, List, [], ◌∷◌, ◌++◌, append_assoc, arith,
  length, drop, drop-append_length, length-append,
}
use gasworks.Word.{add64}
use gasworks.Spool.Checks.{Checks}
use gasworks.Spool.Frame.{Frame, decode_frame, frame_ok, frame_incomplete}
use gasworks.Spool.Frame.RoundTrip.{frame_bytes}
use gasworks.Spool.Segment.Log.{
  IsStamped, IsLog, log_bytes, decode_frame-stamped, length-frame-append,
}
use gasworks.Spool.Recover.{walked, torn, walk}

-- The last sequence of a log from `s`, or `h` if it is empty.
abbrev pub highest_of : ℕ → ℕ → List Frame → ℕ
highest_of h s [] = h
highest_of h s (f ∷ fs) = highest_of s (s + 1) fs

module _ (c : Checks) where
  -- What a crash leaves behind whole frames: nothing, or bytes that are a frame cut short.
  pub record IsTorn (tail : List ℕ) : Type 0 where
    pub some_bytes : 0 < length tail
    pub cut : decode_frame c tail ≡ frame_incomplete

  walk_round :
      (fuel off s highest : ℕ) (d : List ℕ) (f : Frame) (n : ℕ)
      → 0 < length d
      → decode_frame c d ≡ frame_ok f n
      → IsStamped c s f
      → walk c (suc fuel) off s highest d ≡ walk c fuel (off + n) (s + 1) s (drop n d)
  unfolding walk
  walk_round fuel off s highest [] f n hl h st = absurd (omega arith)
  walk_round fuel off s highest (b ∷ d) f n hl h st =
      let e : add64 s 1 ≡ s + 1 = omega (arith, st.int64) in
      rw (h, st.sequence, e, walk) (ground arith)

  walk_tail :
      (fuel off s highest : ℕ) (d : List ℕ)
      → length d ≤ fuel
      → IsTorn d
      → walk c fuel off s highest d ≡ torn off s highest
  unfolding walk
  walk_tail fuel off s highest [] hl t = absurd (omega (arith, t.some_bytes))
  walk_tail zero off s highest (b ∷ d) hl t = absurd (omega arith)
  walk_tail (suc fuel) off s highest (b ∷ d) hl t = rw (t.cut, walk)

  -- The loop takes the frames of a log one by one and goes on behind them.
  pub walk-log :
      (fuel off s highest : ℕ) (fs : List Frame) (rest : List ℕ)
      → length (log_bytes c fs ++ rest) ≤ fuel
      → IsLog c s fs
      → (left : ℕ) × (length rest ≤ left)
        × (walk c fuel off s highest (log_bytes c fs ++ rest)
            ≡ walk c left
                (off + length (log_bytes c fs))
                (s + length fs)
                (highest_of highest s fs)
                rest)
  walk-log fuel off s highest [] rest hl h =
      (fuel, hl, ap₂ (λ m n. walk c fuel m n highest rest) (omega arith) (omega arith))
  walk-log zero off s highest (f ∷ fs) rest hl h = absurd (
      omega (
        arith,
        ap length (append_assoc (frame_bytes c f) (log_bytes c fs) rest),
        length-frame-append c f (log_bytes c fs ++ rest),
      ))
  walk-log (suc fuel) off s highest (f ∷ fs) rest hl h =
      let n = length (frame_bytes c f) in
      let d = log_bytes c fs ++ rest in
      let assoc = append_assoc (frame_bytes c f) (log_bytes c fs) rest in
      let size : length (frame_bytes c f ++ d) ≤ suc fuel = rw (← assoc) hl in
      let (left, enough, more) =
        walk-log fuel (off + n) (s + 1) s fs rest (omega (arith, size, length-frame-append c f d))
          h.1 in
      (
        left,
        enough,
        ap (walk c (suc fuel) off s highest) assoc
            ∙ walk_round fuel off s highest (frame_bytes c f ++ d) f n
                (omega (arith, length-frame-append c f d)) (decode_frame-stamped c s f d h.0) h.0
            ∙ ap (walk c fuel (off + n) (s + 1) s) (drop-append_length n (frame_bytes c f) d refl)
            ∙ more
            ∙ ap₂ (λ m k. walk c left m k (highest_of s (s + 1) fs) rest)
                (omega (arith, length-append (frame_bytes c f) (log_bytes c fs))) (omega arith),
      )

  -- A log alone ends the walk; a log and a torn tail end it at the tail.
  pub walk-clean :
      (fuel off s highest : ℕ) (fs : List Frame)
      → length (log_bytes c fs ++ []) ≤ fuel
      → IsLog c s fs
      → walk c fuel off s highest (log_bytes c fs ++ [])
        ≡ walked (s + length fs) (highest_of highest s fs)
  walk-clean fuel off s highest fs hl h =
      let (left, enough, end) = walk-log fuel off s highest fs [] hl h in
      end ∙ (unfold walk in refl)

  pub walk-torn :
      (fuel off s highest : ℕ) (fs : List Frame) (tail : List ℕ)
      → length (log_bytes c fs ++ tail) ≤ fuel
      → IsLog c s fs
      → IsTorn tail
      → walk c fuel off s highest (log_bytes c fs ++ tail)
        ≡ torn (off + length (log_bytes c fs)) (s + length fs) (highest_of highest s fs)
  walk-torn fuel off s highest fs tail hl h t =
      let (left, enough, end) = walk-log fuel off s highest fs tail hl h in
      end ∙ walk_tail left _ _ _ tail enough t
