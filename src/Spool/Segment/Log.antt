-- ===== src/Spool/Segment/Log.antt =====
-- The bytes of a run of frames, and what the read loops make of them.
use gasworks.Prelude.{
  ℕ, zero, suc, ◌+◌, ◌≤◌, ◌<◌, ◌≡◌, refl, sym, ap, ◌∙◌, List, [], ◌∷◌, ◌++◌, append_assoc,
  append-nil, ok, arith, length, drop, length-append, drop-append_length,
}
use gasworks.Word.{max_int64}
use gasworks.Spool.Checks.{Checks}
use gasworks.Spool.Frame.{Frame, frame_ok, decode_frame, max_frame_payload}
use gasworks.Spool.Frame.RoundTrip.{
  IsEncodable, frame_bytes, length-frame_bytes, decode_frame-bytes,
}
use gasworks.Spool.Segment.{read_loop}

module _ (c : Checks) where
  -- A frame that carries sequence `s`, stamped with the hash of its payload.
  pub record IsStamped (s : ℕ) (f : Frame) : Type 0 where
    pub sequence : f.sequence ≡ s
    pub positive : 1 ≤ s
    pub int64 : s ≤ max_int64
    pub small : length f.payload ≤ max_frame_payload
    pub sha : c.sha256 f.payload ≡ f.sha256

  -- Frames with consecutive sequences from `s`.
  abbrev pub IsLog : ℕ → List Frame → Type 0
  IsLog s [] = Unit
  IsLog s (f ∷ fs) = IsStamped s f × IsLog (s + 1) fs

  abbrev pub log_bytes : List Frame → List ℕ
  log_bytes [] = []
  log_bytes (f ∷ fs) = frame_bytes c f ++ log_bytes fs

  pub IsStamped-IsEncodable : (s : ℕ) (f : Frame) → IsStamped s f → IsEncodable f
  IsStamped-IsEncodable s f h = ground arith

  pub decode_frame-stamped :
      (s : ℕ) (f : Frame) (rest : List ℕ)
      → IsStamped s f
      → decode_frame c (frame_bytes c f ++ rest) ≡ frame_ok f (length (frame_bytes c f))
  decode_frame-stamped s f rest h =
      decode_frame-bytes c f rest (omega (arith, h.sequence, h.int64)) (IsStamped-IsEncodable s f h)
      ∙ rw (h.sha, length-frame_bytes c f) refl

  pub log_bytes-append : (fs gs : List Frame) → log_bytes (fs ++ gs) ≡ log_bytes fs ++ log_bytes gs
  log_bytes-append [] gs = refl
  log_bytes-append (f ∷ fs) gs =
      ap (λ d. frame_bytes c f ++ d) (log_bytes-append fs gs)
      ∙ sym (append_assoc (frame_bytes c f) (log_bytes fs) (log_bytes gs))

  pub IsLog-append :
      (s t : ℕ) (fs gs : List Frame)
      → s + length fs ≡ t
      → IsLog s fs
      → IsLog t gs
      → IsLog s (fs ++ gs)
  IsLog-append s t [] gs e hf hg = let e' : s ≡ t = omega arith in rw e' hg
  IsLog-append s t (f ∷ fs) gs e hf hg = (hf.0, IsLog-append (s + 1) t fs gs (omega arith) hf.1 hg)

  pub length-frame-append :
      (f : Frame) (d : List ℕ) → length (frame_bytes c f ++ d) ≡ 60 + length f.payload + length d
  length-frame-append f d = omega (arith, length-append (frame_bytes c f) d, length-frame_bytes c f)

  read_round :
      (fuel off : ℕ) (acc : List Frame) (d : List ℕ) (f : Frame) (n : ℕ)
      → 0 < length d
      → decode_frame c d ≡ frame_ok f n
      → read_loop c (suc fuel) off acc d ≡ read_loop c fuel (off + n) (acc ++ f ∷ []) (drop n d)
  unfolding read_loop
  read_round fuel off acc [] f n hl h = absurd (omega arith)
  read_round fuel off acc (b ∷ d) f n hl h = rw (h, read_loop)

  -- The loop of `ReadAll` gives back the frames of a log, in order.
  pub read_loop-log :
      (fuel off s : ℕ) (acc fs : List Frame)
      → length (log_bytes fs) ≤ fuel
      → IsLog s fs
      → read_loop c fuel off acc (log_bytes fs) ≡ ok (acc ++ fs)
  read_loop-log fuel off s acc [] hl h = unfold read_loop in rw append-nil
  read_loop-log zero off s acc (f ∷ fs) hl h =
      absurd (omega (arith, length-frame-append f (log_bytes fs)))
  read_loop-log (suc fuel) off s acc (f ∷ fs) hl h =
      let n = length (frame_bytes c f) in
      read_round fuel off acc (frame_bytes c f ++ log_bytes fs) f n
        (omega (arith, length-frame-append f (log_bytes fs)))
        (decode_frame-stamped s f (log_bytes fs) h.0)
      ∙ rw (drop-append_length n (frame_bytes c f) (log_bytes fs) refl) (
          read_loop-log fuel (off + n) (s + 1) (acc ++ f ∷ []) fs
            (omega (arith, length-frame-append f (log_bytes fs))) h.1)
      ∙ ap ok (append_assoc acc (f ∷ []) fs)
