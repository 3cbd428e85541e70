-- ===== src/Spool/Recover/Log.antt =====
-- Recovery of a whole log after a crash.
use gasworks.Prelude.{
  ℕ, ◌+◌, ◌≡◌, ◌⊎◌, Bool, true, inl, inr, refl, ap, ◌∙◌, false, List, [], ◌∷◌, ◌++◌, Option, ok,
  length,
}
use gasworks.Spool.Checks.{Checks}
use gasworks.Spool.Sidecar.{Identity}
use gasworks.Spool.Segment.Header.{header_bytes}
use gasworks.Spool.Segment.Log.{log_bytes}
use gasworks.Spool.Recover.{
  WalFile, TornTail, TruncateCall, is_empty, SegmentResult, Progress, recover_segment,
  recover_segments,
}
use gasworks.Spool.Recover.Walk.{highest_of, IsTorn}
use gasworks.Spool.Recover.Chain.{LogSegment, IsChain, file_of, Known, Advanced}
use gasworks.Spool.Recover.Ends.{segment_clean, segment_torn}

-- The sequence behind a chain of segments, and the highest sequence in it (`h` if it has none).
abbrev pub behind : ℕ → List LogSegment → ℕ
behind s [] = s
behind s (x ∷ xs) = behind (s + length x.frames) xs

abbrev pub highest_in : ℕ → ℕ → List LogSegment → ℕ
highest_in h s [] = h
highest_in h s (x ∷ xs) = highest_in (highest_of h s x.frames) (s + length x.frames) xs

module _ (c : Checks) where
  -- The files of the segments; the last one has `tail` behind its frames.
  abbrev pub files_of : List LogSegment → List ℕ → List WalFile
  files_of [] tail = []
  files_of (x ∷ []) tail = file_of c x tail ∷ []
  files_of (x ∷ y ∷ xs) tail = file_of c x [] ∷ files_of (y ∷ xs) tail

  -- The tail that recovery sets aside.
  abbrev pub tails_of : List LogSegment → List ℕ → List TornTail
  tails_of [] tail = []
  tails_of (x ∷ []) [] = []
  tails_of (x ∷ []) (b ∷ d) =
      record {
        segment = x.name;
        valid_end = length (header_bytes c x.header) + length (log_bytes c x.frames);
        discarded = b ∷ d;
      }
      ∷ []
  tails_of (x ∷ y ∷ xs) tail = tails_of (y ∷ xs) tail

  module _ (fails : TruncateCall → Bool) (works : (x : TruncateCall) → fails x ≡ false) where
    module _ (identity binding : Option Identity) (i : Identity) where
      one_more :
          (f f' : WalFile) (fs : List WalFile) (ts : List TornTail) (p p' : Progress)
          → recover_segment c fails identity binding (is_empty fs) f p
            ≡ record { file = f'; tails = ts; result = ok p' }
          → recover_segments c fails identity binding (f ∷ fs) p ≡ (
            f' ∷ (recover_segments c fails identity binding fs p').0,
            ts ++ (recover_segments c fails identity binding fs p').1,
            (recover_segments c fails identity binding fs p').2,
          )
      unfolding recover_segments
      one_more f f' fs ts p p' e = rw (
        ap (λ (r : SegmentResult). r.result) e,
        ap (λ (r : SegmentResult). r.file) e,
        ap (λ (r : SegmentResult). r.tails) e,
        recover_segments,
      )

      -- A file with another behind it is not the last.
      last_of_two :
          (y : LogSegment) (xs : List LogSegment) (tail : List ℕ) (f : WalFile) (p : Progress)
          → recover_segment c fails identity binding (is_empty (files_of (y ∷ xs) tail)) f p
            ≡ recover_segment c fails identity binding false f p
      last_of_two y [] tail f p = refl
      last_of_two y (z ∷ xs) tail f p = refl

      still-Known :
          (s t h : ℕ) (p p' : Progress)
          → Known c fails works i s p
          → Advanced c fails works p p' t h
          → Known c fails works i t p'
      still-Known s t h p p' k a = record {
        source = a.source ∙ k.source;
        version = a.version ∙ k.version;
        nonempty = k.nonempty;
        expected = inr a.expected;
      }

      -- A log is walked to its end, and of its files only the last loses its tail.
      pub segments_lem :
          (x : LogSegment) (xs : List LogSegment) (tail : List ℕ) (s : ℕ) (p : Progress)
          → IsChain c i s (x ∷ xs)
          → (tail ≡ []) ⊎ IsTorn c tail
          → Known c fails works i s p
          → (p' : Progress) × (recover_segments c fails identity binding (files_of (x ∷ xs) tail) p
              ≡ (files_of (x ∷ xs) [], tails_of (x ∷ xs) tail, ok p'))
            × Advanced c fails works p p'
                (behind s (x ∷ xs))
                (highest_in p.rec.highest_durable_sequence s (x ∷ xs))
      segments_lem x [] [] s p ch t k =
          let (p', step, a) = segment_clean c fails works identity binding i s x p ch.0 k true in
          (p', one_more _ _ [] [] p p' step ∙ (unfold recover_segments in refl), a)
      segments_lem x [] (b ∷ d) s p ch (inl t) k = cc
      segments_lem x [] (b ∷ d) s p ch (inr t) k =
          let (p', step, a) =
            segment_torn c fails works identity binding i s x p ch.0 k (b ∷ d) t in
          (p', one_more _ _ [] _ p p' step ∙ (unfold recover_segments in refl), a)
      segments_lem x (y ∷ xs) tail s p ch t k =
          let (p', step, a) = segment_clean c fails works identity binding i s x p ch.0 k false in
          let (q, rest, b) =
            segments_lem y xs tail (s + length x.frames) p' ch.1 t (still-Known s _ _ p p' k a) in
          (
            q,
            one_more (file_of c x []) _ (files_of (y ∷ xs) tail) [] p p'
                  (last_of_two y xs tail (file_of c x []) p ∙ step)
                ∙ ap (λ r. (file_of c x [] ∷ r.0, r.1, r.2)) rest,
            record {
              expected = b.expected;
              highest = b.highest ∙ ap (λ h. highest_in h (s + length x.frames) (y ∷ xs)) a.highest;
              source = b.source ∙ a.source;
              version = b.version ∙ a.version;
              ack = b.ack ∙ a.ack;
            },
          )
