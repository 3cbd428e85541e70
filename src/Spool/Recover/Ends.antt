-- ===== src/Spool/Recover/Ends.antt =====
-- One segment of a log under recovery: with all its frames whole, and with a torn tail.
use gasworks.Prelude.{
  ℕ, ◌+◌, ◌≡◌, inl, inr, refl, sym, ap, ap₂, ◌∙◌, true, false, Bool, ◌&&◌, List, [], ◌∷◌, ◌++◌,
  append-nil, arith, length, drop, take, drop-append_length, take-append_length, take-append_add,
  drop-append_add, length-append, Option, ok, ◌==◌, Bool-cases,
}
use gasworks.Spool.Checks.{Checks}
use gasworks.Spool.Sidecar.{Identity}
use gasworks.Spool.Segment.Header.{header_bytes}
use gasworks.Spool.Segment.Log.{log_bytes}
use gasworks.Spool.Recover.{
  TruncateCall, Progress, untouched, recover_frames, recover_segment, walk,
}
use gasworks.Spool.Recover.Walk.{highest_of, IsTorn, walk-clean, walk-torn}
use gasworks.Spool.Recover.Chain.{
  LogSegment, IsSegment, file_of, Known, Advanced, cut_at, frames_bare, frames_walked, frames_torn,
  recover_segment-frames, no_frames,
}

module _ (c : Checks) where
  module _ (fails : TruncateCall → Bool) (works : (x : TruncateCall) → fails x ≡ false) where
    module _ (identity binding : Option Identity) (i : Identity) (s : ℕ) (x : LogSegment)
        (p : Progress) (g : IsSegment c i s x) (k : Known c fails works i s p) where
      abbrev hdr_len : ℕ
      hdr_len = length (header_bytes c x.header)

      -- The progress with which the frames begin.
      abbrev begun : Progress
      begun = record { rec = p.rec; expected = s }

      body :
          (tail : List ℕ)
          → drop (length (header_bytes c x.header)) (file_of c x tail).bytes
            ≡ log_bytes c x.frames ++ tail
      body tail = drop-append_length _ (header_bytes c x.header) (log_bytes c x.frames ++ tail) refl

      size :
          (tail : List ℕ)
          → length (file_of c x tail).bytes
            ≡ length (header_bytes c x.header) + length (log_bytes c x.frames ++ tail)
      size tail = length-append (header_bytes c x.header) (log_bytes c x.frames ++ tail)

      -- A segment with no torn tail is left as it is.
      pub segment_clean :
          (is_last : Bool)
          → (p' : Progress) × (recover_segment c fails identity binding is_last (file_of c x []) p
              ≡ untouched c fails (file_of c x []) (ok p'))
            × Advanced c fails works p p'
                (s + length x.frames)
                (highest_of p.rec.highest_durable_sequence s x.frames)
      segment_clean is_last =
          elim (Bool-cases (is_last && hdr_len == length (file_of c x []).bytes)) [
            | inr frames ↦ (
              _,
              recover_segment-frames c fails works identity binding is_last i s x [] p g k
                  ∙ frames_walked c fails works (file_of c x []) hdr_len is_last begun _ _ frames (
                      ap (walk c _ hdr_len s p.rec.highest_durable_sequence) (body [])
                      ∙ walk-clean c _ hdr_len s _ x.frames (omega (arith, size [])) g.log),
              record { expected = refl; highest = refl; source = refl; version = refl; ack = refl },
            )
            | inl bare ↦
                let empty : x.frames ≡ [] =
                  no_frames c fails works x.frames (ground (arith, size [])) in
                (
                  _,
                  recover_segment-frames c fails works identity binding is_last i s x [] p g k
                      ∙ ap (λ l. recover_frames c fails (file_of c x []) hdr_len l begun)
                          (ground arith)
                      ∙ frames_bare c fails works (file_of c x []) hdr_len begun (ground arith),
                  record {
                    expected = omega (arith, ap length empty);
                    highest = ap (highest_of p.rec.highest_durable_sequence s) (sym empty);
                    source = refl;
                    version = refl;
                    ack = refl;
                  },
                )
          ]

      abbrev after : List ℕ → Progress
      after tail =
          cut_at c fails works (file_of c x tail) hdr_len (hdr_len + length (log_bytes c x.frames))
            begun (s + length x.frames) (highest_of p.rec.highest_durable_sequence s x.frames)

      cut_back :
          (tail : List ℕ)
          → take (hdr_len + length (log_bytes c x.frames)) (file_of c x tail).bytes
            ≡ (file_of c x []).bytes
      cut_back tail =
          take-append_add hdr_len _ (header_bytes c x.header) (log_bytes c x.frames ++ tail) refl
          ∙ ap (λ d. header_bytes c x.header ++ d)
              (take-append_length _ (log_bytes c x.frames) tail refl ∙ sym (append-nil _))

      cut_off :
          (tail : List ℕ)
          → drop (hdr_len + length (log_bytes c x.frames)) (file_of c x tail).bytes ≡ tail
      cut_off tail =
          drop-append_add hdr_len _ (header_bytes c x.header) (log_bytes c x.frames ++ tail) refl
          ∙ drop-append_length _ (log_bytes c x.frames) tail refl

      -- The torn tail of the last segment is cut off and set aside.
      pub segment_torn :
          (tail : List ℕ)
          → IsTorn c tail
          → (p' : Progress) × (recover_segment c fails identity binding true (file_of c x tail) p
              ≡ record {
                file = file_of c x [];
                tails =
                    record {
                      segment = x.name;
                      valid_end = length (header_bytes c x.header) + length (log_bytes c x.frames);
                      discarded = tail;
                    }
                    ∷ [];
                result = ok p';
              })
            × Advanced c fails works p p'
                (s + length x.frames)
                (highest_of p.rec.highest_durable_sequence s x.frames)
      segment_torn tail t = (
        after tail,
        recover_segment-frames c fails works identity binding true i s x tail p g k
            ∙ frames_torn c fails works (file_of c x tail) hdr_len _ begun _ _
                (omega (arith, size tail, length-append (log_bytes c x.frames) tail, t.some_bytes))
                (ap (walk c _ hdr_len s p.rec.highest_durable_sequence) (body tail)
                  ∙ walk-torn c _ hdr_len s _ x.frames tail (omega (arith, size tail)) g.log t)
            ∙ ap₂
                (λ (b d : List ℕ). record {
                  file = record { name = x.name; bytes = b };
                  tails =
                      record {
                        segment = x.name;
                        valid_end = hdr_len + length (log_bytes c x.frames);
                        discarded = d;
                      }
                      ∷ [];
                  result = ok (after tail);
                })
                (cut_back tail) (cut_off tail),
        record { expected = refl; highest = refl; source = refl; version = refl; ack = refl },
      )
