-- ===== src/Spool/Recover/Total.antt =====
-- Recovery ends: the fuel of the walk is enough.
use gasworks.Prelude.{
  ℕ, zero, suc, ◌+◌, ◌≤◌, ◌≡◌, refl, sym, ap, ◌∙◌, ◌⊎◌, inl, inr, Bool, Bool-cases, true, false,
  ◌&&◌, List, [], ◌∷◌, Option, none, some, Result, Result-cases, ok, err, length, length-drop,
  arith, drop, leb, ◌==◌,
}
use gasworks.Word.{add64}
use gasworks.Spool.Checks.{Checks}
use gasworks.Spool.Frame.{Frame, Decoded, decode_frame, frame_ok, frame_incomplete, frame_corrupt}
use gasworks.Spool.Frame.Canonical.{decode_frame_size}
use gasworks.Spool.Sidecar.{Identity, read_identity, read_ack}
use gasworks.Spool.Segment.{decode_segment_header}
use gasworks.Spool.Recover.{
  WalFile, TruncateCall, Progress, RecoverError, out_of_fuel, Disk, WalkEnd, exhausted_fuel,
  bound_of, recover_frames, recover_segment, recover_segments, recover, truncate_torn_tail,
  adopt_header, walk, is_empty, differs,
}
use gasworks.Spool.Recover.Errors.{walk_cases, finish, recover_walked, step_err, step_ok, last_ok}

decoded_cases :
    (r : Decoded)
    → ((f : Frame) × (n : ℕ) × (r ≡ frame_ok f n)) ⊎ (r ≡ frame_incomplete) ⊎ (r ≡ frame_corrupt)
decoded_cases (frame_ok f n) = inl (f, n, refl)
decoded_cases frame_incomplete = inr (inl refl)
decoded_cases frame_corrupt = inr (inr refl)

-- Whether a walk, a segment or recovery ran out of fuel.
abbrev spent : WalkEnd → Bool
spent exhausted_fuel = true
spent _ = false

abbrev pub is_fuel : RecoverError → Bool
is_fuel out_of_fuel = true
is_fuel _ = false

abbrev pub starved {ℓ} : {A : Type ℓ} → Result RecoverError A → Bool
starved (err e) = is_fuel e
starved (ok r) = false

module _ (c : Checks) where
  walk_total :
      (fuel off e h : ℕ) (d : List ℕ) → length d ≤ fuel → spent (walk c fuel off e h d) ≡ false
  unfolding walk
  walk_total fuel off e h [] hl = refl
  walk_total zero off e h (b ∷ d) hl = absurd (omega arith)
  walk_total (suc fuel) off e h (b ∷ d) hl = elim (decoded_cases (decode_frame c (b ∷ d))) [
    | inl (f, n, good) ↦ elim (Bool-cases (f.sequence == e)) [
      | inl next ↦
          rw (good, next, walk)
            (walk_total fuel (off + n) (add64 e 1) f.sequence (drop n (b ∷ d))
              (omega (arith, length-drop n (b ∷ d), decode_frame_size c (b ∷ d) f n good)))
      | inr gap ↦ rw (good, gap, walk) refl
    ]
    | inr (inl cut) ↦ rw (cut, walk) refl
    | inr (inr bad) ↦ rw (bad, walk) refl
  ]

  module _ (fails : TruncateCall → Bool) where
    truncate_total :
        (f : WalFile) (off hdr : ℕ) (p : Progress)
        → starved (truncate_torn_tail c fails f off hdr p).result ≡ false
    unfolding truncate_torn_tail
    truncate_total f off hdr p = ground arith

    frames_total :
        (f : WalFile) (hdr : ℕ) (is_last : Bool) (p : Progress)
        → starved (recover_frames c fails f hdr is_last p).result ≡ false
    unfolding recover_frames
    frames_total f hdr is_last p = elim (Bool-cases (is_last && hdr == length f.bytes)) [
      | inl bare ↦ rw (bare, recover_frames) refl
      | inr more ↦
          elim (walk_cases (
            walk c (length f.bytes) hdr p.expected p.rec.highest_durable_sequence
              (drop hdr f.bytes))) [
                | inl (e, h, w) ↦ rw (more, w, recover_frames) refl
                | inr (inl (off, e, h, w)) ↦ elim (Bool-cases is_last) [
                  | inl last ↦ rw (more, w, recover_frames, last) (truncate_total f off hdr _)
                  | inr inner ↦ rw (more, w, recover_frames, inner) refl
                ]
                | inr (inr (inl (x, w))) ↦ rw (more, w, recover_frames) refl
                | inr (inr (inr w)) ↦ absurd (
                    ground (
                      arith,
                      ap spent w,
                      walk_total (length f.bytes) hdr p.expected p.rec.highest_durable_sequence
                          (drop hdr f.bytes) (omega (arith, length-drop hdr f.bytes)),
                    ))
              ]
    ]

    segment_total :
        (identity binding : Option Identity) (f : WalFile) (is_last : Bool) (p : Progress)
        → starved (recover_segment c fails identity binding is_last f p).result ≡ false
    unfolding recover_segment
    segment_total identity binding f is_last p =
        elim (Result-cases (decode_segment_header c f.bytes)) [
          | inl ((hdr, n), decoded) ↦ elim (Result-cases (adopt_header c fails binding hdr p.rec)) [
            | inl (rec', adopted) ↦ elim (Bool-cases (p.expected == 0)) [
              | inl new ↦ rw (decoded, adopted, new, recover_segment) (frames_total f n is_last _)
              | inr old ↦ elim (Bool-cases (hdr.first_sequence == p.expected)) [
                | inl joins ↦
                    rw (decoded, adopted, old, joins, recover_segment) (frames_total f n is_last _)
                | inr gap ↦ rw (decoded, adopted, old, gap, recover_segment) refl
              ]
            ]
            | inr (none, refused) ↦ rw (decoded, refused, recover_segment) refl
            | inr (some x, refused) ↦ rw (decoded, refused, recover_segment) refl
          ]
          | inr (x, bad) ↦ elim (Bool-cases (is_last && leb (length f.bytes) (bound_of identity))) [
            | inl small ↦ rw (bad, small, recover_segment) refl
            | inr large ↦ rw (bad, large, recover_segment) refl
          ]
        ]

    segments_total :
        (identity binding : Option Identity) (fs : List WalFile) (p : Progress)
        → starved (recover_segments c fails identity binding fs p).2 ≡ false
    segments_total identity binding [] p = rw (last_ok c fails identity binding [] p refl) refl
    segments_total identity binding (f ∷ fs) p =
        elim (Result-cases (recover_segment c fails identity binding (is_empty fs) f p).result) [
          | inl (p', good) ↦
              rw (step_ok c fails identity binding f fs p p' good)
                (segments_total identity binding fs p')
          | inr (e, bad) ↦
              rw (step_err c fails identity binding f fs p e bad)
                (ap starved (sym bad) ∙ segment_total identity binding f (is_empty fs) p)
        ]

    finish_total :
        (r : Result RecoverError Progress) → starved r ≡ false → starved (finish c fails r) ≡ false
    finish_total (ok p) h = refl
    finish_total (err e) h = h

    -- Recovery of any disk ends with a recovery or an error of the program: the walk over the
    -- frames never runs out of its fuel.
    pub recover_total :
        (binding : Option Identity) (d : Disk) → starved (recover c fails binding d).1 ≡ false
    unfolding recover
    recover_total binding d = elim (Result-cases (read_identity c d.identity)) [
      | inr (e, bad) ↦ rw (bad, recover) refl
      | inl (identity, read) ↦ elim (Bool-cases (differs binding identity)) [
        | inl other ↦ rw (read, other, recover) refl
        | inr agrees ↦ elim (Result-cases (read_ack c d.ack)) [
          | inr (e, bad) ↦ rw (read, agrees, bad, recover) refl
          | inl (a, acked) ↦
              let (p, same) = recover_walked c fails binding d identity a read agrees acked in
              rw same (finish_total _ (segments_total identity binding d.wal p))
        ]
      ]
    ]
