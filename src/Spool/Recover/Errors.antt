-- ===== src/Spool/Recover/Errors.antt =====
-- The errors of recovery: what they leave on the disk, and which there are.
use gasworks.Prelude.{
  ℕ, ◌≡◌, ◌≢◌, refl, sym, ap, ap₂, ◌∙◌, ◌⊎◌, inl, inr, Bool, Bool-cases, true, false, ◌&&◌, List,
  [], ◌∷◌, ◌++◌, append-nil, Option, none, some, Result, Result-cases, ok, err, length, arith, drop,
  leb, ◌==◌,
}
use gasworks.Spool.Checks.{Checks}
use gasworks.Spool.Sidecar.{Identity, read_identity, read_ack}
use gasworks.Spool.Segment.{decode_segment_header}
use gasworks.Spool.Recover.{
  WalFile, TornTail, TruncateCall, Progress, Recovery, fresh, RecoverError, truncate_failed,
  SegmentResult, Corruption, Disk, WalkEnd, walked, torn, broken, exhausted_fuel, untouched,
  bound_of, recover_frames, recover_segment, recover_segments, recover, truncate_torn_tail,
  adopt_header, next_sequence, walk, is_empty, differs,
}

-- The errors that a failed truncation gives.
abbrev pub of_truncation : RecoverError → Bool
of_truncation (truncate_failed x) = true
of_truncation _ = false

pub walk_cases :
    (w : WalkEnd)
    → ((e h : ℕ) × (w ≡ walked e h))
      ⊎ ((off e h : ℕ) × (w ≡ torn off e h))
      ⊎ ((x : Corruption) × (w ≡ broken x))
      ⊎ (w ≡ exhausted_fuel)
walk_cases (walked e h) = inl (e, h, refl)
walk_cases (torn off e h) = inr (inl (off, e, h, refl))
walk_cases (broken x) = inr (inr (inl (x, refl)))
walk_cases exhausted_fuel = inr (inr (inr refl))

module _ (c : Checks) (fails : TruncateCall → Bool) where
  -- A result that comes with the file as it was.
  record IsKept (f : WalFile) (r : SegmentResult) : Type 0 where
    file : r.file ≡ f
    tails : r.tails ≡ []

  -- A torn tail that could not be cut off is told from the other errors.
  truncate-kind :
      (f : WalFile) (off hdr : ℕ) (p : Progress) (x : RecoverError)
      → (truncate_torn_tail c fails f off hdr p).result ≡ err x
      → of_truncation x ≡ true
  unfolding truncate_torn_tail
  truncate-kind f off hdr p x h = ground arith

  -- A segment is left as it was; or it is the last one, and an error is one of the truncation.
  abbrev Untouched : WalFile → Bool → SegmentResult → Type 0
  Untouched f is_last r =
      IsKept f r
      ⊎ ((is_last ≡ true) × ((x : RecoverError) → r.result ≡ err x → of_truncation x ≡ true))

  kept :
      (f : WalFile) (is_last : Bool) (r : Result RecoverError Progress)
      → Untouched f is_last (untouched c fails f r)
  kept f is_last r = inl (record { file = refl; tails = refl })

  frames-Untouched :
      (f : WalFile) (hdr : ℕ) (is_last : Bool) (p : Progress)
      → Untouched f is_last (recover_frames c fails f hdr is_last p)
  unfolding recover_frames
  frames-Untouched f hdr is_last p = elim (Bool-cases (is_last && hdr == length f.bytes)) [
    | inl bare ↦ rw (bare, recover_frames) (kept f is_last _)
    | inr more ↦
        elim (walk_cases (
          walk c (length f.bytes) hdr p.expected p.rec.highest_durable_sequence
            (drop hdr f.bytes))) [
              | inl (e, h, w) ↦ rw (more, w, recover_frames) (kept f is_last _)
              | inr (inl (off, e, h, w)) ↦ elim (Bool-cases is_last) [
                | inl last ↦ inr (
                  last,
                  λ x.
                      rw (more, w, recover_frames, last)
                        (λ failed. truncate-kind f off hdr _ x failed),
                )
                | inr inner ↦ rw (more, w, recover_frames, inner) (kept f false _)
              ]
              | inr (inr (inl (x, w))) ↦ rw (more, w, recover_frames) (kept f is_last _)
              | inr (inr (inr w)) ↦ rw (more, w, recover_frames) (kept f is_last _)
            ]
  ]

  segment-Untouched :
      (identity binding : Option Identity) (f : WalFile) (is_last : Bool) (p : Progress)
      → Untouched f is_last (recover_segment c fails identity binding is_last f p)
  unfolding recover_segment
  segment-Untouched identity binding f is_last p =
      elim (Result-cases (decode_segment_header c f.bytes)) [
        | inl ((hdr, n), decoded) ↦ elim (Result-cases (adopt_header c fails binding hdr p.rec)) [
          | inl (rec', adopted) ↦ elim (Bool-cases (p.expected == 0)) [
            | inl new ↦ rw (decoded, adopted, new, recover_segment) (frames-Untouched f n is_last _)
            | inr old ↦ elim (Bool-cases (hdr.first_sequence == p.expected)) [
              | inl joins ↦
                  rw (decoded, adopted, old, joins, recover_segment)
                    (frames-Untouched f n is_last _)
              | inr gap ↦ rw (decoded, adopted, old, gap, recover_segment) (kept f is_last _)
            ]
          ]
          | inr (none, refused) ↦ rw (decoded, refused, recover_segment) (kept f is_last _)
          | inr (some x, refused) ↦ rw (decoded, refused, recover_segment) (kept f is_last _)
        ]
        | inr (x, bad) ↦ elim (Bool-cases (is_last && leb (length f.bytes) (bound_of identity))) [
          | inl small ↦ rw (bad, small, recover_segment) (kept f is_last _)
          | inr large ↦ rw (bad, large, recover_segment) (kept f is_last _)
        ]
      ]

  not_both :
      (r : Result RecoverError Progress) (p : Progress) (x : RecoverError) → r ≡ ok p → r ≢ err x
  not_both r p x a b = ground (arith, a, b)

  -- What a step of the loop returns.
  pub step_err :
      (identity binding : Option Identity) (f : WalFile) (fs : List WalFile) (p : Progress)
      (e : RecoverError)
      → (recover_segment c fails identity binding (is_empty fs) f p).result ≡ err e
      → recover_segments c fails identity binding (f ∷ fs) p ≡ (
        (recover_segment c fails identity binding (is_empty fs) f p).file ∷ fs,
        (recover_segment c fails identity binding (is_empty fs) f p).tails,
        err e,
      )
  unfolding recover_segments
  step_err identity binding f fs p e h = rw (h, recover_segments) refl

  pub step_ok :
      (identity binding : Option Identity) (f : WalFile) (fs : List WalFile) (p p' : Progress)
      → (recover_segment c fails identity binding (is_empty fs) f p).result ≡ ok p'
      → recover_segments c fails identity binding (f ∷ fs) p ≡ (
        (recover_segment c fails identity binding (is_empty fs) f p).file
            ∷ (recover_segments c fails identity binding fs p').0,
        (recover_segment c fails identity binding (is_empty fs) f p).tails
            ++ (recover_segments c fails identity binding fs p').1,
        (recover_segments c fails identity binding fs p').2,
      )
  unfolding recover_segments
  step_ok identity binding f fs p p' h = rw (h, recover_segments) refl

  same_err : (r : Result RecoverError Progress) (e x : RecoverError) → r ≡ err e → r ≡ err x → e ≡ x
  same_err r e x a b = cc

  -- Without files the loop ends without error.
  pub last_ok :
      (identity binding : Option Identity) (fs : List WalFile) (p : Progress)
      → is_empty fs ≡ true
      → (recover_segments c fails identity binding fs p).2 ≡ ok p
  unfolding recover_segments
  last_ok identity binding [] p h = refl
  last_ok identity binding (f ∷ fs) p h = cc

  segments_kept :
      (identity binding : Option Identity) (fs : List WalFile) (p : Progress) (x : RecoverError)
      → (recover_segments c fails identity binding fs p).2 ≡ err x
      → of_truncation x ≡ false
      → ((recover_segments c fails identity binding fs p).0 ≡ fs)
        × ((recover_segments c fails identity binding fs p).1 ≡ [])
  segments_kept identity binding [] p x h ne =
      absurd (not_both _ p x (last_ok identity binding [] p refl) h)
  segments_kept identity binding (f ∷ fs) p x h ne =
      elim (Result-cases (recover_segment c fails identity binding (is_empty fs) f p).result) [
        | inl (p', good) ↦
            let same = step_ok identity binding f fs p p' good in
            let h' : (recover_segments c fails identity binding fs p').2 ≡ err x =
              sym
                (ap (λ (t : List WalFile × List TornTail × Result RecoverError Progress). t.2) same)
              ∙ h in
            elim (segment-Untouched identity binding f (is_empty fs) p) [
              | inl k ↦
                  let rest = segments_kept identity binding fs p' x h' ne in
                  rw same (
                    ap₂ (λ (g : WalFile) (gs : List WalFile). g ∷ gs) k.file rest.0,
                    ap₂ (λ (ts us : List TornTail). ts ++ us) k.tails rest.1,
                  )
              | inr (last, trunc) ↦
                  absurd (not_both _ p' x (last_ok identity binding fs p' last) h')
            ]
        | inr (e, bad) ↦
            let same = step_err identity binding f fs p e bad in
            let this : e ≡ x =
              same_err _ e x
                (ap (λ (t : List WalFile × List TornTail × Result RecoverError Progress). t.2) same)
                h in
            elim (segment-Untouched identity binding f (is_empty fs) p) [
              | inl k ↦ rw same (ap (λ (g : WalFile). g ∷ fs) k.file, k.tails)
              | inr (last, trunc) ↦ absurd (ground (arith, trunc e bad, ap of_truncation this, ne))
            ]
      ]

  -- What `recover` makes of the end of the loop.
  abbrev pub finish : Result RecoverError Progress → Result RecoverError Recovery
  finish (err e) = err e
  finish (ok p) = ok (record p.rec {
    next_sequence = (next_sequence p.rec.highest_durable_sequence p.rec.acknowledged_through).0;
    exhausted = (next_sequence p.rec.highest_durable_sequence p.rec.acknowledged_through).1;
  })

  finish-err : (r : Result RecoverError Progress) (x : RecoverError) → finish r ≡ err x → r ≡ err x
  finish-err (ok p) x h = cc
  finish-err (err e) x h = cc

  pub recover_walked :
      (binding : Option Identity) (d : Disk) (identity : Option Identity) (a : ℕ)
      → read_identity c d.identity ≡ ok identity
      → differs binding identity ≡ false
      → read_ack c d.ack ≡ ok a
      → (p : Progress) × (recover c fails binding d ≡ (
        record d {
          wal = (recover_segments c fails identity binding d.wal p).0;
          torn_tails = d.torn_tails ++ (recover_segments c fails identity binding d.wal p).1;
        },
        finish (recover_segments c fails identity binding d.wal p).2,
      ))
  unfolding recover
  recover_walked binding d identity a hi hd ha = (
    record { rec = fresh identity a; expected = 0 },
    rw (hi, hd, ha, recover)
        (elim (Result-cases
          (recover_segments c fails identity binding d.wal
            (record { rec = fresh identity a; expected = 0 })).2) [
              | inl (p, good) ↦ rw good refl
              | inr (e, bad) ↦ rw bad refl
            ]),
  )

  -- An error of recovery other than one of the truncation (a bad sidecar, another identity than
  -- the configured one, corruption) leaves the disk as it was.
  pub recover_kept :
      (binding : Option Identity) (d : Disk) (x : RecoverError)
      → (recover c fails binding d).1 ≡ err x
      → of_truncation x ≡ false
      → (recover c fails binding d).0 ≡ d
  unfolding recover
  recover_kept binding d x h ne = elim (Result-cases (read_identity c d.identity)) [
    | inr (e, bad) ↦ rw (bad, recover) refl
    | inl (identity, read) ↦ elim (Bool-cases (differs binding identity)) [
      | inl other ↦ rw (read, other, recover) refl
      | inr agrees ↦ elim (Result-cases (read_ack c d.ack)) [
        | inr (e, bad) ↦ rw (read, agrees, bad, recover) refl
        | inl (a, acked) ↦
            let (p, same) = recover_walked binding d identity a read agrees acked in
            let k =
              segments_kept identity binding d.wal p x
                (finish-err _ x
                  (sym (ap (λ (t : Disk × Result RecoverError Recovery). t.1) same) ∙ h))
                ne in
            ap (λ (t : Disk × Result RecoverError Recovery). t.0) same
            ∙ ap₂
                (λ (w : List WalFile) (t : List TornTail). record d {
                  wal = w;
                  torn_tails = d.torn_tails ++ t;
                })
                k.0 k.1
            ∙ ap (λ (t : List TornTail). record d { torn_tails = t }) (append-nil d.torn_tails)
      ]
    ]
  ]
