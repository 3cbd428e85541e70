-- ===== src/Daemon/Fence/Decisions/Verdicts.antt =====
-- Which frames of a batch go out as their placeholder, and which as they are.
use gasworks.Prelude.{
  ℕ, ◌≤◌, ◌<◌, ◌≡◌, inl, inr, refl, sym, ap, ◌∙◌, Bool, ◌||◌, ◌&&◌, List, [], ◌∷◌, Option, none,
  some, if◌then◌else◌, arith, ltb, Bool-cases, Option-cases, subst, All, All-map,
}
use mathlib.Core.Option
use gasworks.Word.{max_int64}
use gasworks.Upload.Batch.{Record}
use gasworks.Daemon.Consent.{Policy}
use gasworks.Daemon.Fence.Ranges.{contains}
use gasworks.Daemon.Fence.Origins.{lookup_origin}
use gasworks.Daemon.Fence.{
  Fence, Lane, LedgerWrite, decide_one, decide_frames, decide, apply_and_record, fence_latest,
}
use gasworks.Daemon.Fence.Kept.{IsHeld, apply_and_record-Keeps}
use gasworks.Daemon.Fence.Decisions.{
  withdrawn, Rising, frame_at, none-ne-some, made_from, decide_one-eq, decide_one-cases,
  decide_one-contains, decide_one-Keeps, all-cons,
}

-- Withheld before; or not sent yet, with an origin that the policy does not consent to.
abbrev pub verdict : Fence → Policy → ℕ → Bool
verdict f pol q =
    contains f.withheld q || (ltb f.attempted q && withdrawn (lookup_origin f.origins q) pol)

abbrev pub sequences : List Record → List ℕ
sequences [] = []
sequences (r ∷ rs) = r.sequence ∷ sequences rs

cons_sequences :
    (r : Record) (o : Option (List Record)) (qs : List ℕ) (rs : List Record)
    → ((xs : List Record) → o ≡ some xs → sequences xs ≡ qs)
    → Option.map (λ (xs : List Record). r ∷ xs) o ≡ some rs
    → sequences rs ≡ r.sequence ∷ qs
cons_sequences r none qs rs same e = absurd (none-ne-some e)
cons_sequences r (some xs) qs rs same e =
    let whole : r ∷ xs ≡ rs = ground arith in
    ap sequences (sym whole) ∙ ap (λ ys. r.sequence ∷ ys) (same xs refl)

module _ (placeholder : Record → Option (List ℕ)) (frames : ℕ → List ℕ) where
  abbrev pub verdict_payload : Bool → ℕ → Option (List ℕ)
  verdict_payload b q = if b then placeholder (frame_at placeholder frames q) else some (frames q)

  -- A frame above `low`, as the policy has it.
  abbrev pub IsJudged : ℕ → Fence → Policy → ℕ → Record → Type 0
  IsJudged durable f pol low r =
      (low < r.sequence)
      × (r.sequence ≤ durable)
      × (some r.payload ≡ verdict_payload (verdict f pol r.sequence) r.sequence)

module _ (placeholder : Record → Option (List ℕ)) (frames : ℕ → List ℕ) (acked durable : ℕ)
    (small : durable < max_int64) where
  -- A decision changes no verdict on a later sequence.
  verdict_later :
      (l : Lane) (pol : Policy) (q p : ℕ)
      → 0 < q
      → q < p
      → p ≤ durable
      → IsHeld acked durable l
      → verdict (decide_one l.fence pol q).0 pol p ≡ verdict l.fence pol p
  verdict_later l pol q p h0 hq hp h =
      let on : contains (decide_one l.fence pol q).0.withheld p ≡ contains l.fence.withheld p =
        decide_one-contains acked durable small l.fence pol q p h.mem.attempted h0 (omega arith) hp
          h.mem.set
        ∙ ground arith in
      elim (decide_one-cases acked durable small l.fence pol q h.mem.attempted (omega arith)) [
        | inl same ↦ rw same refl
        | inr (grown, above) ↦ rw grown (rw (rw grown at on) refl)
      ]

  decide_frames-IsJudged :
      (l : Lane) (pol : Policy) (low : ℕ) (recs rs : List Record)
      → Rising frames durable low recs
      → IsHeld acked durable l
      → (decide_frames placeholder l.fence pol recs).1 ≡ some rs
      → All (IsJudged placeholder frames durable l.fence pol low) rs
  unfolding decide_frames
  decide_frames-IsJudged l pol low [] rs rise h e =
      let same : [] ≡ rs = ground arith in
      subst (All (IsJudged placeholder frames durable l.fence pol low)) same tt
  decide_frames-IsJudged l pol low (r ∷ recs) rs rise h e =
      let one = decide_one l.fence pol r.sequence in
      let m : Lane = record l { fence = one.0 } in
      let k =
        decide_one-Keeps acked durable small l pol r.sequence (omega (arith, rise.0)) rise.1 h in
      let mark : one.1 ≡ verdict l.fence pol r.sequence =
        decide_one-eq acked durable small l.fence pol r.sequence h.mem.attempted rise.1 in
      let rest = decide_frames placeholder one.0 pol recs in
      let later = λ (xs : List Record) (x : rest.1 ≡ some xs).
        All-map
          (λ t j. (
            omega (arith, j.0, rise.0),
            j.1,
            j.2
                ∙ ap (λ b. verdict_payload placeholder frames b t.sequence)
                    (verdict_later l pol r.sequence t.sequence (omega (arith, rise.0)) j.0 j.1 h),
          ))
          xs (decide_frames-IsJudged m pol r.sequence recs xs rise.3 k.held x) in
      let cons = λ (r' : Record) (d : IsJudged placeholder frames durable l.fence pol low r').
        all-cons (IsJudged placeholder frames durable l.fence pol low) r' rest.1 d later rs in
      elim (Bool-cases one.1) [
        | inl hidden ↦ elim (Option-cases (placeholder r)) [
          | inl failed ↦ absurd (none-ne-some (rw (hidden, failed, decide_frames) at e))
          | inr (p, made) ↦
              cons (record r { payload = p })
                (
                  rise.0,
                  rise.1,
                  rw (sym mark ∙ hidden)
                      (made_from placeholder frames acked durable small r p rise.2 made),
                )
                (rw (hidden, made, decide_frames) at e)
        ]
        | inr plain ↦
            cons r (rise.0, rise.1, rw (sym mark ∙ plain) (ap some rise.2))
              (rw (plain, decide_frames) at e)
      ]

  -- No frame is dropped, and none is put in.
  decide_frames-sequences :
      (f : Fence) (pol : Policy) (recs rs : List Record)
      → (decide_frames placeholder f pol recs).1 ≡ some rs
      → sequences rs ≡ sequences recs
  unfolding decide_frames
  decide_frames-sequences f pol [] rs e =
      let same : [] ≡ rs = ground arith in ap sequences (sym same)
  decide_frames-sequences f pol (r ∷ recs) rs e =
      let one = decide_one f pol r.sequence in
      let rest = decide_frames placeholder one.0 pol recs in
      elim (Bool-cases one.1) [
        | inl hidden ↦ elim (Option-cases (placeholder r)) [
          | inl failed ↦ absurd (none-ne-some (rw (hidden, failed, decide_frames) at e))
          | inr (p, made) ↦
              cons_sequences (record r { payload = p }) rest.1 (sequences recs) rs
                (λ xs x. decide_frames-sequences one.0 pol recs xs x)
                (rw (hidden, made, decide_frames) at e)
        ]
        | inr plain ↦
            cons_sequences r rest.1 (sequences recs) rs
              (λ xs x. decide_frames-sequences one.0 pol recs xs x) (rw (plain, decide_frames) at e)
      ]

  -- Of a batch of frames with rising sequences on a sound fence, a decision that reports no error
  -- gives a frame for each sequence of the batch, in the same order. It puts exactly these out as
  -- their placeholder: the ones withheld once the newest policy is applied to the backlog, and
  -- the ones not sent yet whose origin that policy does not consent to. Every other frame goes
  -- out as it is.
  pub decide_judges :
      (l : Lane) (w : LedgerWrite) (published : Policy) (recs rs : List Record)
      → Rising frames durable acked recs
      → IsHeld acked durable l
      → (decide placeholder l w published recs).1 ≡ some rs
      → (sequences rs ≡ sequences recs)
        × All
            (IsJudged placeholder frames durable
              (apply_and_record l w (fence_latest l.fence published)).0.fence
              (fence_latest l.fence published)
              acked)
            rs
  unfolding decide
  decide_judges l w published recs rs rise h e =
      let now = fence_latest l.fence published in
      (
        decide_frames-sequences (apply_and_record l w now).0.fence now recs rs e,
        decide_frames-IsJudged (apply_and_record l w now).0 now acked recs rs rise
            (apply_and_record-Keeps acked durable small l w now h).held e,
      )
