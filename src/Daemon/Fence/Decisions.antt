-- ===== src/Daemon/Fence/Decisions.antt =====
-- What `decide` makes of the frames of a batch.
pub mod Verdicts
use gasworks.Prelude.{
  ℕ, ◌+◌, ◌≤◌, ◌<◌, ◌≡◌, ◌⊎◌, inl, inr, refl, sym, ap, ◌∙◌, Bool, true, false, ◌||◌, ◌&&◌, List, [],
  ◌∷◌, Option, none, some, if◌then◌else◌, arith, leb, ltb, Bool-cases, Option-cases, if-intro,
  subst, All, ◌==◌,
}
use mathlib.Core.Option
use gasworks.Word.{max_int64, slt, sle}
use gasworks.Upload.Batch.{Record}
use gasworks.Daemon.Consent.{Policy}
use gasworks.Daemon.Fence.Ranges.{SeqRange, add, contains}
use gasworks.Daemon.Fence.Ranges.Sets.{contains-add}
use gasworks.Daemon.Fence.Origins.{ConsentOrigin, allowed_by, lookup_origin}
use gasworks.Daemon.Fence.{
  Fence, Lane, LedgerWrite, decide_one, decide_frames, decide, apply_and_record, fence_latest,
}
use gasworks.Daemon.Fence.Withheld.{IsSeqSet, Grows, add-IsSeqSet, add-Grows}
use gasworks.Daemon.Fence.Kept.{
  IsHeld, Stays, Keeps, Stays-refl, Keeps-trans, grown-Keeps, apply_and_record-Keeps,
}

-- Whether the policy withholds a frame that was not sent and is not withheld yet.
abbrev pub withdrawn : Option ConsentOrigin → Policy → Bool
withdrawn none pol = false
withdrawn (some o) pol = if allowed_by o pol then false else true

-- Sequences that rise from `low` to `durable`, as `frames` has their payloads.
abbrev pub Rising : (ℕ → List ℕ) → ℕ → ℕ → List Record → Type 0
Rising frames durable low [] = Unit {0}
Rising frames durable low (r ∷ rs) =
    (low < r.sequence)
    × (r.sequence ≤ durable)
    × (r.payload ≡ frames r.sequence)
    × Rising frames durable r.sequence rs

module _ (acked durable : ℕ) (small : durable < max_int64) where
  pub decide_one-eq :
      (f : Fence) (pol : Policy) (q : ℕ)
      → f.attempted ≤ durable
      → q ≤ durable
      → (decide_one f pol q).1 ≡ (
          contains f.withheld q || (ltb f.attempted q && withdrawn (lookup_origin f.origins q) pol))
  unfolding decide_one
  decide_one-eq f pol q ha hq = ground arith

  -- A frame that is withheld now.
  abbrev pub newly : Fence → ℕ → Fence
  newly f q = record f { withheld = (add f.withheld q q).0; dirty = true }

  pub decide_one-cases :
      (f : Fence) (pol : Policy) (q : ℕ)
      → f.attempted ≤ durable
      → q ≤ durable
      → (decide_one f pol q ≡ (f, contains f.withheld q))
        ⊎ ((decide_one f pol q ≡ (newly f q, true)) × (f.attempted < q))
  unfolding decide_one
  decide_one-cases f pol q ha hq = ground arith

  pub decide_one-Keeps :
      (l : Lane) (pol : Policy) (q : ℕ)
      → 0 < q
      → q ≤ durable
      → IsHeld acked durable l
      → Keeps acked durable l.fence (record l { fence = (decide_one l.fence pol q).0 })
  decide_one-Keeps l pol q h0 hq h =
      let f = l.fence in
      let a = h.mem.attempted in
      elim (decide_one-cases f pol q a hq) [
        | inl same ↦ rw same (record { held = h; stays = Stays-refl acked f })
        | inr (grown, above) ↦ rw grown (
            grown-Keeps acked durable small l f.origins (add f.withheld q q).0 f.applied true
              (slt 0 (add f.withheld q q).1) h h.mem.origins
              (add-IsSeqSet f.attempted durable a small f.withheld q q h0 (omega arith) hq
                h.mem.set)
              (add-Grows f.attempted durable a small f.withheld q q above (omega arith) hq
                h.mem.set)
              (λ e. cc))
      ]

  -- The set afterwards says what was decided, and nothing else changed.
  pub decide_one-contains :
      (f : Fence) (pol : Policy) (q p : ℕ)
      → f.attempted ≤ durable
      → 0 < q
      → q ≤ durable
      → p ≤ durable
      → IsSeqSet durable f.withheld
      → contains (decide_one f pol q).0.withheld p
        ≡ (if p == q then (decide_one f pol q).1 else contains f.withheld p)
  decide_one-contains f pol q p ha h0 hq hp i = elim (decide_one-cases f pol q ha hq) [
    | inl same ↦ rw same (ground arith)
    | inr (grown, above) ↦ rw grown (
        contains-add f.withheld q q p h0 (omega arith) (omega arith) (omega arith) i.ascending
        ∙ ground arith)
  ]

pub none-ne-some : {xs : List Record} → ◌≡◌ {A = Option (List Record)} none (some xs) → ⊥
none-ne-some e = cc

-- A frame in front of those that were made.
pub all-cons :
    (P : Record → Type 0) (r : Record) (o : Option (List Record))
    → P r
    → ((rs : List Record) → o ≡ some rs → All P rs)
    → (rs : List Record) → Option.map (λ (xs : List Record). r ∷ xs) o ≡ some rs
    → All P rs
all-cons P r none d h rs e = absurd (none-ne-some e)
all-cons P r (some xs) d h rs e =
    let same : r ∷ xs ≡ rs = ground arith in subst (All P) same (d, h xs refl)

module _ (placeholder : Record → Option (List ℕ)) (frames : ℕ → List ℕ) where
  abbrev pub frame_at : ℕ → Record
  frame_at q = record { sequence = q; payload = frames q }

  -- What the set says goes out at the sequence.
  abbrev pub payload_of : List SeqRange → ℕ → Option (List ℕ)
  payload_of s q = if contains s q then placeholder (frame_at q) else some (frames q)

  -- A frame above `acked`, as decided by the set.
  abbrev pub IsDecided : ℕ → ℕ → List SeqRange → Record → Type 0
  IsDecided acked durable s r =
      (acked < r.sequence) × (r.sequence ≤ durable) × (some r.payload ≡ payload_of s r.sequence)

module _ (placeholder : Record → Option (List ℕ)) (frames : ℕ → List ℕ) (acked durable : ℕ)
    (small : durable < max_int64) where
  pub made_from :
      (r : Record) (p : List ℕ)
      → r.payload ≡ frames r.sequence
      → placeholder r ≡ some p
      → some p ≡ placeholder (frame_at placeholder frames r.sequence)
  made_from r p e made =
      sym made ∙ ap (λ (t : List ℕ). placeholder (record { sequence = r.sequence; payload = t })) e

  pub record Decided (l : Lane) (low : ℕ) (r : Fence × Option (List Record)) : Type 0 where
    pub keeps : Keeps acked durable l.fence (record l { fence = r.0 })
    pub before :
        (q : ℕ) → q ≤ low → q ≤ durable → contains r.0.withheld q ≡ contains l.fence.withheld q
    pub all :
        (rs : List Record)
        → r.1 ≡ some rs
        → All (IsDecided placeholder frames acked durable r.0.withheld) rs

  -- One frame, and the ones behind it.
  module _ (l : Lane) (pol : Policy) (low : ℕ) (r : Record) (up : acked ≤ low)
      (above : low < r.sequence) (fits : r.sequence ≤ durable) (h : IsHeld acked durable l) where
    abbrev first_step : Fence × Bool
    first_step = decide_one l.fence pol r.sequence

    step-Keeps : Keeps acked durable l.fence (record l { fence = first_step.0 })
    step-Keeps = decide_one-Keeps acked durable small l pol r.sequence (omega arith) fits h

    step-contains :
        (p : ℕ)
        → p ≤ durable
        → contains first_step.0.withheld p
          ≡ (if p == r.sequence then first_step.1 else contains l.fence.withheld p)
    step-contains p hp =
        decide_one-contains acked durable small l.fence pol r.sequence p h.mem.attempted
          (omega arith) fits hp h.mem.set

    step-before :
        (s : List SeqRange)
        → ((q : ℕ) → q ≤ r.sequence → q ≤ durable → contains s q ≡ contains first_step.0.withheld q)
        → (q : ℕ) → q ≤ low
        → q ≤ durable
        → contains s q ≡ contains l.fence.withheld q
    step-before s on q a b =
        on q (omega arith) b ∙ step-contains q b ∙ ground (arith, step-contains q b)

    step-mark :
        (s : List SeqRange)
        → ((q : ℕ) → q ≤ r.sequence → q ≤ durable → contains s q ≡ contains first_step.0.withheld q)
        → contains s r.sequence ≡ first_step.1
    step-mark s on = on r.sequence (omega arith) fits ∙ step-contains r.sequence fits ∙ ground arith

    cons-Decided :
        (r' : Record) (rest : Fence × Option (List Record))
        → r'.sequence ≡ r.sequence
        → (contains rest.0.withheld r.sequence ≡ first_step.1
            → some r'.payload ≡ payload_of placeholder frames rest.0.withheld r.sequence)
        → Decided (record l { fence = first_step.0 }) r.sequence rest
        → Decided l low (rest.0, Option.map (λ (xs : List Record). r' ∷ xs) rest.1)
    cons-Decided r' rest e payload d = record {
      keeps =
          Keeps-trans acked durable small l.fence (record l { fence = first_step.0 })
            (record l { fence = rest.0 }) step-Keeps.stays d.keeps;
      before = step-before rest.0.withheld d.before;
      all =
          all-cons (IsDecided placeholder frames acked durable rest.0.withheld) r' rest.1
            (
              omega (arith, e),
              omega (arith, e),
              rw e (payload (step-mark rest.0.withheld d.before)),
            )
            d.all;
    }

  decide_frames-Decided :
      (l : Lane) (pol : Policy) (low : ℕ) (recs : List Record)
      → acked ≤ low
      → Rising frames durable low recs
      → IsHeld acked durable l
      → Decided l low (decide_frames placeholder l.fence pol recs)
  unfolding decide_frames
  decide_frames-Decided l pol low [] up rise h = record {
    keeps = record { held = h; stays = Stays-refl acked l.fence };
    before = λ q a b. refl;
    all = λ rs e.
        let same : [] ≡ rs = ground arith in
        subst (All (IsDecided placeholder frames acked durable l.fence.withheld)) same tt;
  }
  decide_frames-Decided l pol low (r ∷ rs) up rise h =
      let one = decide_one l.fence pol r.sequence in
      let m : Lane = record l { fence = one.0 } in
      let k =
        decide_one-Keeps acked durable small l pol r.sequence (omega (arith, rise.0)) rise.1 h in
      let rest = decide_frames-Decided m pol r.sequence rs (omega (arith, rise.0)) rise.3 k.held in
      let cons = cons-Decided l pol low r up rise.0 rise.1 h in
      elim (Bool-cases one.1) [
        | inl hidden ↦ elim (Option-cases (placeholder r)) [
          | inl failed ↦
              rw (hidden, failed, decide_frames)
                (record {
                  keeps = k;
                  before =
                      step-before l pol low r up rise.0 rise.1 h one.0.withheld (λ q a b. refl);
                  all = λ xs e. absurd (none-ne-some e);
                })
          | inr (p, made) ↦
              rw (hidden, made, decide_frames)
                (cons (record r { payload = p }) _ refl
                  (λ mark. rw (mark ∙ hidden) (made_from r p rise.2 made)) rest)
        ]
        | inr plain ↦
            rw (plain, decide_frames)
              (cons r _ refl (λ mark. rw (mark ∙ plain) (ap some rise.2)) rest)
      ]

  -- A batch: a Keeps, and every frame as the set then says.
  pub decide_all :
      (l : Lane) (w : LedgerWrite) (pol : Policy) (recs : List Record)
      → Rising frames durable acked recs
      → IsHeld acked durable l
      → Keeps acked durable l.fence (decide placeholder l w pol recs).0
        × ((rs : List Record)
            → (decide placeholder l w pol recs).1 ≡ some rs
            → All
                (IsDecided placeholder frames acked durable
                  (decide placeholder l w pol recs).0.fence.withheld)
                rs)
  unfolding decide
  decide_all l w pol recs rise h =
      let now = fence_latest l.fence pol in
      let m = (apply_and_record l w now).0 in
      let k = apply_and_record-Keeps acked durable small l w now h in
      let d = decide_frames-Decided m now acked recs (omega arith) rise k.held in
      (Keeps-trans acked durable small l.fence m _ k.stays d.keeps, d.all)
