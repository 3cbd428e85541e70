-- ===== src/Daemon/Fence/Uploads/Finality.antt =====
-- A sequence that was sent is never decided again.
use gasworks.Prelude.{
  ℕ, ◌≤◌, ◌<◌, ◌≡◌, refl, sym, ◌∙◌, inl, inr, subst, true, List, [], ◌++◌, Option, some, leb, All,
  All-append, All-map, Bool-cases, Option-cases, arith,
}
use gasworks.Word.{max_int64}
use gasworks.Upload.Batch.{Record}
use gasworks.Daemon.Consent.{Policy}
use gasworks.Daemon.Fence.Origins.{ConsentOrigin}
use gasworks.Daemon.Fence.{Fence, LedgerWrite, record_append, decide, before_send, forget}
use gasworks.Daemon.Fence.Kept.{Stays-refl}
use gasworks.Daemon.Fence.Steps.{
  record_append-Keeps, before_send-Keeps, before_send_lem, forget-IsHeld, raise-IsHeld,
  record_shutdown-Keeps,
}
use gasworks.Daemon.Fence.Resume.{new_consent_fence-Keeps}
use gasworks.Daemon.Fence.Decisions.{Rising, payload_of, IsDecided, decide_all}
use gasworks.Daemon.Fence.Uploads.{
  Pipeline, through, planned_of, Step, Reach, IsFirst, appends, others, refreshes, plans, sends,
  fails_to_record, acknowledges, shuts_down, restarts, here, next,
}
use gasworks.Daemon.Fence.Uploads.Invariant.{
  through-All, forget_same, forget-contains, refresh-Keeps, record_append-contains,
  record_shutdown-withheld, idle_lane, idle-IsHeld, IsFinal, Agree, Inv, payload_of-contains,
  payload_of-kind, Stays-IsFinal, quiet-Inv,
}

module _ (placeholder : Record → Option (List ℕ)) (frames : ℕ → List ℕ) where
  decided_at :
      (f : Fence) (q : ℕ) (r : Record)
      → some r.payload ≡ payload_of placeholder frames f.withheld r.sequence
      → r.sequence ≡ q
      → some r.payload ≡ payload_of placeholder frames f.withheld q
  decided_at f q r e same =
      subst (λ n. some r.payload ≡ payload_of placeholder frames f.withheld n) same e

  appends-Inv :
      (w : Pipeline) (out : LedgerWrite) (pol : Policy) (seq : ℕ) (o : ConsentOrigin)
      → w.durable < seq
      → seq < max_int64
      → Inv placeholder frames w
      → Inv placeholder frames
          (record w { lane = record_append w.lane out pol seq o; durable = seq })
  appends-Inv w out pol seq o up small i =
      let raised = raise-IsHeld w.acked w.durable i.small w.lane seq (omega arith) small i.held in
      let k =
        record_append-Keeps w.acked seq small w.lane out pol seq o (omega arith) (omega arith)
          (omega (arith, i.held.mem.attempted)) raised in
      quiet-Inv placeholder frames w _ w.planned seq small i k (
        All-map
          (λ r h. (
            h.0,
            omega (arith, h.1),
            h.2
                ∙ sym (
                    payload_of-contains placeholder frames _ _ r.sequence (
                      record_append-contains w.durable w.lane out pol seq r.sequence o (omega arith)
                        small (omega (arith, h.1)) i.held.mem.set)),
          ))
          w.planned i.planned)

  raises-Inv :
      (w : Pipeline) (seq : ℕ)
      → w.durable < seq
      → seq < max_int64
      → Inv placeholder frames w
      → Inv placeholder frames (record w { durable = seq })
  raises-Inv w seq up small i =
      let raised = raise-IsHeld w.acked w.durable i.small w.lane seq (omega arith) small i.held in
      quiet-Inv placeholder frames w w.lane w.planned seq small i
        (record { held = raised; stays = Stays-refl w.acked w.lane.fence })
        (All-map (λ r h. (h.0, omega (arith, h.1), h.2)) w.planned i.planned)

  plans-Inv :
      (w : Pipeline) (out : LedgerWrite) (pol : Policy) (recs : List Record)
      → Rising frames w.durable w.acked recs
      → Inv placeholder frames w
      → Inv placeholder frames (record w {
        lane = (decide placeholder w.lane out pol recs).0;
        planned = planned_of (decide placeholder w.lane out pol recs).1;
      })
  plans-Inv w out pol recs rise i =
      let (k, all) =
        decide_all placeholder frames w.acked w.durable i.small w.lane out pol recs rise i.held in
      quiet-Inv placeholder frames w _ _ w.durable i.small i k
        (elim (Option-cases (decide placeholder w.lane out pol recs).1) [
          | inl failed ↦ rw failed tt
          | inr (rs, read) ↦ rw read (all rs read)
        ])

  sends-Inv :
      (w : Pipeline) (out : LedgerWrite) (last : ℕ)
      → last ≤ w.durable
      → (before_send w.lane out last).1 ≡ true
      → Inv placeholder frames w
      → Inv placeholder frames (record w {
        lane = (before_send w.lane out last).0;
        planned = [];
        sent = w.sent ++ through last w.planned;
      })
  sends-Inv w out last fits sent i =
      let f = w.lane.fence in
      let l = (before_send w.lane out last).0 in
      let k = before_send-Keeps w.acked w.durable i.small w.lane out last fits i.held in
      let (marked, same) =
        before_send_lem w.acked w.durable i.small w.lane out last fits i.held.mem.attempted sent in
      let now = through-All _ last w.planned i.planned in
      record {
        small = i.small;
        held = k.held;
        planned = tt;
        sent =
            All-append (IsFinal placeholder frames w.acked l.fence) w.sent _
              (Stays-IsFinal placeholder frames w.acked f l.fence w.sent k.stays i.sent)
              (All-map
                (λ r h. (
                  omega (arith, h.1, marked),
                  λ above.
                      subst (λ s. some r.payload ≡ payload_of placeholder frames s r.sequence)
                        (sym same) h.0.2,
                ))
                (through last w.planned) now);
        one = λ q. elim (Bool-cases (leb q w.acked)) [
          | inl done ↦ (
            (i.one q).0,
            record {
              kind = (i.one q).1.kind;
              all =
                  All-append _ w.sent _ (i.one q).1.all (
                    All-map (λ r h e. absurd (ground (arith, h.0.0))) (through last w.planned) now);
            },
          )
          | inr owed ↦ (
            payload_of placeholder frames f.withheld q,
            record {
              kind = payload_of-kind placeholder frames f.withheld q;
              all =
                  All-append _ w.sent _
                    (All-map (λ r h e. decided_at f q r (h.1 (ground arith)) e) w.sent i.sent)
                    (All-map (λ r h e. decided_at f q r h.0.2 e) (through last w.planned) now);
            },
          )
        ];
      }

  acknowledges-Inv :
      (w : Pipeline) (upto : ℕ)
      → w.acked ≤ upto
      → upto ≤ w.durable
      → Inv placeholder frames w
      → Inv placeholder frames (record w {
        lane = record w.lane { fence = forget w.lane.fence upto };
        planned = [];
        acked = upto;
      })
  acknowledges-Inv w upto up fits i = record {
    small = i.small;
    held = forget-IsHeld w.acked w.durable i.small w.lane upto up fits i.held;
    planned = tt;
    sent =
        All-map
          (λ r h. (
            forget_same w.lane.fence upto r h.0,
            λ above.
                h.1 (omega arith)
                ∙ sym (
                    payload_of-contains placeholder frames _ _ r.sequence (
                      forget-contains w.lane.fence w.durable upto r.sequence i.small fits above
                        (omega (arith, h.0, i.held.mem.attempted)) i.held.mem.set)),
          ))
          w.sent i.sent;
    one = i.one;
  }

  Step-Inv :
      {w w' : Pipeline}
      → Step placeholder frames w w'
      → Inv placeholder frames w
      → Inv placeholder frames w'
  Step-Inv {w} (appends out pol seq o up small e) i =
      subst (Inv placeholder frames) (sym e) (appends-Inv w out pol seq o up small i)
  Step-Inv {w} (others seq up small e) i =
      subst (Inv placeholder frames) (sym e) (raises-Inv w seq up small i)
  Step-Inv {w} (refreshes out pol e) i = subst (Inv placeholder frames) (sym e) (
      quiet-Inv placeholder frames w _ [] w.durable i.small i
        (refresh-Keeps w.acked w.durable i.small w.lane out pol i.held) tt)
  Step-Inv {w} (plans out pol recs rise e) i =
      subst (Inv placeholder frames) (sym e) (plans-Inv w out pol recs rise i)
  Step-Inv {w} (sends out last fits sent e) i =
      subst (Inv placeholder frames) (sym e) (sends-Inv w out last fits sent i)
  Step-Inv {w} (fails_to_record out last fits e) i = subst (Inv placeholder frames) (sym e) (
      quiet-Inv placeholder frames w _ [] w.durable i.small i
        (before_send-Keeps w.acked w.durable i.small w.lane out last fits i.held) tt)
  Step-Inv {w} (acknowledges upto up fits e) i =
      subst (Inv placeholder frames) (sym e) (acknowledges-Inv w upto up fits i)
  Step-Inv {w} (shuts_down out highest fits whole e) i = subst (Inv placeholder frames) (sym e) (
      quiet-Inv placeholder frames w _ w.planned w.durable i.small i
        (record_shutdown-Keeps w.acked w.durable i.small w.lane out highest fits whole i.held)
        (subst (λ s. All (IsDecided placeholder frames w.acked w.durable s) w.planned)
          (sym (record_shutdown-withheld w.lane out highest)) i.planned))
  Step-Inv {w} (restarts live out highest r up small started e) i =
      subst (Inv placeholder frames) (sym e) (
        quiet-Inv placeholder frames w r.0 [] highest small i
          (new_consent_fence-Keeps w.acked w.durable highest up small w.lane i.held live out r
            started)
          tt)

  Reach-Inv :
      {w w' : Pipeline}
      → Reach placeholder frames w w'
      → Inv placeholder frames w
      → Inv placeholder frames w'
  Reach-Inv here i = i
  Reach-Inv (next r st) i = Step-Inv st (Reach-Inv r i)

  IsFirst-Inv : (w : Pipeline) → IsFirst w → Inv placeholder frames w
  IsFirst-Inv w first =
      let k =
        new_consent_fence-Keeps w.acked w.durable w.durable (omega arith) first.small idle_lane
          (idle-IsHeld w.acked w.durable first.small) first.live first.write first.result
          first.started in
      record {
        small = first.small;
        held = rw first.lane k.held;
        planned = rw first.planned tt;
        sent = rw first.sent tt;
        one = λ q. (some (frames q), record { kind = inr refl; all = rw first.sent tt });
      }

  -- From a first start on, after any order of the steps of the watcher, the upload loop,
  -- shutdowns and restarts, whatever the policies and whichever writes of the ledger fail (one of
  -- a shutdown record not behind its rename), with no durable frame lost: every sequence has one
  -- payload that all frames sent with it carry, and it is the frame's own or its placeholder.
  pub sent_once :
      (w w' : Pipeline) (q : ℕ)
      → IsFirst w
      → Reach placeholder frames w w'
      → (p : Option (List ℕ)) × Agree placeholder frames w'.sent q p
  sent_once w w' q first r = (Reach-Inv r (IsFirst-Inv w first)).one q
