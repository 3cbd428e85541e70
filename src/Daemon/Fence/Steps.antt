-- ===== src/Daemon/Fence/Steps.antt =====
-- The methods of the fence that append, send, acknowledge and shut down, each kept as in Kept.
use gasworks.Prelude.{
  ℕ, ◌≤◌, ◌<◌, ◌≡◌, ◌≢◌, inr, refl, sym, ◌∙◌, Bool, true, false, ◌||◌, List, [], ◌∷◌, Option, none,
  some, arith, if-intro, lt→ltb,
}
use gasworks.Word.{max_int64, slt, sle}
use gasworks.Daemon.Consent.{Policy}
use gasworks.Daemon.Fence.Ranges.{SeqRange, smax, add, prune}
use gasworks.Daemon.Fence.Ranges.Sets.{prune-Ascending, contains-prune}
use gasworks.Daemon.Fence.Origins.{ConsentOrigin, OriginRun, allowed_by, add_run, IsBounded}
use gasworks.Daemon.Fence.Origins.Bounds.{
  add_run-IsBounded, prune_origins-IsBounded, IsBounded-raise,
}
use gasworks.Daemon.Fence.Ledger.{Shutdown}
use gasworks.Daemon.Fence.{
  Fence, Lane, LedgerWrite, written, kept, replaced, persist_ledger, record_append, fence_latest,
  forget, before_send, record_shutdown, shutdown_record, unsent_runs, highest_run, pending_highest,
  is_pending,
}
use gasworks.Daemon.Fence.Withheld.{IsSeqSet, add-IsSeqSet, add-Grows, Grows-refl}
use gasworks.Daemon.Fence.Kept.{
  IsCurrent, IsHeld, Keeps, persist_ledger-Keeps, grown-Keeps, Keeps-trans, restored-Keeps,
  shutdown_of, ranges_of,
}

unsent_runs-IsBounded :
    (attempted durable : ℕ) (runs : List OriginRun)
    → attempted ≤ durable
    → durable < max_int64
    → IsBounded durable runs
    → IsBounded durable (unsent_runs attempted runs)
unfolding unsent_runs
unsent_runs-IsBounded attempted durable [] ha small b = tt
unsent_runs-IsBounded attempted durable (r ∷ rs) ha small b =
    ground (arith, b.0, unsent_runs-IsBounded attempted durable rs ha small b.1)

highest_run_bounds :
    (highest durable : ℕ) (runs : List OriginRun)
    → highest ≤ durable
    → durable < max_int64
    → IsBounded durable runs
    → (highest ≤ highest_run highest runs) × (highest_run highest runs ≤ durable)
unfolding highest_run
highest_run_bounds highest durable [] h small b = (omega arith, omega arith)
highest_run_bounds highest durable (r ∷ rs) h small b =
    let rest =
      highest_run_bounds (smax highest r.last) durable rs (ground (arith, b.0)) small b.1 in
    (ground (arith, rest.0, b.0), rest.1)

is_pending-false {ℓ} : {A : Type ℓ} (o : Option A) → is_pending o ≡ false → o ≡ none
is_pending-false none e = refl
is_pending-false (some a) e = cc

module _ (acked durable : ℕ) (small : durable < max_int64) where
  shutdown_record-IsCurrent :
      (f : Fence) (highest : ℕ)
      → f.attempted ≤ durable
      → IsBounded durable f.origins
      → highest ≤ durable
      → IsCurrent f.attempted durable (some (shutdown_record f highest))
  unfolding shutdown_record
  shutdown_record-IsCurrent f highest ha b hh =
      let runs = unsent_runs-IsBounded f.attempted durable f.origins ha small b in
      let top =
        highest_run_bounds (smax highest f.attempted) durable (unsent_runs f.attempted f.origins)
          (ground arith) small runs in
      (omega arith, ground (arith, top.0), top.1, runs)

  IsCurrent-lower :
      (a a' : ℕ) (p : Option Shutdown) → a' ≤ a → IsCurrent a durable p → IsCurrent a' durable p
  IsCurrent-lower a a' none h c = tt
  IsCurrent-lower a a' (some sh) h c = (omega (arith, c.0), c.1, c.2, c.3)

  pending_highest-le :
      (a : ℕ) (p : Option Shutdown) → IsCurrent a durable p → pending_highest p ≤ durable
  pending_highest-le a none c = omega arith
  pending_highest-le a (some sh) c = omega (arith, c.2)

  pub before_send-Keeps :
      (l : Lane) (w : LedgerWrite) (last : ℕ)
      → last ≤ durable
      → IsHeld acked durable l
      → Keeps acked durable l.fence (before_send l w last).0
  unfolding before_send
  before_send-Keeps l w last hl h =
      let f = l.fence in
      let P = λ (r : Lane × Bool). Keeps acked durable f r.0 in
      let a = smax f.attempted last in
      let up : f.attempted ≤ a = ground (arith, h.mem.attempted) in
      let fits : a ≤ durable = ground (arith, h.mem.attempted) in
      let final : Fence = record f { attempted = a } in
      let sh = shutdown_record final (pending_highest f.pending) in
      let c =
        shutdown_record-IsCurrent final (pending_highest f.pending) fits h.mem.origins
          (pending_highest-le f.attempted f.pending h.mem.pending) in
      if-intro P f.recorded
        (λ again.
          restored-Keeps acked durable small l w a (some sh) f.recorded h up fits c
            (IsCurrent-lower a f.attempted (some sh) up c) (λ e. cc)
            (λ e n. cc (h.mem.recorded n, again)))
        (λ once.
          if-intro P (is_pending f.pending)
            (λ _.
              restored-Keeps acked durable small l w a none f.recorded h up fits tt tt (λ e. once)
                (λ e n. refl))
            (λ idle.
              let n : f.pending ≡ none = is_pending-false f.pending idle in
              let p : IsCurrent a durable f.pending = rw n tt in
              if-intro P f.dirty
                (λ _.
                  restored-Keeps acked durable small l w a f.pending f.recorded h up fits p
                    h.mem.pending h.mem.recorded (λ e m. m))
                (λ clean. record {
                  held = record {
                    mem = record {
                      set = h.mem.set;
                      origins = h.mem.origins;
                      attempted = fits;
                      recorded = h.mem.recorded;
                      pending = p;
                    };
                    disk = record {
                      set = h.disk.set;
                      synced = λ q b k o. h.disk.synced q b k (inr clean);
                      owed = h.disk.owed;
                      shutdown = rw (h.disk.owed n) tt;
                    };
                  };
                  stays = record { raised = up; fixed = λ q b k. refl };
                })))

  -- A send that was let through: the range is final, and the decisions are as they were.
  pub before_send_lem :
      (l : Lane) (w : LedgerWrite) (last : ℕ)
      → last ≤ durable
      → l.fence.attempted ≤ durable
      → (before_send l w last).1 ≡ true
      → (last ≤ (before_send l w last).0.fence.attempted)
        × ((before_send l w last).0.fence.withheld ≡ l.fence.withheld)
  unfolding before_send persist_ledger
  before_send_lem l written last hl ha sent = ground arith
  before_send_lem l kept last hl ha sent = ground arith
  before_send_lem l replaced last hl ha sent = ground arith

  pub record_shutdown-Keeps :
      (l : Lane) (w : LedgerWrite) (highest : ℕ)
      → highest ≤ durable
      → w ≢ replaced
      → IsHeld acked durable l
      → Keeps acked durable l.fence (record_shutdown l w highest).0
  unfolding record_shutdown
  record_shutdown-Keeps l w highest hh whole h =
      let f = l.fence in
      let c = shutdown_record-IsCurrent f highest h.mem.attempted h.mem.origins hh in
      restored-Keeps acked durable small l w f.attempted (some (shutdown_record f highest)) true h
        (omega arith) h.mem.attempted c c (λ e. cc) (λ e. absurd (whole e))

  prune-IsSeqSet :
      (through : ℕ) (s : List SeqRange)
      → through ≤ durable
      → IsSeqSet durable s
      → IsSeqSet durable (prune s through)
  prune-IsSeqSet through s fits i = record {
    ascending = prune-Ascending 0 through s (omega arith) i.ascending;
    below = λ q a k.
        contains-prune 0 through q s (omega arith) k i.ascending ∙ ground (arith, i.below q a k);
  }

  pub forget-IsHeld :
      (l : Lane) (through : ℕ)
      → acked ≤ through
      → through ≤ durable
      → IsHeld acked durable l
      → IsHeld through durable (record l { fence = forget l.fence through })
  unfolding forget
  forget-IsHeld l through up fits h = record {
    mem = record {
      set = prune-IsSeqSet through l.fence.withheld fits h.mem.set;
      origins = prune_origins-IsBounded durable small l.fence.origins through fits h.mem.origins;
      attempted = h.mem.attempted;
      recorded = h.mem.recorded;
      pending = h.mem.pending;
    };
    disk = record {
      set = h.disk.set;
      synced = λ q a k o.
          h.disk.synced q (omega arith) k o
          ∙ sym (
              contains-prune 0 through q l.fence.withheld (omega arith) k h.mem.set.ascending
              ∙ rw (lt→ltb through q a) refl);
      owed = h.disk.owed;
      shutdown = h.disk.shutdown;
    };
  }

  pub raise-IsSeqSet :
      (s : List SeqRange) (durable' : ℕ)
      → durable ≤ durable'
      → IsSeqSet durable s
      → IsSeqSet durable' s
  raise-IsSeqSet s durable' up i = record {
    ascending = i.ascending;
    below = λ q a k. i.below q (omega arith) k;
  }

  pub IsCurrent-raise :
      (a durable' : ℕ) (p : Option Shutdown)
      → durable ≤ durable'
      → IsCurrent a durable p
      → IsCurrent a durable' p
  IsCurrent-raise a durable' none up c = tt
  IsCurrent-raise a durable' (some sh) up c =
      (c.0, c.1, omega (arith, c.2), IsBounded-raise durable durable' sh.origins up c.3)

  pub raise-IsHeld :
      (l : Lane) (durable' : ℕ)
      → durable ≤ durable'
      → durable' < max_int64
      → IsHeld acked durable l
      → IsHeld acked durable' l
  raise-IsHeld l durable' up small' h = record {
    mem = record {
      set = raise-IsSeqSet l.fence.withheld durable' up h.mem.set;
      origins = IsBounded-raise durable durable' l.fence.origins up h.mem.origins;
      attempted = omega (arith, h.mem.attempted);
      recorded = h.mem.recorded;
      pending = IsCurrent-raise l.fence.attempted durable' l.fence.pending up h.mem.pending;
    };
    disk = record {
      set = raise-IsSeqSet (ranges_of l.file) durable' up h.disk.set;
      synced = h.disk.synced;
      owed = h.disk.owed;
      shutdown = IsCurrent-raise l.fence.attempted durable' (shutdown_of l.file) up h.disk.shutdown;
    };
  }

  pub record_append-Keeps :
      (l : Lane) (w : LedgerWrite) (pol : Policy) (seq : ℕ) (o : ConsentOrigin)
      → 0 < seq
      → seq ≤ durable
      → l.fence.attempted < seq
      → IsHeld acked durable l
      → Keeps acked durable l.fence (record_append l w pol seq o)
  unfolding record_append
  record_append-Keeps l w pol seq o hs fits above h =
      let f = l.fence in
      let x = add_run f.origins seq seq o in
      let bx =
        add_run-IsBounded durable small f.origins seq seq o hs (omega arith) fits h.mem.origins in
      let plain =
        grown-Keeps acked durable small l x f.withheld f.applied f.dirty false h bx h.mem.set
          (Grows-refl f.attempted f.withheld false) (λ e. (e, refl)) in
      let grown =
        grown-Keeps acked durable small l x (add f.withheld seq seq).0 f.applied true
          (slt 0 (add f.withheld seq seq).1) h bx
          (add-IsSeqSet f.attempted durable h.mem.attempted small f.withheld seq seq hs
            (omega arith) fits h.mem.set)
          (add-Grows f.attempted durable h.mem.attempted small f.withheld seq seq above
            (omega arith) fits h.mem.set)
          (λ e. cc) in
      let next : Lane = record l {
        fence = record f { origins = x; withheld = (add f.withheld seq seq).0; dirty = true };
      } in
      if-intro (Keeps acked durable f) (sle seq f.attempted || allowed_by o (fence_latest f pol))
        (λ _. plain)
        (λ _.
          Keeps-trans acked durable small f next (persist_ledger next w).0 grown.stays
            (persist_ledger-Keeps acked durable small next w grown.held))
