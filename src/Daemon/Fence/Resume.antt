-- ===== src/Daemon/Fence/Resume.antt =====
-- A start over the ledger that an earlier run left.
use gasworks.Prelude.{
  ℕ, ◌≤◌, ◌<◌, ◌≡◌, inl, inr, refl, sym, ◌∙◌, Bool, false, ◌||◌, ◌&&◌, List, [], ◌∷◌, Option, none,
  some, Result, ok, err, if◌then◌else◌, arith, leb, if-intro, subst, ap, Result-cases,
}
use gasworks.Word.{max_int64, slt, sle}
use gasworks.Daemon.Fence.Ranges.{SeqRange, from_first, smin, add, contains, Ascending}
use gasworks.Daemon.Fence.Ranges.Sets.{within, add-Ascending, contains-add, contains-cons}
use gasworks.Daemon.Fence.Origins.{OriginRun, IsBounded}
use gasworks.Daemon.Fence.Origins.Bounds.{add_run-IsBounded, IsBounded-raise}
use gasworks.Daemon.Fence.Ledger.{
  ConsentLedger, LedgerFile, LedgerError, missing, unreadable, document, Shutdown,
  read_consent_ledger,
}
use gasworks.Daemon.Fence.{Fence, Lane, LedgerWrite, no_policy}
use gasworks.Daemon.Fence.Start.{
  load_withheld, load_origins, bare_fence, resumed_fence, start_with, new_consent_fence,
}
use gasworks.Daemon.Fence.Withheld.{IsSeqSet}
use gasworks.Daemon.Fence.Kept.{
  IsCurrent, IsMem, IsHeld, Keeps, Keeps-trans, apply_and_record-Keeps, ranges_of, shutdown_of,
}
use gasworks.Daemon.Fence.Steps.{raise-IsSeqSet}

read_consent_ledger_lem :
    (file : LedgerFile) (doc : ConsentLedger)
    → read_consent_ledger file ≡ ok doc
    → (doc.withheld ≡ ranges_of file) × (doc.shutdown ≡ shutdown_of file)
unfolding read_consent_ledger
read_consent_ledger_lem missing doc e = (ground arith, ground arith)
read_consent_ledger_lem unreadable doc e = cc
read_consent_ledger_lem (document d) doc e = ground arith

load_withheld-Ascending :
    (highest low : ℕ) (rs s : List SeqRange)
    → highest < max_int64
    → Ascending low rs
    → Ascending 0 s
    → Ascending 0 (load_withheld highest rs s)
unfolding load_withheld
load_withheld-Ascending highest low [] s small a i = i
load_withheld-Ascending highest low (r ∷ rs) s small a i =
    load_withheld-Ascending highest r.last rs _ small a.3 (
      if-intro (Ascending 0) (sle r.first highest)
        (λ h.
          add-Ascending s r.first (smin r.last highest) (omega (arith, a.0))
            (omega (arith, a.1, a.2)) (ground (arith, a.2)) i)
        (λ h. i))

contains-nil : (q : ℕ) → contains [] q ≡ false
unfolding contains from_first
contains-nil q = refl

contains-load_withheld :
    (highest low q : ℕ) (rs s : List SeqRange)
    → highest < max_int64
    → q < max_int64
    → Ascending low rs
    → Ascending 0 s
    → contains (load_withheld highest rs s) q ≡ (contains s q || (leb q highest && contains rs q))
unfolding load_withheld
contains-load_withheld highest low q [] s small hq a i = ground (arith, contains-nil q)
contains-load_withheld highest low q (r ∷ rs) s small hq a i =
    let s' = if sle r.first highest then (add s r.first (smin r.last highest)).0 else s in
    let cut : smin r.last highest < max_int64 = ground (arith, a.2) in
    let i' : Ascending 0 s' =
      if-intro (Ascending 0) (sle r.first highest)
        (λ h. add-Ascending s r.first _ (omega (arith, a.0)) (omega (arith, a.1, a.2)) cut i)
        (λ h. i) in
    let one : contains s' q ≡ (contains s q || (leb q highest && within r.first r.last q)) =
      if-intro (λ t. contains t q ≡ (contains s q || (leb q highest && within r.first r.last q)))
        (sle r.first highest)
        (λ h.
          contains-add s r.first _ q (omega (arith, a.0)) (omega (arith, a.1, a.2)) cut hq i
          ∙ ground (arith, a.2))
        (λ h. ground (arith, a.1, a.2)) in
    contains-load_withheld highest r.last q rs s' small hq a.3 i'
    ∙ ground (arith, one, contains-cons low q r rs hq a)

load_origins-IsBounded :
    (attempted highest top : ℕ) (os x : List OriginRun)
    → attempted ≤ top
    → highest ≤ top
    → top < max_int64
    → IsBounded top os
    → IsBounded top x
    → IsBounded top (load_origins attempted highest os x)
unfolding load_origins
load_origins-IsBounded attempted highest top [] x ha hh small b bx = bx
load_origins-IsBounded attempted highest top (o ∷ os) x ha hh small b bx =
    load_origins-IsBounded attempted highest top os _ ha hh small b.1 (
      add_run-IsBounded top small x _ _ o.origin (ground (arith, b.0)) (ground (arith, b.0))
        (ground (arith, b.0)) bx)

not_ok :
    {x : LedgerError} {r : Lane × Bool}
    → ◌≡◌ {A = Result LedgerError (Lane × Bool)} (err x) (ok r)
    → ⊥
not_ok e = cc

module _ (acked durable highest : ℕ) (up : durable ≤ highest) (small : highest < max_int64)
    (l : Lane) (held : IsHeld acked durable l) where
  -- What was loaded is what the file has.
  loaded :
      (ws : List SeqRange)
      → ws ≡ ranges_of l.file
      → (q : ℕ) → q < max_int64
      → contains (load_withheld highest ws []) q ≡ contains (ranges_of l.file) q
  loaded ws e q hq = rw e (
      contains-load_withheld highest 0 q (ranges_of l.file) [] small hq held.disk.set.ascending tt
      ∙ ground (arith, contains-nil q, held.disk.set.below q))

  load_withheld-IsSeqSet :
      (ws : List SeqRange) → ws ≡ ranges_of l.file → IsSeqSet highest (load_withheld highest ws [])
  load_withheld-IsSeqSet ws e = record {
    ascending =
        rw e (
          load_withheld-Ascending highest 0 (ranges_of l.file) [] small held.disk.set.ascending tt);
    below = λ q a k. loaded ws e q k ∙ held.disk.set.below q (omega arith) k;
  }

  -- A fence that begins with what the file has, at or past what may have been sent.
  begun-Keeps :
      (f : Fence)
      → IsMem highest f
      → l.fence.attempted ≤ f.attempted
      → (f.withheld ≡ load_withheld highest (ranges_of l.file) [])
      → (f.pending ≡ shutdown_of l.file)
      → Keeps acked highest l.fence (record { fence = f; file = l.file })
  begun-Keeps f m past e p = record {
    held = record {
      mem = m;
      disk = record {
        set =
            raise-IsSeqSet acked durable (omega arith) (ranges_of l.file) highest up held.disk.set;
        synced = λ q a k o. rw e (sym (loaded (ranges_of l.file) refl q k));
        owed = λ n. sym p ∙ n;
        shutdown = subst (IsCurrent f.attempted highest) p m.pending;
      };
    };
    stays = record {
      raised = past;
      fixed = λ q a b. rw e (
          loaded (ranges_of l.file) refl q (omega (arith, held.mem.attempted))
          ∙ held.disk.synced q a (omega (arith, held.mem.attempted)) (inl b));
    };
  }

  start_with-Keeps :
      (live : Bool) (w : LedgerWrite) (doc : ConsentLedger) (sh : Option Shutdown)
      → doc.withheld ≡ ranges_of l.file
      → sh ≡ shutdown_of l.file
      → Keeps acked highest l.fence (start_with live highest w l.file doc sh).0
  unfolding start_with bare_fence resumed_fence
  start_with-Keeps live w doc none e n =
      begun-Keeps (bare_fence live highest doc)
        (record {
          set = load_withheld-IsSeqSet doc.withheld e;
          origins = tt;
          attempted = omega arith;
          recorded = λ x. refl;
          pending = tt;
        })
        (omega (arith, held.mem.attempted)) (ap (λ t. load_withheld highest t []) e) n
  start_with-Keeps live w doc (some sh) e n =
      let c : IsCurrent l.fence.attempted durable (some sh) =
        subst (IsCurrent l.fence.attempted durable) (sym n) held.disk.shutdown in
      let f = resumed_fence live highest doc sh in
      let begun : Keeps acked highest l.fence (record { fence = f; file = l.file }) =
        begun-Keeps f
          (record {
            set = load_withheld-IsSeqSet doc.withheld e;
            origins =
                load_origins-IsBounded sh.attempted_through sh.highest_durable highest sh.origins []
                  (omega (arith, c.1, c.2)) (omega (arith, c.2)) small
                  (IsBounded-raise durable highest sh.origins up c.3) tt;
            attempted = omega (arith, c.1, c.2);
            recorded = λ x. refl;
            pending = (
              omega arith,
              c.1,
              omega (arith, c.2),
              IsBounded-raise durable highest sh.origins up c.3,
            );
          })
          c.0 (ap (λ t. load_withheld highest t []) e) n in
      let whole : (slt highest sh.highest_durable || slt sh.highest_durable sh.attempted_through)
          ≡ false =
        ground (arith, c.1, c.2) in
      rw whole (
        if-intro {A = Lane × Bool} (λ r. Keeps acked highest l.fence r.0) live (λ _. begun)
          (λ _.
            Keeps-trans acked highest small l.fence (record { fence = f; file = l.file }) _
              begun.stays (apply_and_record-Keeps acked highest small _ w no_policy begun.held)))

  pub new_consent_fence-Keeps :
      (live : Bool) (w : LedgerWrite) (r : Lane × Bool)
      → new_consent_fence live highest w l.file ≡ ok r
      → Keeps acked highest l.fence r.0
  unfolding new_consent_fence
  new_consent_fence-Keeps live w r e = elim (Result-cases (read_consent_ledger l.file)) [
    | inl (doc, got) ↦
        let (ranges, record_of) = read_consent_ledger_lem l.file doc got in
        let start : ◌≡◌ {A = Result LedgerError (Lane × Bool)}
            (ok (start_with live highest w l.file doc doc.shutdown)) (ok r) =
          rw (got, new_consent_fence) at e in
        let same : start_with live highest w l.file doc doc.shutdown ≡ r = ground arith in
        subst (λ x. Keeps acked highest l.fence x.0) same
          (start_with-Keeps live w doc doc.shutdown ranges record_of)
    | inr (x, failed) ↦ absurd (not_ok (rw (failed, new_consent_fence) at e))
  ]
