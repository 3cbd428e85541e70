-- ===== src/Daemon/Fence/Kept.antt =====
-- What every method of the fence keeps: the ledger has what was decided of the sequences that may have
-- been sent, and a decision about one of those is never changed.
use gasworks.Prelude.{
  ℕ, ◌≤◌, ◌<◌, ◌≡◌, ◌⊎◌, inl, inr, refl, sym, ◌∙◌, Bool, false, ◌||◌, List, [], Option, none, some,
  arith, Bool-cases, if-intro,
}
use gasworks.Word.{max_int64}
use gasworks.Daemon.Consent.{Policy}
use gasworks.Daemon.Fence.Ranges.{SeqRange, contains}
use gasworks.Daemon.Fence.Origins.{OriginRun, IsBounded}
use gasworks.Daemon.Fence.Ledger.{LedgerFile, missing, unreadable, document, Shutdown}
use gasworks.Daemon.Fence.{
  Fence, Lane, LedgerWrite, written, kept, replaced, ledger_of, persist_ledger, apply_policy,
  apply_and_record, withhold_runs, is_applied, restored,
}
use gasworks.Daemon.Fence.Withheld.{IsSeqSet, Grows, withhold_runs-IsSeqSet, withhold_runs-Grows}

abbrev pub ranges_of : LedgerFile → List SeqRange
ranges_of missing = []
ranges_of unreadable = []
ranges_of (document d) = d.withheld

abbrev pub shutdown_of : LedgerFile → Option Shutdown
shutdown_of missing = none
shutdown_of unreadable = none
shutdown_of (document d) = d.shutdown

-- A record that a start accepts, and that is not behind what was sent.
abbrev pub IsCurrent : ℕ → ℕ → Option Shutdown → Type 0
IsCurrent attempted durable none = Unit {0}
IsCurrent attempted durable (some sh) =
    (attempted ≤ sh.attempted_through)
    × (sh.attempted_through ≤ sh.highest_durable)
    × (sh.highest_durable ≤ durable)
    × IsBounded durable sh.origins

pub record IsMem (durable : ℕ) (f : Fence) : Type 0 where
  pub set : IsSeqSet durable f.withheld
  pub origins : IsBounded durable f.origins
  pub attempted : f.attempted ≤ durable
  pub recorded : f.pending ≡ none → f.recorded ≡ false
  pub pending : IsCurrent f.attempted durable f.pending

-- Above what was acknowledged, the file agrees with the set wherever something may have been sent,
-- and everywhere if nothing is left to record.
pub record IsDisk (acked durable : ℕ) (f : Fence) (file : LedgerFile) : Type 0 where
  pub set : IsSeqSet durable (ranges_of file)
  pub synced :
      (q : ℕ)
      → acked < q
      → q < max_int64
      → (q ≤ f.attempted) ⊎ (f.dirty ≡ false)
      → contains (ranges_of file) q ≡ contains f.withheld q
  pub owed : f.pending ≡ none → shutdown_of file ≡ none
  pub shutdown : IsCurrent f.attempted durable (shutdown_of file)

pub record IsHeld (acked durable : ℕ) (l : Lane) : Type 0 where
  pub mem : IsMem durable l.fence
  pub disk : IsDisk acked durable l.fence l.file

-- What is final stays so, with the decisions on it.
pub record Stays (acked : ℕ) (f g : Fence) : Type 0 where
  pub raised : f.attempted ≤ g.attempted
  pub fixed : (q : ℕ) → acked < q → q ≤ f.attempted → contains g.withheld q ≡ contains f.withheld q

pub record Keeps (acked durable : ℕ) (f : Fence) (l : Lane) : Type 0 where
  pub held : IsHeld acked durable l
  pub stays : Stays acked f l.fence

pub Stays-refl : (acked : ℕ) (f : Fence) → Stays acked f f
Stays-refl acked f = record { raised = omega arith; fixed = λ q h k. refl }

module _ (acked durable : ℕ) (small : durable < max_int64) where
  -- A file that was just written.
  pub ledger_of-IsDisk : (f : Fence) → IsMem durable f → IsDisk acked durable f (ledger_of f)
  unfolding ledger_of
  ledger_of-IsDisk f m = record {
    set = m.set;
    synced = λ q h k o. refl;
    owed = λ e. e;
    shutdown = m.pending;
  }

  pub persist_ledger-Keeps :
      (l : Lane) (w : LedgerWrite)
      → IsHeld acked durable l
      → Keeps acked durable l.fence (persist_ledger l w).0
  unfolding persist_ledger ledger_of
  persist_ledger-Keeps l written h = record {
    held = record {
      mem = record {
        set = h.mem.set;
        origins = h.mem.origins;
        attempted = h.mem.attempted;
        recorded = h.mem.recorded;
        pending = h.mem.pending;
      };
      disk = record {
        set = h.mem.set;
        synced = λ q a b o. refl;
        owed = λ e. e;
        shutdown = h.mem.pending;
      };
    };
    stays = record { raised = omega arith; fixed = λ q a b. refl };
  }
  persist_ledger-Keeps l kept h = record { held = h; stays = Stays-refl acked l.fence }
  persist_ledger-Keeps l replaced h = record {
    held = record { mem = h.mem; disk = ledger_of-IsDisk l.fence h.mem };
    stays = Stays-refl acked l.fence;
  }

  -- The set has grown above what is final, and the flag says so.
  pub grown-Keeps :
      (l : Lane) (x : List OriginRun) (s : List SeqRange) (p : Option Policy) (d b : Bool)
      → IsHeld acked durable l
      → IsBounded durable x
      → IsSeqSet durable s
      → Grows l.fence.attempted l.fence.withheld s b
      → (d ≡ false → (l.fence.dirty ≡ false) × (b ≡ false))
      → Keeps acked durable l.fence (record l {
        fence = record l.fence { origins = x; withheld = s; applied = p; dirty = d };
      })
  grown-Keeps l x s p d b h bx is g flag = record {
    held = record {
      mem = record {
        set = is;
        origins = bx;
        attempted = h.mem.attempted;
        recorded = h.mem.recorded;
        pending = h.mem.pending;
      };
      disk = record {
        set = h.disk.set;
        synced = λ q a k o. elim o [
          | inl final ↦ h.disk.synced q a k (inl final) ∙ sym (g.fixed q final)
          | inr clean ↦ h.disk.synced q a k (inr (flag clean).0) ∙ sym (g.same (flag clean).1 q k)
        ];
        owed = h.disk.owed;
        shutdown = h.disk.shutdown;
      };
    };
    stays = record { raised = omega arith; fixed = λ q a k. g.fixed q k };
  }

  pub apply_policy-Keeps :
      (l : Lane) (pol : Policy)
      → IsHeld acked durable l
      → Keeps acked durable l.fence (record l { fence = (apply_policy l.fence pol).0 })
  unfolding apply_policy
  apply_policy-Keeps l pol h =
      let f = l.fence in
      let a = h.mem.attempted in
      let g =
        withhold_runs-Grows f.attempted durable a small pol f.origins f.withheld false h.mem.origins
          h.mem.set in
      let run = withhold_runs f.attempted pol f.origins f.withheld false in
      elim (Bool-cases (is_applied f.applied pol)) [
        | inl old ↦ rw old (record { held = h; stays = Stays-refl acked f })
        | inr new ↦ rw new (
            grown-Keeps l f.origins run.0 (some pol) (f.dirty || run.1) run.1 h h.mem.origins
              (withhold_runs-IsSeqSet f.attempted durable a small pol f.origins f.withheld false
                h.mem.origins h.mem.set)
              g (λ e. (ground arith, ground arith)))
      ]

  pub Keeps-trans :
      (f : Fence) (l m : Lane)
      → Stays acked f l.fence
      → Keeps acked durable l.fence m
      → Keeps acked durable f m
  Keeps-trans f l m s k = record {
    held = k.held;
    stays = record {
      raised = omega (arith, s.raised, k.stays.raised);
      fixed = λ q a b. k.stays.fixed q a (omega (arith, s.raised)) ∙ s.fixed q a b;
    };
  }

  pub apply_and_record-Keeps :
      (l : Lane) (w : LedgerWrite) (pol : Policy)
      → IsHeld acked durable l
      → Keeps acked durable l.fence (apply_and_record l w pol).0
  unfolding apply_and_record
  apply_and_record-Keeps l w pol h =
      let k = apply_policy-Keeps l pol h in
      let next : Lane = record l { fence = (apply_policy l.fence pol).0 } in
      if-intro {A = Lane × Bool} (λ r. Keeps acked durable l.fence r.0) (apply_policy l.fence pol).1
        (λ e.
          Keeps-trans l.fence next (persist_ledger next w).0 k.stays
            (persist_ledger-Keeps next w k.held))
        (λ e. k)

  -- What was sent may take a new mark, and the ledger a new record.
  pub restored-Keeps :
      (l : Lane) (w : LedgerWrite) (a : ℕ) (p : Option Shutdown) (r : Bool)
      → IsHeld acked durable l
      → l.fence.attempted ≤ a
      → a ≤ durable
      → IsCurrent a durable p
      → IsCurrent l.fence.attempted durable p
      → (p ≡ none → r ≡ false)
      → (w ≡ replaced → l.fence.pending ≡ none → p ≡ none)
      → Keeps acked durable l.fence
          (restored l l.fence (
            persist_ledger
              (record l { fence = record l.fence { attempted = a; pending = p; recorded = r } })
              w)).0
  unfolding persist_ledger ledger_of
  restored-Keeps l written a p r h up fits cur cur' rec back = record {
    held = record {
      mem = record {
        set = h.mem.set;
        origins = h.mem.origins;
        attempted = fits;
        recorded = rec;
        pending = cur;
      };
      disk = record { set = h.mem.set; synced = λ q a b o. refl; owed = λ e. e; shutdown = cur };
    };
    stays = record { raised = up; fixed = λ q a b. refl };
  }
  restored-Keeps l kept a p r h up fits cur cur' rec back = record {
    held = h;
    stays = Stays-refl acked l.fence;
  }
  restored-Keeps l replaced a p r h up fits cur cur' rec back = record {
    held = record {
      mem = h.mem;
      disk = record {
        set = h.mem.set;
        synced = λ q a b o. refl;
        owed = λ e. back refl e;
        shutdown = cur';
      };
    };
    stays = Stays-refl acked l.fence;
  }
