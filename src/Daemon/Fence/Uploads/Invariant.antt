-- ===== src/Daemon/Fence/Uploads/Invariant.antt =====
-- What every step of the fence's world keeps, and the lemmas on the lists that it needs.
use gasworks.Prelude.{
  ℕ, ◌≤◌, ◌<◌, ◌≡◌, refl, sym, ap, ◌∙◌, ◌||◌, ◌⊎◌, inl, inr, false, List, [], ◌∷◌, Option, none,
  some, leb, if◌then◌else◌, All, All-map, Bool-cases, arith, lt→ltb, if-intro,
}
use gasworks.Word.{max_int64, sle}
use gasworks.Upload.Batch.{Record}
use gasworks.Daemon.Consent.{Policy}
use gasworks.Daemon.Fence.Ranges.{SeqRange, from_first, add, contains}
use gasworks.Daemon.Fence.Ranges.Sets.{contains-add, contains-prune}
use gasworks.Daemon.Fence.Origins.{ConsentOrigin, allowed_by}
use gasworks.Daemon.Fence.Ledger.{missing}
use gasworks.Daemon.Fence.{
  Fence, Lane, LedgerWrite, written, kept, replaced, record_append, refresh, forget,
  record_shutdown, persist_ledger, fence_latest,
}
use gasworks.Daemon.Fence.Withheld.{IsSeqSet}
use gasworks.Daemon.Fence.Kept.{IsHeld, Stays, Keeps, apply_and_record-Keeps}
use gasworks.Daemon.Fence.Decisions.{frame_at, payload_of, IsDecided}
use gasworks.Daemon.Fence.Uploads.{Pipeline, through}

pub through-All {κ} :
    (P : Record → Type κ) (last : ℕ) (rs : List Record)
    → All P rs
    → All (λ r. P r × (r.sequence ≤ last)) (through last rs)
unfolding through
through-All P last [] h = tt
through-All P last (r ∷ rs) h = elim (Bool-cases (leb r.sequence last)) [
  | inl in_it ↦ rw in_it ((h.0, ground arith), through-All P last rs h.1)
  | inr out ↦ rw out (through-All P last rs h.1)
]

pub persist_ledger-withheld :
    (l : Lane) (w : LedgerWrite) → (persist_ledger l w).0.fence.withheld ≡ l.fence.withheld
unfolding persist_ledger
persist_ledger-withheld l written = refl
persist_ledger-withheld l kept = refl
persist_ledger-withheld l replaced = refl

pub forget_same :
    (f : Fence) (upto : ℕ) (r : Record)
    → r.sequence ≤ f.attempted
    → r.sequence ≤ (forget f upto).attempted
unfolding forget
forget_same f upto r h = h

pub forget-contains :
    (f : Fence) (durable upto q : ℕ)
    → durable < max_int64
    → upto ≤ durable
    → upto < q
    → q ≤ durable
    → IsSeqSet durable f.withheld
    → contains (forget f upto).withheld q ≡ contains f.withheld q
unfolding forget
forget-contains f durable upto q small fits above hq i =
    contains-prune 0 upto q f.withheld (omega arith) (omega arith) i.ascending
    ∙ rw (lt→ltb upto q above) refl

pub refresh-Keeps :
    (acked durable : ℕ) (small : durable < max_int64) (l : Lane) (w : LedgerWrite) (pol : Policy)
    → IsHeld acked durable l
    → Keeps acked durable l.fence (refresh l w pol).0
unfolding refresh
refresh-Keeps acked durable small l w pol h =
    apply_and_record-Keeps acked durable small l w (fence_latest l.fence pol) h

-- The other sequences are decided as before.
pub record_append-contains :
    (durable : ℕ) (l : Lane) (w : LedgerWrite) (pol : Policy) (seq q : ℕ) (o : ConsentOrigin)
    → 0 < seq
    → seq < max_int64
    → q < seq
    → IsSeqSet durable l.fence.withheld
    → contains (record_append l w pol seq o).fence.withheld q ≡ contains l.fence.withheld q
unfolding record_append
record_append-contains durable l w pol seq q o h0 hs hq i =
    let added : contains (add l.fence.withheld seq seq).0 q ≡ contains l.fence.withheld q =
      contains-add l.fence.withheld seq seq q h0 hs hs (omega arith) i.ascending ∙ ground arith in
    if-intro {A = Lane} (λ m. contains m.fence.withheld q ≡ contains l.fence.withheld q)
      (sle seq l.fence.attempted || allowed_by o (fence_latest l.fence pol)) (λ _. refl)
      (λ _. ap (λ s. contains s q) (persist_ledger-withheld _ w) ∙ added)

pub record_shutdown-withheld :
    (l : Lane) (w : LedgerWrite) (highest : ℕ)
    → (record_shutdown l w highest).0.fence.withheld ≡ l.fence.withheld
unfolding record_shutdown persist_ledger
record_shutdown-withheld l written highest = refl
record_shutdown-withheld l kept highest = refl
record_shutdown-withheld l replaced highest = refl

-- The lane of a spool that has no ledger.
abbrev pub idle_lane : Lane
idle_lane = record {
  fence = record {
    live = false;
    origins = [];
    withheld = [];
    attempted = 0;
    applied = none;
    dirty = false;
    pending = none;
    recorded = false;
  };
  file = missing;
}

pub idle-IsHeld : (acked durable : ℕ) → durable < max_int64 → IsHeld acked durable idle_lane
unfolding contains from_first
idle-IsHeld acked durable small = record {
  mem = record {
    set = record { ascending = tt; below = λ q a b. refl };
    origins = tt;
    attempted = omega arith;
    recorded = λ e. refl;
    pending = tt;
  };
  disk = record {
    set = record { ascending = tt; below = λ q a b. refl };
    synced = λ q a b o. refl;
    owed = λ e. refl;
    shutdown = tt;
  };
}

module _ (placeholder : Record → Option (List ℕ)) (frames : ℕ → List ℕ) where
  -- What may have been sent is behind the mark, and above what was acknowledged it went out as the
  -- set says.
  abbrev pub IsFinal : ℕ → Fence → Record → Type 0
  IsFinal acked f r =
      (r.sequence ≤ f.attempted)
      × (acked < r.sequence → some r.payload ≡ payload_of placeholder frames f.withheld r.sequence)

  -- What was sent at the sequence was this: its placeholder, or the frame as it is.
  pub record Agree (rs : List Record) (q : ℕ) (p : Option (List ℕ)) : Type 0 where
    pub kind : (p ≡ placeholder (frame_at placeholder frames q)) ⊎ (p ≡ some (frames q))
    pub all : All (λ r. r.sequence ≡ q → some r.payload ≡ p) rs

  pub record Inv (w : Pipeline) : Type 0 where
    pub small : w.durable < max_int64
    pub held : IsHeld w.acked w.durable w.lane
    pub planned :
        All (IsDecided placeholder frames w.acked w.durable w.lane.fence.withheld) w.planned
    pub sent : All (IsFinal w.acked w.lane.fence) w.sent
    pub one : (q : ℕ) → (p : Option (List ℕ)) × Agree w.sent q p

  pub payload_of-contains :
      (s s' : List SeqRange) (q : ℕ)
      → contains s' q ≡ contains s q
      → payload_of placeholder frames s' q ≡ payload_of placeholder frames s q
  payload_of-contains s s' q e =
      ap
        (λ b.
          if b then placeholder (record { sequence = q; payload = frames q }) else some (frames q))
        e

  pub payload_of-kind :
      (s : List SeqRange) (q : ℕ)
      → (payload_of placeholder frames s q ≡ placeholder (frame_at placeholder frames q))
        ⊎ (payload_of placeholder frames s q ≡ some (frames q))
  payload_of-kind s q = elim (Bool-cases (contains s q)) [
    | inl hidden ↦ inl (rw hidden refl)
    | inr plain ↦ inr (rw plain refl)
  ]

  pub Stays-IsFinal :
      (acked : ℕ) (f g : Fence) (rs : List Record)
      → Stays acked f g
      → All (IsFinal acked f) rs
      → All (IsFinal acked g) rs
  Stays-IsFinal acked f g rs s =
      All-map
        (λ r h. (
          omega (arith, h.0, s.raised),
          λ above.
              h.1 above ∙ sym (payload_of-contains _ _ r.sequence (s.fixed r.sequence above h.0)),
        ))
        rs

  -- A step that sends nothing, and reads nothing or leaves what was read decided.
  pub quiet-Inv :
      (w : Pipeline) (l : Lane) (planned : List Record) (durable : ℕ)
      → durable < max_int64
      → Inv w
      → Keeps w.acked durable w.lane.fence l
      → All (IsDecided placeholder frames w.acked durable l.fence.withheld) planned
      → Inv (record w { lane = l; planned = planned; durable = durable })
  quiet-Inv w l planned durable small i k d = record {
    small = small;
    held = k.held;
    planned = d;
    sent = Stays-IsFinal w.acked w.lane.fence l.fence w.sent k.stays i.sent;
    one = i.one;
  }
