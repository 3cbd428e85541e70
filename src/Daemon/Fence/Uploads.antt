-- ===== src/Daemon/Fence/Uploads.antt =====
-- The fence between the watcher and the collector: a step for each call that the daemon makes, in any
-- order that its two loops and its restarts allow. The loop of uploads refreshes, plans, sends and
-- acknowledges one after the other; the watcher appends at any time, behind the sequences that the
-- loop reads, since it reads the ceiling under the gate.
pub mod Invariant
pub mod Finality
use gasworks.Prelude.{
  ℕ, ◌≤◌, ◌<◌, ◌≡◌, ◌≢◌, Bool, true, false, List, [], ◌∷◌, ◌++◌, Option, none, some, Result, ok,
  leb, if◌then◌else◌,
}
use gasworks.Word.{max_int64}
use gasworks.Upload.Batch.{Record}
use gasworks.Daemon.Consent.{Policy}
use gasworks.Daemon.Fence.Origins.{ConsentOrigin}
use gasworks.Daemon.Fence.Ledger.{missing}
use gasworks.Daemon.Fence.{
  Lane, LedgerWrite, replaced, record_append, refresh, decide, before_send, forget, record_shutdown,
}
use gasworks.Daemon.Fence.Start.{new_consent_fence}
use gasworks.Daemon.Fence.Decisions.{Rising}

-- `planned` is the batch read and not sent yet; `sent` all that was sent, in any run.
pub record Pipeline : Type 0 where
  pub lane : Lane
  pub planned : List Record
  pub sent : List Record
  pub acked : ℕ
  pub durable : ℕ

-- The frames of a batch that ends at `last`.
unfoldable pub through : ℕ → List Record → List Record
through last [] = []
through last (r ∷ rs) = let rest = through last rs in if leb r.sequence last then r ∷ rest else rest

abbrev pub planned_of : Option (List Record) → List Record
planned_of none = []
planned_of (some rs) = rs

module _ (placeholder : Record → Option (List ℕ)) (frames : ℕ → List ℕ) where
  pub data Step (w w' : Pipeline) : Type 0 where
    appends :
        (out : LedgerWrite) (pol : Policy) (seq : ℕ) (o : ConsentOrigin)
        → w.durable < seq
        → seq < max_int64
        → w' ≡ record w { lane = record_append w.lane out pol seq o; durable = seq }
        → Step w w'
    -- By a producer that is not the watcher.
    others :
        (seq : ℕ) → w.durable < seq → seq < max_int64 → w' ≡ record w { durable = seq } → Step w w'
    refreshes :
        (out : LedgerWrite) (pol : Policy)
        → w' ≡ record w { lane = (refresh w.lane out pol).0; planned = [] }
        → Step w w'
    plans :
        (out : LedgerWrite) (pol : Policy) (recs : List Record)
        → Rising frames w.durable w.acked recs
        → w' ≡ record w {
          lane = (decide placeholder w.lane out pol recs).0;
          planned = planned_of (decide placeholder w.lane out pol recs).1;
        }
        → Step w w'
    sends :
        (out : LedgerWrite) (last : ℕ)
        → last ≤ w.durable
        → (before_send w.lane out last).1 ≡ true
        → w' ≡ record w {
          lane = (before_send w.lane out last).0;
          planned = [];
          sent = w.sent ++ through last w.planned;
        }
        → Step w w'
    fails_to_record :
        (out : LedgerWrite) (last : ℕ)
        → last ≤ w.durable
        → w' ≡ record w { lane = (before_send w.lane out last).0; planned = [] }
        → Step w w'
    acknowledges :
        (upto : ℕ)
        → w.acked ≤ upto
        → upto ≤ w.durable
        → w' ≡ record w {
          lane = record w.lane { fence = forget w.lane.fence upto };
          planned = [];
          acked = upto;
        }
        → Step w w'
    -- The write of the record does not fail behind its rename.
    shuts_down :
        (out : LedgerWrite) (highest : ℕ)
        → highest ≤ w.durable
        → out ≢ replaced
        → w' ≡ record w { lane = (record_shutdown w.lane out highest).0 }
        → Step w w'
    -- At any time, with every durable frame still there.
    restarts :
        (live : Bool) (out : LedgerWrite) (highest : ℕ) (r : Lane × Bool)
        → w.durable ≤ highest
        → highest < max_int64
        → new_consent_fence live highest out w.lane.file ≡ ok r
        → w' ≡ record w { lane = r.0; planned = []; durable = highest }
        → Step w w'

  pub data Reach (w : Pipeline) : Pipeline → Type 0 where
    here : Reach w w
    next : {u v : Pipeline} → Reach w u → Step u v → Reach w v

-- A first start: no ledger, and nothing sent.
pub record IsFirst (w : Pipeline) : Type 0 where
  pub live : Bool
  pub write : LedgerWrite
  pub result : Lane × Bool
  pub started : new_consent_fence live w.durable write missing ≡ ok result
  pub lane : w.lane ≡ result.0
  pub planned : w.planned ≡ []
  pub sent : w.sent ≡ []
  pub small : w.durable < max_int64
