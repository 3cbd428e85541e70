-- ===== src/Daemon/Fence.antt =====
-- daemon/consent_fence.go: the consent fence of the observation lane. The published policy is an
-- argument, `fence_latest` what the fence takes from it. The mutex makes each method one step; the
-- ledger file beside the fence is part of the state, and how a write of it ends is an argument. The
-- placeholder is a parameter, a function of the frame that can fail. Start has `newConsentFence`.
pub mod Ranges
pub mod Origins
pub mod Ledger
pub mod Start
mod Withheld
pub mod Kept
pub mod Steps
pub mod Resume
pub mod Decisions
pub mod Stale
pub mod Uploads
use gasworks.Prelude.{
  ℕ, Bool, true, false, not, ◌&&◌, ◌||◌, List, [], ◌∷◌, Option, none, some, Result, ok, err,
  if◌then◌else◌, ◌==◌,
}
use mathlib.Core.Option
use gasworks.Word.{slt, sle, add64}
use gasworks.Upload.Batch.{Record}
use gasworks.Daemon.Consent.{Policy}
use gasworks.Daemon.Fence.Ranges.{SeqRange, smax, smin, add, contains, prune}
use gasworks.Daemon.Fence.Origins.{
  ConsentOrigin, OriginRun, allowed_by, add_run, lookup_origin, prune_origins,
}
use gasworks.Daemon.Fence.Ledger.{
  ConsentLedger, LedgerFile, LedgerError, Shutdown, document, read_consent_ledger,
}

-- `live` is false for a passive fence; `applied` is none until a policy was applied.
pub record Fence : Type 0 where
  pub live : Bool
  pub origins : List OriginRun
  pub withheld : List SeqRange
  pub attempted : ℕ
  pub applied : Option Policy
  pub dirty : Bool
  pub pending : Option Shutdown
  pub recorded : Bool

-- The fence and its ledger file.
pub record Lane : Type 0 where
  pub fence : Fence
  pub file : LedgerFile

-- How `WriteFileAtomic` ends: done; failed before the rename; or failed behind it.
pub data LedgerWrite : Type 0 where
  written kept replaced : LedgerWrite

unfoldable pub ledger_of : Fence → LedgerFile
ledger_of f = document (record { version = 1; withheld = f.withheld; shutdown = f.pending })

-- `persistLocked`; the Boolean says that there was no error, here and below.
unfoldable pub persist_ledger : Lane → LedgerWrite → Lane × Bool
unfolding ledger_of
persist_ledger l written =
    (record { fence = record l.fence { dirty = false }; file = ledger_of l.fence }, true)
persist_ledger l kept = (l, false)
persist_ledger l replaced = (record l { file = ledger_of l.fence }, false)

abbrev pub no_policy : Policy
no_policy = record { version = 0; roots = [] }

-- `latest`
abbrev pub fence_latest : Fence → Policy → Policy
fence_latest f published = if f.live then published else no_policy

-- `admit`
unfoldable pub admit : Fence → Policy → ConsentOrigin → Bool
admit f published o = allowed_by o (fence_latest f published)

unfoldable pub record_append : Lane → LedgerWrite → Policy → ℕ → ConsentOrigin → Lane
record_append l w published seq o =
    let f = record l.fence { origins = add_run l.fence.origins seq seq o } in
    let withheld = record f { withheld = (add f.withheld seq seq).0; dirty = true } in
    if sle seq f.attempted || allowed_by o (fence_latest f published)
    then record l { fence = f }
    else (persist_ledger (record l { fence = withheld }) w).0

-- The loop of `applyLocked`: the set, and whether anything was new to it.
unfoldable pub withhold_runs :
    ℕ → Policy → List OriginRun → List SeqRange → Bool → List SeqRange × Bool
withhold_runs attempted pol [] s some_new = (s, some_new)
withhold_runs attempted pol (r ∷ rs) s some_new =
    let skip = sle r.last attempted || allowed_by r.origin pol in
    let added = add s (smax r.first (add64 attempted 1)) r.last in
    withhold_runs attempted pol rs (if skip then s else added.0)
      (if skip then some_new else some_new || slt 0 added.1)

abbrev pub is_applied : Option Policy → Policy → Bool
is_applied none pol = false
is_applied (some p) pol = pol.version == p.version

-- `applyLocked`
unfoldable pub apply_policy : Fence → Policy → Fence × Bool
apply_policy f pol =
    let run = withhold_runs f.attempted pol f.origins f.withheld false in
    if is_applied f.applied pol
    then (f, false)
    else (record f { applied = some pol; withheld = run.0; dirty = f.dirty || run.1 }, run.1)

-- `applyAndRecordLocked`
unfoldable pub apply_and_record : Lane → LedgerWrite → Policy → Lane × Bool
apply_and_record l w pol =
    let next = record l { fence = (apply_policy l.fence pol).0 } in
    if (apply_policy l.fence pol).1 then persist_ledger next w else (next, true)

unfoldable pub refresh : Lane → LedgerWrite → Policy → Lane × Bool
refresh l w published = apply_and_record l w (fence_latest l.fence published)

-- Whether the frame at `seq` comes back as its placeholder, by a set that may have grown by it.
unfoldable pub decide_one : Fence → Policy → ℕ → Fence × Bool
decide_one f pol seq =
    if contains f.withheld seq
    then (f, true)
    else if sle seq f.attempted
    then (f, false)
    else elim (lookup_origin f.origins seq) [
      | none ↦ (f, false)
      | some o ↦
          if allowed_by o pol
          then (f, false)
          else (record f { withheld = (add f.withheld seq seq).0; dirty = true }, true)
    ]

-- The runs of a shutdown record above `attempted`, and their highest sequence.
unfoldable pub unsent_runs : ℕ → List OriginRun → List OriginRun
unsent_runs attempted [] = []
unsent_runs attempted (r ∷ rs) =
    let rest = unsent_runs attempted rs in
    if sle r.last attempted
    then rest
    else record r { first = smax r.first (add64 attempted 1) } ∷ rest

unfoldable pub highest_run : ℕ → List OriginRun → ℕ
highest_run highest [] = highest
highest_run highest (r ∷ rs) = highest_run (smax highest r.last) rs

-- `shutdownRecordLocked`
unfoldable pub shutdown_record : Fence → ℕ → Shutdown
shutdown_record f highest =
    let runs = unsent_runs f.attempted f.origins in
    record {
      highest_durable = highest_run (smax highest f.attempted) runs;
      attempted_through = f.attempted;
      origins = runs;
    }

-- Go dereferences the record here: a fence that has recorded one has one pending.
abbrev pub pending_highest : Option Shutdown → ℕ
pending_highest none = 0
pending_highest (some sh) = sh.highest_durable

abbrev pub is_pending {ℓ} : {A : Type ℓ} → Option A → Bool
is_pending none = false
is_pending (some a) = true

-- A write that fails takes back what was not sent.
abbrev pub restored : Lane → Fence → Lane × Bool → Lane × Bool
restored l f (m, true) = (m, true)
restored l f (m, false) = (
  record m {
    fence = record m.fence { attempted = f.attempted; pending = f.pending; recorded = f.recorded };
  },
  false,
)

unfoldable pub before_send : Lane → LedgerWrite → ℕ → Lane × Bool
before_send l w last =
    let f = l.fence in
    let final = record f { attempted = smax f.attempted last } in
    let again = record final {
      pending = some (shutdown_record final (pending_highest f.pending));
    } in
    let retired = record final { pending = none } in
    if f.recorded
    then restored l f (persist_ledger (record l { fence = again }) w)
    else if is_pending f.pending
    then restored l f (persist_ledger (record l { fence = retired }) w)
    else if f.dirty
    then restored l f (persist_ledger (record l { fence = final }) w)
    else (record l { fence = final }, true)

unfoldable pub record_shutdown : Lane → LedgerWrite → ℕ → Lane × Bool
record_shutdown l w highest =
    let f = l.fence in
    restored l f (
      persist_ledger
        (record l {
          fence = record f { pending = some (shutdown_record f highest); recorded = true };
        })
        w)

-- `acknowledged`
unfoldable pub forget : Fence → ℕ → Fence
forget f through = record f {
  origins = prune_origins f.origins through;
  withheld = prune f.withheld through;
}

-- `decide` on frames whose placeholders `placeholder` makes, behind the policy's application. An
-- error in making one is none.
module _ (placeholder : Record → Option (List ℕ)) where
  unfoldable pub decide_frames : Fence → Policy → List Record → Fence × Option (List Record)
  decide_frames f pol [] = (f, some [])
  decide_frames f pol (rec ∷ recs) =
      let one = decide_one f pol rec.sequence in
      let rest = decide_frames one.0 pol recs in
      elim one.1 [
        | false ↦ (rest.0, Option.map (λ rs. rec ∷ rs) rest.1)
        | true ↦ elim (placeholder rec) [
          | none ↦ (one.0, none)
          | some p ↦ (rest.0, Option.map (λ rs. record rec { payload = p } ∷ rs) rest.1)
        ]
      ]

  unfoldable pub decide : Lane → LedgerWrite → Policy → List Record → Lane × Option (List Record)
  decide l w published recs =
      let pol = fence_latest l.fence published in
      let m = (apply_and_record l w pol).0 in
      let r = decide_frames m.fence pol recs in (record m { fence = r.0 }, r.1)
