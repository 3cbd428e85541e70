-- ===== src/Daemon/Fence/Start.antt =====
-- daemon/consent_fence.go: `newConsentFence`, the fence that a ledger and a spool give.
use gasworks.Prelude.{
  ℕ, Bool, true, false, ◌||◌, List, [], ◌∷◌, Option, none, some, Result, ok, err, if◌then◌else◌,
}
use gasworks.Word.{slt, sle, add64}
use gasworks.Daemon.Fence.Ranges.{SeqRange, smax, smin, add}
use gasworks.Daemon.Fence.Origins.{OriginRun, add_run}
use gasworks.Daemon.Fence.Ledger.{
  ConsentLedger, LedgerFile, LedgerError, Shutdown, read_consent_ledger,
}
use gasworks.Daemon.Fence.{Fence, Lane, LedgerWrite, persist_ledger, no_policy, apply_and_record}

-- The withheld ranges of the ledger that the spool still has.
unfoldable pub load_withheld : ℕ → List SeqRange → List SeqRange → List SeqRange
load_withheld highest [] s = s
load_withheld highest (r ∷ rs) s =
    load_withheld highest rs
      (if sle r.first highest then (add s r.first (smin r.last highest)).0 else s)

unfoldable pub load_origins : ℕ → ℕ → List OriginRun → List OriginRun → List OriginRun
load_origins attempted highest [] x = x
load_origins attempted highest (o ∷ os) x =
    load_origins attempted highest os
      (add_run x (smax o.first (add64 attempted 1)) (smin o.last highest) o.origin)

-- The fence that a ledger with no shutdown record gives.
unfoldable pub bare_fence : Bool → ℕ → ConsentLedger → Fence
bare_fence live highest doc = record {
  live = live;
  origins = [];
  withheld = load_withheld highest doc.withheld [];
  attempted = highest;
  applied = none;
  dirty = false;
  pending = none;
  recorded = false;
}

unfoldable pub resumed_fence : Bool → ℕ → ConsentLedger → Shutdown → Fence
resumed_fence live highest doc sh = record (bare_fence live highest doc) {
  origins = load_origins sh.attempted_through sh.highest_durable sh.origins [];
  attempted = sh.attempted_through;
  pending = some sh;
}

-- The start behind the ledger's record: none is an error of the write.
unfoldable pub start_with :
    Bool → ℕ → LedgerWrite → LedgerFile → ConsentLedger → Option Shutdown → Lane × Bool
start_with live highest w file doc none =
    (record { fence = bare_fence live highest doc; file = file }, true)
start_with live highest w file doc (some sh) =
    let bare : Lane = record { fence = bare_fence live highest doc; file = file } in
    let resumed : Lane = record { fence = resumed_fence live highest doc sh; file = file } in
    if slt highest sh.highest_durable || slt sh.highest_durable sh.attempted_through
    then persist_ledger bare w
    else if live
    then (resumed, true)
    else apply_and_record resumed w no_policy

-- `newConsentFence`; where the start fails, only what is left of the file counts.
unfoldable pub new_consent_fence :
    Bool → ℕ → LedgerWrite → LedgerFile → Result LedgerError (Lane × Bool)
new_consent_fence live highest w file = elim (read_consent_ledger file) [
  | err e ↦ err e
  | ok doc ↦ ok (start_with live highest w file doc doc.shutdown)
]
