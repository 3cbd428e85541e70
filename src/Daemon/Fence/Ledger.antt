-- ===== src/Daemon/Fence/Ledger.antt =====
-- daemon/consent_fence.go: the consent ledger on disk. A file is what decoding it gives: the document,
-- or an error of reading, of decoding or of the checksum.
use gasworks.Prelude.{
  ℕ, Bool, true, false, ◌||◌, List, [], ◌∷◌, Option, none, some, Result, ok, err, if◌then◌else◌,
  ◌==◌,
}
use gasworks.Word.{slt, sle}
use gasworks.Daemon.Fence.Ranges.{SeqRange}
use gasworks.Daemon.Fence.Origins.{OriginRun}

-- Three int64 and the origins, which are runs.
pub record Shutdown : Type 0 where
  pub highest_durable : ℕ
  pub attempted_through : ℕ
  pub origins : List OriginRun

pub record ConsentLedger : Type 0 where
  pub version : ℕ
  pub withheld : List SeqRange
  pub shutdown : Option Shutdown

pub data LedgerFile : Type 0 where
  missing unreadable : LedgerFile
  document : ConsentLedger → LedgerFile

pub data LedgerError : Type 0 where
  not_decoded unsupported_version malformed_shutdown malformed_origin malformed_range : LedgerError

no_root : List ℕ → Bool
no_root [] = true
no_root (c ∷ cs) = false

-- Whether each origin is well formed and behind the one before it.
unfoldable pub origins_valid : ℕ → List OriginRun → Bool
unfolding no_root
origins_valid prev [] = true
origins_valid prev (o ∷ os) =
    let rest = origins_valid o.last os in
    if slt o.first 1
      || (slt o.last o.first
          || (sle o.first prev || (no_root o.origin.root || o.origin.generation == 0)))
    then false
    else rest

unfoldable pub ranges_valid : ℕ → List SeqRange → Bool
ranges_valid prev [] = true
ranges_valid prev (r ∷ rs) =
    let rest = ranges_valid r.last rs in
    if slt r.first 1 || (slt r.last r.first || sle r.first prev) then false else rest

unfoldable pub shutdown_error : Option Shutdown → Option LedgerError
shutdown_error none = none
shutdown_error (some sh) =
    if slt sh.highest_durable 0 || slt sh.attempted_through 0
    then some malformed_shutdown
    else if origins_valid 0 sh.origins
    then none
    else some malformed_origin

unfoldable pub read_consent_ledger : LedgerFile → Result LedgerError ConsentLedger
read_consent_ledger missing = ok (record { version = 1; withheld = []; shutdown = none })
read_consent_ledger unreadable = err not_decoded
read_consent_ledger (document d) =
    if d.version == 1
    then elim (shutdown_error d.shutdown) [
      | some e ↦ err e
      | none ↦ if ranges_valid 0 d.withheld then ok d else err malformed_range
    ]
    else err unsupported_version
