-- ===== src/Daemon/Fence/Stale.antt =====
-- A shutdown record whose write fails behind the rename.
use gasworks.Prelude.{ℕ, ◌≤◌, ◌<◌, ◌≡◌, true, false, none, some, arith}
use gasworks.Word.{max_int64}
use gasworks.Daemon.Fence.Ledger.{Shutdown}
use gasworks.Daemon.Fence.{
  Lane, replaced, persist_ledger, ledger_of, record_shutdown, before_send, shutdown_record,
}
use gasworks.Daemon.Fence.Kept.{shutdown_of}

-- Where a fence has no record pending and nothing to record, and the write of its shutdown record
-- fails behind the rename, the sends that follow are let through and mark their sequences final
-- without a write, and the record on disk still takes them for not sent.
pub record_shutdown_stale :
    (l : Lane) (highest last : ℕ)
    → l.fence.pending ≡ none
    → l.fence.recorded ≡ false
    → l.fence.dirty ≡ false
    → l.fence.attempted < last
    → last < max_int64
    → let down = (record_shutdown l replaced highest).0 in
      let sent = before_send down replaced last in
      ((record_shutdown l replaced highest).1 ≡ false)
      × (sent.1 ≡ true)
      × (last ≤ sent.0.fence.attempted)
      × ((sh : Shutdown) × (shutdown_of sent.0.file ≡ some sh) × (sh.attempted_through < last))
unfolding record_shutdown before_send persist_ledger ledger_of shutdown_record
record_shutdown_stale l highest last idle fresh clean up small = (
  ground arith,
  ground arith,
  ground arith,
  (shutdown_record l.fence highest, ground arith, ground arith),
)
