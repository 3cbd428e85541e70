-- ===== src/Lib.antt =====
-- gasworks: the observer's durable spool, its uploader's delivery, the daemon's consent fence
-- and run registry, the run wrapper and the content guard (internal/observer/spool, upload,
-- daemon/consent_fence.go, daemon/registry.go, runwrap, contentguard).
--
-- The observer appends sealed observations to a write-ahead log on disk and uploads them. The
-- log is a directory of segment files, each a header and frames with consecutive sequences; two
-- sidecar files beside it hold the source's identity and the watermark through which the server
-- has acknowledged. A start recovers the directory, loads the acknowledgement state, and
-- appends from the recovered next sequence on. The uploader's planner cuts a batch behind the
-- watermark and records its range as in flight, and the delivery loop sends it until the
-- server's answer moves the watermark. Between the two the consent fence decides, by the policy
-- of the moment, which frames of a batch are sent and which are withheld, and keeps a ledger so
-- that a decision outlives a restart. The wrapper of an explicit run appends its boundary
-- through the daemon around the life of a child. The daemon folds the appended observations
-- into a registry of runs, which a start rebuilds from the segments, and asks the content guard
-- before it uploads a transcript. The modules follow the packages:
--
--   Spool/Frame: frame.go, `EncodeFrame` and `DecodeFrame`; Checks has the two checksums.
--   Spool/Segment: segment.go, the header codec, `CreateSegment`, `OpenSegment`, `Append`, `ReadAll`.
--   Spool/AtomicWrite: segment.go, `atomicWriteFile`, one step per call of the system.
--   Spool/Sidecar: recover.go, the codecs and readers of `identity` and `ack`.
--   Spool/Ack: ack.go, `AckState` and its methods.
--   Spool/Recover: recover.go, `Recover` and `RecoverBound` with the walk over the segments.
--   Spool/Compact: compact.go, `Compact`.
--   Spool/Reserves: capacity.go, the sidecar of terminal reserves; Reconcile has `ReconcileReserves`.
--   Spool/Capacity: capacity.go, `Evaluate`.
--   Upload/Retry: upload/retry.go, `Classify`, `backoff` and `Deliver`, over the acknowledgement state.
--   Upload/Batch: upload/batch.go, the planner. Upload/Store: upload/batch.go, `SpoolFrameStore`; Planner has the two together.
--   ContentGuard/Fnmatch: contentguard/fnmatch.go, the glob matcher; Grammar says what a glob means.
--   ContentGuard/Screen: contentguard/contentguard.go, `ScreenName` and `ScreenContent`.
--   Daemon/Consent: consent/consent.go, `Policy` and `Allows`.
--   Daemon/Fence: daemon/consent_fence.go; Ranges has `seqSet`, Origins `originIndex`, Ledger and Start what is read back, Uploads the steps of the daemon's loops.
--   RunWrap: runwrap/run.go, drain.go and the parent's side of the handshake in process_unix.go; Env has the environment of the child, Boundary the order of the observations, Bind the discovery of sessions (bind.go).
--   Daemon/Registry: daemon/registry.go, the folds and lookups; Replay has `ReplayWAL`.
--   Spool/Bytes, Spool/Sealed, Word, Prelude: big-endian fields, checksummed files, int64, lists.
--
-- A file is the list of its bytes, and a function that writes one returns the new contents. An
-- int64 is its bit pattern below 2 ^ 64, with wrapping sums and the signed order of Word.
-- CRC32C and SHA-256 are parameters (Checks), of which only the length and the range are known.
-- Whether a call of the operating system fails is an argument: every theorem quantifies over it
-- or says which calls work. The mutex of `AckState` makes each method one step, so an
-- interleaving is a list of calls.
--
-- The frame loops run on fuel, the length of the data: each round takes a whole frame of at
-- least 60 bytes, so that is enough, and recovery is proved never to run out of it; for
-- `ReadAll` the theorem on a whole segment shows that it ends with a result. The glob matcher
-- runs on fuel too, the length of the pattern for each byte of the name, and is proved to end
-- within it.
--
-- Not modelled: JSON canonicalisation in front of the frame codec and the scan for run events,
-- the float64 margin of the capacity model, permissions, failures of reads and of listing the
-- directory in recovery, the HTTP client and the wire package's generated codec (parameters of
-- the uploader and the registry), filepath.Base and strings.ToLower (parameters of the content
-- guard), the settle wait, the walk over the session roots and the process control of the run
-- wrapper, the JSON of the consent ledger and the fence's placeholder for a withheld frame, the
-- rest of the daemon, the adapters and the command line tools.
pub mod Prelude
pub mod Word
pub mod Spool
pub mod ContentGuard
pub mod Daemon
pub mod Upload
pub mod RunWrap
mod Tests
