-- ===== src/Spool/Recover.antt =====
-- recover.go: startup recovery over `wal/`. The disk is what recovery reads and may change: the two
-- sidecars, the segments in the order of `listSegments`, and the torn tails that were set aside.
pub mod Walk
pub mod Chain
pub mod Ends
pub mod Log
pub mod Crash
pub mod Errors
pub mod Total
use gasworks.Prelude.{
  ℕ, zero, suc, ◌+◌, ◌-◌, Bool, true, false, not, ◌&&◌, ◌||◌, List, [], ◌∷◌, ◌++◌, Option, none,
  some, Result, ok, err, leb, ltb, ◌==◌, if◌then◌else◌, length, take, drop, list_eq,
}
use gasworks.Word.{max_int64, slt, sle, add64}
use gasworks.Spool.Checks.{Checks}
use gasworks.Spool.Sidecar.{SidecarError, FileRead, Identity, read_identity, read_ack}
use gasworks.Spool.Frame.{
  Frame, decode_frame, frame_ok, frame_incomplete, frame_corrupt, sequence_max,
}
use gasworks.Spool.Segment.{
  SegmentHeader, decode_segment_header, seg_fixed_prefix_len, seg_header_crc_len,
}

pub data RecoveryOutcome : Type 0 where
  clean truncated_tail interrupted_create : RecoveryOutcome

-- `diagnostic_path` is the entry of the disk's `torn_tails`; its name has the time in it.
pub record Recovery : Type 0 where
  pub source_id : List ℕ
  pub format_version : ℕ
  pub highest_durable_sequence : ℕ
  pub acknowledged_through : ℕ
  pub next_sequence : ℕ
  pub exhausted : Bool
  pub outcome : RecoveryOutcome
  pub truncated_segment : List ℕ
  pub discarded_bytes : ℕ
  pub empty_trailing_segment : List ℕ

-- The `Detail` of a *CorruptionError.
pub data Corruption : Type 0 where
  header_undecodable source_mismatch format_mismatch first_sequence_gap : Corruption
  sequence_gap : ℕ → ℕ → Corruption
  short_read bad_frame : ℕ → Corruption

-- The calls of `truncateTornTail`, in order.
pub data TruncateCall : Type 0 where
  diagnostic diagnostic_sync_dir open_file truncate sync_file close_file sync_dir : TruncateCall

pub data RecoverError : Type 0 where
  sidecar : SidecarError → RecoverError
  identity_mismatch : RecoverError
  corruption : List ℕ → Corruption → RecoverError
  truncate_failed : TruncateCall → RecoverError
  out_of_fuel : RecoverError

-- A `.seg` file.
pub record WalFile : Type 0 where
  pub name : List ℕ
  pub bytes : List ℕ

-- A discarded tail: the segment, the valid end and the bytes.
pub record TornTail : Type 0 where
  pub segment : List ℕ
  pub valid_end : ℕ
  pub discarded : List ℕ

pub record Disk : Type 0 where
  pub identity : FileRead
  pub ack : FileRead
  pub wal : List WalFile
  pub torn_tails : List TornTail

-- next_sequence as max(highest, ack) + 1, clamped
unfoldable pub next_sequence : ℕ → ℕ → ℕ × Bool
next_sequence highest ack =
    let top = if slt highest ack then ack else highest in
    if sle sequence_max top then (sequence_max, true) else (add64 top 1, false)

unfoldable pub interrupted_create_bound : Bool → List ℕ → ℕ
interrupted_create_bound identity_present identity_source =
    if identity_present
    then seg_fixed_prefix_len + length identity_source + seg_header_crc_len
    else seg_fixed_prefix_len

-- The bound for what the identity sidecar held.
abbrev pub bound_of : Option Identity → ℕ
bound_of none = interrupted_create_bound false []
bound_of (some i) = interrupted_create_bound true i.source_id

abbrev pub differs : Option Identity → Option Identity → Bool
differs (some b) (some i) =
    not (list_eq i.source_id b.source_id) || not (i.format_version == b.format_version)
differs _ _ = false

abbrev pub is_empty {ℓ} : {A : Type ℓ} → List A → Bool
is_empty [] = true
is_empty (f ∷ fs) = false

-- The recovery before the first segment.
unfoldable pub fresh : Option Identity → ℕ → Recovery
fresh identity ack = record {
  source_id = elim identity [ none ↦ [] | some i ↦ i.source_id ];
  format_version = elim identity [ none ↦ 0 | some i ↦ i.format_version ];
  highest_durable_sequence = 0;
  acknowledged_through = ack;
  next_sequence = 0;
  exhausted = false;
  outcome = clean;
  truncated_segment = [];
  discarded_bytes = 0;
  empty_trailing_segment = [];
}

-- How the walk over the frames of a segment ends.
pub data WalkEnd : Type 0 where
  walked : ℕ → ℕ → WalkEnd
  torn : ℕ → ℕ → ℕ → WalkEnd
  broken : Corruption → WalkEnd
  exhausted_fuel : WalkEnd

-- The frame loop of `recoverSegment` at offset `off`, over what is left of the data: `highest` is
-- rec.HighestDurableSequence. Each round takes a whole frame, so `length` of the data is enough fuel.
module _ (c : Checks) where
  unfoldable pub walk : ℕ → ℕ → ℕ → ℕ → List ℕ → WalkEnd
  walk fuel off expected highest [] = walked expected highest
  walk zero off expected highest (b ∷ d) = exhausted_fuel
  walk (suc fuel) off expected highest (b ∷ d) = elim (decode_frame c (b ∷ d)) [
    | frame_ok fr n ↦
        if not (fr.sequence == expected)
        then broken (sequence_gap off fr.sequence)
        else walk fuel (off + n) (add64 expected 1) fr.sequence (drop n (b ∷ d))
    | frame_incomplete ↦ torn off expected highest
    | frame_corrupt ↦ broken (bad_frame off)
  ]

-- What recovery carries from one segment to the next; `expected` is 0 until a segment sets it.
pub record Progress : Type 0 where
  pub rec : Recovery
  pub expected : ℕ

-- One segment: the file and the torn tails afterwards, and the result.
pub record SegmentResult : Type 0 where
  pub file : WalFile
  pub tails : List TornTail
  pub result : Result RecoverError Progress

module _ (c : Checks) (fails : TruncateCall → Bool) where
  -- The diagnostic comes before the truncation, and the truncation before anything is reported.
  unfoldable pub truncate_torn_tail : WalFile → ℕ → ℕ → Progress → SegmentResult
  truncate_torn_tail f valid_end hdr_len p =
      let discarded = drop valid_end f.bytes in
      let tails = record { segment = f.name; valid_end = valid_end; discarded = discarded } ∷ [] in
      let cut = record f { bytes = take valid_end f.bytes } in
      let rec' = record p.rec {
        outcome = truncated_tail;
        truncated_segment = f.name;
        discarded_bytes = length discarded;
        empty_trailing_segment =
            if valid_end == hdr_len then f.name else p.rec.empty_trailing_segment;
      } in
      if fails diagnostic
      then record { file = f; tails = []; result = err (truncate_failed diagnostic) }
      else if fails diagnostic_sync_dir
      then record { file = f; tails = tails; result = err (truncate_failed diagnostic_sync_dir) }
      else if fails open_file
      then record { file = f; tails = tails; result = err (truncate_failed open_file) }
      else if fails truncate
      then record { file = f; tails = tails; result = err (truncate_failed truncate) }
      else if fails sync_file
      then record { file = cut; tails = tails; result = err (truncate_failed sync_file) }
      else if fails close_file
      then record { file = cut; tails = tails; result = err (truncate_failed close_file) }
      else if fails sync_dir
      then record { file = cut; tails = tails; result = err (truncate_failed sync_dir) }
      else record { file = cut; tails = tails; result = ok (record p { rec = rec' }) }

  -- A segment that is left as it is.
  abbrev pub untouched : WalFile → Result RecoverError Progress → SegmentResult
  untouched f r = record { file = f; tails = []; result = r }

  -- From the frames on: `hdr_len` is where they begin.
  unfoldable pub recover_frames : WalFile → ℕ → Bool → Progress → SegmentResult
  recover_frames f hdr_len is_last p =
      if is_last && hdr_len == length f.bytes
      then untouched f (ok (record p { rec = record p.rec { empty_trailing_segment = f.name } }))
      else elim (walk c (length f.bytes) hdr_len p.expected p.rec.highest_durable_sequence
          (drop hdr_len f.bytes)) [
            | walked expected highest ↦ untouched f (
                ok (record {
                  rec = record p.rec { highest_durable_sequence = highest };
                  expected = expected;
                }))
            | torn off expected highest ↦
                if not is_last
                then untouched f (err (corruption f.name (short_read off)))
                else truncate_torn_tail f off hdr_len (record {
                  rec = record p.rec { highest_durable_sequence = highest };
                  expected = expected;
                })
            | broken x ↦ untouched f (err (corruption f.name x))
            | exhausted_fuel ↦ untouched f (err out_of_fuel)
          ]

  -- The header against the identity that is known by now, or the adoption of the header's.
  unfoldable pub adopt_header :
      Option Identity → SegmentHeader → Recovery → Result (Option Corruption) Recovery
  adopt_header binding hdr rec =
      if list_eq rec.source_id []
      then elim binding [
        | none ↦ ok (record rec { source_id = hdr.source_id; format_version = hdr.format_version })
        | some b ↦
            if not (list_eq hdr.source_id b.source_id)
              || not (hdr.format_version == b.format_version)
            then err none
            else ok (record rec { source_id = hdr.source_id; format_version = hdr.format_version })
      ]
      else if not (list_eq hdr.source_id rec.source_id)
      then err (some source_mismatch)
      else if not (hdr.format_version == rec.format_version)
      then err (some format_mismatch)
      else ok rec

  -- `identity` is what the identity sidecar held, if there is one.
  unfoldable pub recover_segment :
      Option Identity → Option Identity → Bool → WalFile → Progress → SegmentResult
  recover_segment identity binding is_last f p = elim (decode_segment_header c f.bytes) [
    | err e ↦
        if is_last && leb (length f.bytes) (bound_of identity)
        then untouched f (
            ok (record p {
              rec = record p.rec { outcome = interrupted_create; empty_trailing_segment = f.name };
            }))
        else untouched f (err (corruption f.name header_undecodable))
    | ok (hdr, hdr_len) ↦ elim (adopt_header binding hdr p.rec) [
      | err none ↦ untouched f (err identity_mismatch)
      | err (some x) ↦ untouched f (err (corruption f.name x))
      | ok rec' ↦
          if p.expected == 0
          then recover_frames f hdr_len is_last
              (record { rec = rec'; expected = hdr.first_sequence })
          else if not (hdr.first_sequence == p.expected)
          then untouched f (err (corruption f.name first_sequence_gap))
          else recover_frames f hdr_len is_last (record { rec = rec'; expected = p.expected })
    ]
  ]

  -- The files afterwards, the torn tails, and the result: an error ends the walk.
  unfoldable pub recover_segments :
      Option Identity
      → Option Identity
      → List WalFile
      → Progress
      → List WalFile × List TornTail × Result RecoverError Progress
  recover_segments identity binding [] p = ([], [], ok p)
  recover_segments identity binding (f ∷ fs) p =
      let r = recover_segment identity binding (is_empty fs) f p in
      elim r.result [
        | err e ↦ (r.file ∷ fs, r.tails, err e)
        | ok p' ↦
            let (files, tails, end) = recover_segments identity binding fs p' in
            (r.file ∷ files, r.tails ++ tails, end)
      ]

  -- `recover`; `Recover` has no binding, and `RecoverBound` has one.
  unfoldable pub recover : Option Identity → Disk → Disk × Result RecoverError Recovery
  recover binding d = elim (read_identity c d.identity) [
    | err e ↦ (d, err (sidecar e))
    | ok identity ↦
        if differs binding identity then (d, err identity_mismatch) else elim (read_ack c d.ack) [
          | err e ↦ (d, err (sidecar e))
          | ok ack ↦
              let (files, tails, end) =
                recover_segments identity binding d.wal
                  (record { rec = fresh identity ack; expected = 0 }) in
              (
                record d { wal = files; torn_tails = d.torn_tails ++ tails },
                elim end [
                  | err e ↦ err e
                  | ok p ↦
                      let (next, exhausted) =
                        next_sequence p.rec.highest_durable_sequence p.rec.acknowledged_through in
                      ok (record p.rec { next_sequence = next; exhausted = exhausted })
                ],
              )
        ]
  ]
