-- ===== src/Spool/Ack.antt =====
-- ack.go: the acknowledgement policy over the durable `ack` sidecar. A method takes the state and
-- returns the new one with its error; the mutex makes each of them one step.
pub mod Invariant
pub mod History
use gasworks.Prelude.{
  ℕ, ◌+◌, Bool, true, false, not, ◌&&◌, ◌||◌, List, Option, none, some, Result, ok, err, ◌==◌,
  if◌then◌else◌,
}
use gasworks.Word.{slt, sle, add64, sub64}
use gasworks.Spool.Checks.{Checks}
use gasworks.Spool.Frame.{sequence_min}
use gasworks.Spool.Sidecar.{SidecarError, FileRead, encode_ack, read_ack}
use gasworks.Spool.AtomicWrite.{Call, Env, Slot, read_target, atomic_write_file}

abbrev pub default_max_in_flight_records : ℕ
default_max_in_flight_records = 1000

-- wire.SequenceRange, two int64
pub record SequenceRange : Type 0 where
  pub first_sequence : ℕ
  pub last_sequence : ℕ

pub data AckError : Type 0 where
  ack_backward ack_gap ack_beyond_durable ack_beyond_sent in_flight_conflict in_flight_range :
      AckError
  write_failed : Call → AckError

-- `slot` is the sidecar file under `dir`.
pub record AckState : Type 0 where
  pub slot : Slot
  pub acknowledged_through : ℕ
  pub highest_durable : ℕ
  pub max_in_flight : ℕ
  pub in_flight : Option SequenceRange

unfoldable pub max_in_flight_or_default : ℕ → ℕ
max_in_flight_or_default m = if sle m 0 then default_max_in_flight_records else m

same_range : SequenceRange → SequenceRange → Bool
same_range a b = a.first_sequence == b.first_sequence && a.last_sequence == b.last_sequence

-- `a.inFlight != nil && *a.inFlight != r`
conflicts : Option SequenceRange → SequenceRange → Bool
unfolding same_range
conflicts none r = false
conflicts (some q) r = not (same_range q r)

unfoldable pub note_durable : AckState → ℕ → AckState
note_durable a seq = if slt a.highest_durable seq then record a { highest_durable = seq } else a

unfoldable pub set_in_flight : AckState → SequenceRange → AckState × Option AckError
unfolding conflicts
set_in_flight a r =
    if slt r.first_sequence sequence_min || slt r.last_sequence r.first_sequence
    then (a, some in_flight_range)
    else if slt a.highest_durable r.last_sequence
    then (a, some in_flight_range)
    else if slt a.max_in_flight (add64 (sub64 r.last_sequence r.first_sequence) 1)
    then (a, some in_flight_range)
    else if not (r.first_sequence == add64 a.acknowledged_through 1)
    then (a, some ack_gap)
    else if conflicts a.in_flight r
    then (a, some in_flight_conflict)
    else (record a { in_flight = some r }, none)

-- What is still owed after an acknowledgement through `through`.
remainder : ℕ → SequenceRange → Option SequenceRange
remainder through r =
    if through == r.last_sequence
    then none
    else some (record { first_sequence = add64 through 1; last_sequence = r.last_sequence })

module _ (c : Checks) where
  unfoldable pub load_ack_state : Slot → ℕ → ℕ → Result SidecarError AckState
  unfolding max_in_flight_or_default
  load_ack_state s highest max_in_flight = elim (read_ack c (read_target s.target)) [
    | err e ↦ err e
    | ok ack ↦ ok (record {
      slot = s;
      acknowledged_through = ack;
      highest_durable = if slt highest ack then ack else highest;
      max_in_flight = max_in_flight_or_default max_in_flight;
      in_flight = none;
    })
  ]

  -- The write of the sidecar comes first: memory moves only if it reports no error.
  unfoldable pub advance : Env → AckState → SequenceRange → ℕ → AckState × Option AckError
  unfolding remainder
  advance e a r through =
      let (slot', failed) = atomic_write_file e (encode_ack c through) a.slot in
      elim failed [
        | some x ↦ (record a { slot = slot' }, some (write_failed x))
        | none ↦ (
          record a {
            slot = slot';
            acknowledged_through = through;
            in_flight = remainder through r;
          },
          none,
        )
      ]

  unfoldable pub acknowledge : Env → AckState → ℕ → AckState × Option AckError
  unfolding advance
  acknowledge e a through =
      if slt through a.acknowledged_through
      then (a, some ack_backward)
      else if through == a.acknowledged_through
      then (a, none)
      else if slt a.highest_durable through
      then (a, some ack_beyond_durable)
      else elim a.in_flight [
        | none ↦ (a, some ack_beyond_sent)
        | some r ↦
            if slt r.last_sequence through then (a, some ack_beyond_sent) else advance e a r through
      ]
