-- ===== src/Upload/Retry.antt =====
-- upload/retry.go: the classification of an attempt, the delays, and the delivery loop. Durations are
-- int64 nanoseconds. What the sender and the timer do in attempt `n` is an argument.
pub mod Classify
pub mod Backoff
pub mod Watermark
pub mod Progress
use gasworks.Prelude.{
  ℕ, zero, suc, ◌+◌, ◌-◌, ◌*◌, ◌/◌, ◌%◌, ◌^◌, Bool, true, false, not, ◌&&◌, ◌||◌, List, [], ◌∷◌,
  Option, none, some, if◌then◌else◌, ◌==◌, leb, list_eq,
}
use gasworks.Word.{slt, sle, add64, sub64}
use gasworks.Spool.Checks.{Checks}
use gasworks.Spool.AtomicWrite.{Call, Env}
use gasworks.Spool.Ack.{
  AckState, SequenceRange, AckError, ack_backward, ack_gap, ack_beyond_durable, ack_beyond_sent,
  in_flight_conflict, in_flight_range, write_failed, acknowledge,
}

abbrev pub Text : Type 0
Text = List ℕ

-- wire.IngestAck, with three int64
pub record IngestAck : Type 0 where
  pub accepted : ℕ
  pub acknowledged_through_sequence : ℕ
  pub duplicates : ℕ
  pub source_id : Text

-- wire.ObserverErrorBody
pub record ErrorBody : Type 0 where
  pub code : Text
  pub message : Text

pub record Attempt : Type 0 where
  pub status_code : ℕ
  pub ack : Option IngestAck
  pub error_body : Option ErrorBody
  pub retry_after : ℕ

pub data SendError : Type 0 where
  unsupported_content_encoding source_mismatch other_error : SendError

-- What `Send` returns: an error, or an attempt that may be nil.
pub data Outcome : Type 0 where
  failed : SendError → Outcome
  no_attempt : Outcome
  attempted : Attempt → Outcome

pub data Disposition : Type 0 where
  success retry_later hold : Disposition

pub data HoldReason : Type 0 where
  unsupported_encoding batch_source schema unauthenticated forbidden conflict too_large
        unprocessable unexpected_status undecodable_ack ack_source ack_head ack_count :
      HoldReason
  ack_rejected : AckError → HoldReason

pub record OperatorError : Type 0 where
  pub reason : HoldReason
  pub status : ℕ
  pub code : Text
  pub message : Text

-- `&OperatorError{Reason: reason, Status: status}`
unfoldable pub operator_error : HoldReason → ℕ → OperatorError
operator_error why status = record { reason = why; status = status; code = []; message = [] }

unfoldable pub hold_error : HoldReason → Attempt → OperatorError
unfolding operator_error
hold_error why att = elim att.error_body [
  | none ↦ operator_error why att.status_code
  | some b ↦ record { reason = why; status = att.status_code; code = b.code; message = b.message }
]

classify_status : Attempt → Disposition × Option OperatorError
classify_status att =
    let status = att.status_code in
    if status == 200
    then (success, none)
    else if status == 429
    then (retry_later, none)
    else if status == 400
    then (hold, some (hold_error schema att))
    else if status == 401
    then (hold, some (hold_error unauthenticated att))
    else if status == 403
    then (hold, some (hold_error forbidden att))
    else if status == 409
    then (hold, some (hold_error conflict att))
    else if status == 413
    then (hold, some (hold_error too_large att))
    else if status == 422
    then (hold, some (hold_error unprocessable att))
    else if leb 500 status && leb status 599
    then (retry_later, none)
    else (hold, some (hold_error unexpected_status att))

unfoldable pub classify : Outcome → Disposition × Option OperatorError
unfolding classify_status
classify (failed unsupported_content_encoding) =
    (hold, some (operator_error unsupported_encoding 0))
classify (failed source_mismatch) = (hold, some (operator_error batch_source 0))
classify (failed other_error) = (retry_later, none)
classify no_attempt = (retry_later, none)
classify (attempted att) = classify_status att

-- Without the functions that sleep and draw the jitter.
pub record RetryPolicy : Type 0 where
  pub max_attempts : ℕ
  pub base_delay : ℕ
  pub max_delay : ℕ

unfoldable pub max_attempts_or_default : RetryPolicy → ℕ
max_attempts_or_default p = if sle p.max_attempts 0 then 6 else p.max_attempts

-- 200 ms
unfoldable pub base_delay_or_default : RetryPolicy → ℕ
base_delay_or_default p = if sle p.base_delay 0 then 200000000 else p.base_delay

-- 30 s
unfoldable pub max_delay_or_default : RetryPolicy → ℕ
max_delay_or_default p = if sle p.max_delay 0 then 30000000000 else p.max_delay

-- `d << n` on int64
abbrev pub shl64 : ℕ → ℕ → ℕ
shl64 d n = (d * 2 ^ n) % 18446744073709551616

unfoldable pub backoff_step : RetryPolicy → ℕ → ℕ
unfolding base_delay_or_default max_delay_or_default
backoff_step p attempt =
    let computed = shl64 (base_delay_or_default p) (attempt - 1) in
    if sle computed 0 || slt (max_delay_or_default p) computed
    then max_delay_or_default p
    else computed

-- `jitter half` is `time.Duration(p.jitter() * float64(half))`.
unfoldable pub backoff : RetryPolicy → (ℕ → ℕ) → ℕ → ℕ → ℕ
backoff p jitter attempt retry_after =
    if slt 0 retry_after
    then retry_after
    else let half = backoff_step p attempt / 2 in half + jitter half

unfoldable pub is_ack_rejection : AckError → Bool
is_ack_rejection ack_beyond_sent = true
is_ack_rejection ack_beyond_durable = true
is_ack_rejection ack_backward = true
is_ack_rejection ack_gap = true
is_ack_rejection in_flight_conflict = false
is_ack_rejection in_flight_range = false
is_ack_rejection (write_failed x) = false

pub data DeliverError : Type 0 where
  held : OperatorError → DeliverError
  empty_source_id retries_exhausted sleep_failed : DeliverError
  persist_failed : AckError → DeliverError

-- What the world does in each attempt: the response, whether the wait is cut short, and the jitter.
pub record World : Type 0 where
  pub send : ℕ → Outcome
  pub cancelled : ℕ → ℕ → Bool
  pub jitter : ℕ → ℕ → ℕ

-- Retry-After counts for a 429 alone.
unfoldable pub retry_after_of : Outcome → ℕ
retry_after_of (failed e) = 0
retry_after_of no_attempt = 0
retry_after_of (attempted att) = if att.status_code == 429 then att.retry_after else 0

unfoldable pub range_len : SequenceRange → ℕ
range_len r = add64 (sub64 r.last_sequence r.first_sequence) 1

module _ (c : Checks) (e : Env) where
  -- Of the error that `AckState.Acknowledge` gave.
  ack_error : ℕ → Option AckError → Option DeliverError
  unfolding is_ack_rejection operator_error
  ack_error status none = none
  ack_error status (some x) =
      if is_ack_rejection x
      then some (held (operator_error (ack_rejected x) status))
      else some (persist_failed x)

  -- `acknowledge`, with the plan's range
  unfoldable pub acknowledge_range :
      Text → SequenceRange → Attempt → AckState → AckState × Option DeliverError
  unfolding ack_error range_len operator_error
  acknowledge_range source r att a = elim att.ack [
    | none ↦ (a, some (held (operator_error undecodable_ack att.status_code)))
    | some k ↦
        if not (list_eq k.source_id source)
        then (a, some (held (operator_error ack_source att.status_code)))
        else if not (k.acknowledged_through_sequence == r.last_sequence)
        then (a, some (held (operator_error ack_head att.status_code)))
        else if not (add64 k.accepted k.duplicates == range_len r)
        then (a, some (held (operator_error ack_count att.status_code)))
        else let done = acknowledge c e a k.acknowledged_through_sequence in
          (done.0, ack_error att.status_code done.1)
  ]

  -- The state, the error, and the number of requests that were sent.
  abbrev pub Delivery : Type 0
  Delivery = AckState × Option DeliverError × ℕ

  -- The case of success: classify gives it for an attempt alone.
  unfoldable pub finish : Text → SequenceRange → Outcome → ℕ → AckState → Delivery
  unfolding acknowledge_range
  finish source r (attempted att) n a =
      let done = acknowledge_range source r att a in (done.0, done.1, n)
  finish source r (failed x) n a = (a, none, n)
  finish source r no_attempt n a = (a, none, n)

  give_up : Option OperatorError → ℕ → AckState → Delivery
  give_up none n a = (a, none, n)
  give_up (some x) n a = (a, some (held x), n)

  -- The loop with `left` attempts to go, the next of which is number `attempt`.
  unfoldable pub deliver_loop :
      World → RetryPolicy → Text → SequenceRange → ℕ → ℕ → AckState → Delivery
  unfolding classify finish give_up retry_after_of
  deliver_loop w p source r zero attempt a = (a, some retries_exhausted, attempt - 1)
  deliver_loop w p source r (suc left) attempt a =
      let outcome = w.send attempt in
      let delay = backoff p (w.jitter attempt) attempt (retry_after_of outcome) in
      elim (classify outcome).0 [
        | success ↦ finish source r outcome attempt a
        | hold ↦ give_up (classify outcome).1 attempt a
        | retry_later ↦
            if left == 0
            then (a, some retries_exhausted, attempt)
            else if w.cancelled attempt delay
            then (a, some sleep_failed, attempt)
            else deliver_loop w p source r left (attempt + 1) a
      ]

  unfoldable pub deliver : World → RetryPolicy → Text → SequenceRange → AckState → Delivery
  unfolding deliver_loop max_attempts_or_default
  deliver w p [] r a = (a, some empty_source_id, 0)
  deliver w p (b ∷ source) r a = deliver_loop w p (b ∷ source) r (max_attempts_or_default p) 1 a
