-- ===== src/Upload/Retry/Watermark.antt =====
-- When a delivery moves the watermark.
use gasworks.Prelude.{
  ℕ, zero, suc, ◌+◌, Bool, true, [], ◌∷◌, Option, none, some, if◌then◌else◌, ◌==◌, ==_iff, ◌≡◌, ◌⊎◌,
  refl, sym, ap, subst, inl, inr, arith, list_eq, list_eq_iff, Bool-cases, Option-cases,
}
use gasworks.Word.{add64}
use gasworks.Spool.Checks.{Checks}
use gasworks.Spool.AtomicWrite.{Env, atomic_write_file}
use gasworks.Spool.Sidecar.{encode_ack}
use gasworks.Spool.Ack.{AckState, SequenceRange, AckError, write_failed, acknowledge, advance}
use gasworks.Spool.Ack.Invariant.{IsSound, IsOwed, Owed}
use gasworks.Upload.Retry.Classify.{Disposition-cases, classify-success, classify-hold}
use gasworks.Upload.Retry.{
  max_attempts_or_default, backoff, retry_after_of, retries_exhausted, empty_source_id,
  sleep_failed, Text, IngestAck, Attempt, attempted, success, retry_later, classify, RetryPolicy,
  DeliverError, World, range_len, ack_error, acknowledge_range, Delivery, finish, give_up,
  deliver_loop, deliver, operator_error, is_ack_rejection, HoldReason, held, persist_failed,
  ack_rejected, undecodable_ack, ack_source, ack_head, ack_count,
}

-- A 200 whose acknowledgement fits what was sent: its source, the end of the range and the number of
-- records.
pub record IsValid (source : Text) (r : SequenceRange) (att : Attempt) : Type 0 where
  pub status : att.status_code ≡ 200
  pub answer : IngestAck
  pub decoded : att.ack ≡ some answer
  pub bound : answer.source_id ≡ source
  pub last : answer.acknowledged_through_sequence ≡ r.last_sequence
  pub count : add64 answer.accepted answer.duplicates ≡ range_len r

-- Neither mark moved, and the range is still out.
pub record IsKept (a b : AckState) : Type 0 where
  pub acknowledged : b.acknowledged_through ≡ a.acknowledged_through
  pub durable : b.highest_durable ≡ a.highest_durable
  pub in_flight : b.in_flight ≡ a.in_flight

-- The watermark stands at the end of the range, and nothing is out.
pub record IsMoved (r : SequenceRange) (a b : AckState) : Type 0 where
  pub acknowledged : b.acknowledged_through ≡ r.last_sequence
  pub durable : b.highest_durable ≡ a.highest_durable
  pub in_flight : b.in_flight ≡ none

IsKept-refl : (a : AckState) → IsKept a a
IsKept-refl a = record { acknowledged = refl; durable = refl; in_flight = refl }

-- The wait behind request `n` is cut short.
abbrev pub cancelled_after : World → RetryPolicy → ℕ → Bool
cancelled_after w p n = w.cancelled n (backoff p (w.jitter n) n (retry_after_of (w.send n)))

module _ (c : Checks) (e : Env) where
  abbrev Marks : SequenceRange → AckState → AckState × Option AckError → Type 0
  Marks r a done =
      ((done.1 ≡ none) × IsMoved r a done.0)
      ⊎ ((x : AckError) × (done.1 ≡ some x) × IsKept a done.0)

  advance-Marks : (a : AckState) (r : SequenceRange) → Marks r a (advance c e a r r.last_sequence)
  unfolding advance
  advance-Marks a r =
      elim (Option-cases (atomic_write_file e (encode_ack c r.last_sequence) a.slot).1) [
        | inl done ↦ inl (
          rw (done, advance),
          record {
            acknowledged = rw (done, advance);
            durable = rw (done, advance);
            in_flight = rw (done, advance) (ground arith);
          },
        )
        | inr (x, wrong) ↦ inr (
          write_failed x,
          rw (wrong, advance),
          record {
            acknowledged = rw (wrong, advance);
            durable = rw (wrong, advance);
            in_flight = rw (wrong, advance);
          },
        )
      ]

  acknowledge-advance :
      (a : AckState) (r : SequenceRange)
      → IsSound c a
      → a.in_flight ≡ some r
      → IsOwed a r
      → acknowledge c e a r.last_sequence ≡ advance c e a r r.last_sequence
  unfolding acknowledge
  acknowledge-advance a r h out ho =
      rw out (ground (arith, ho.begins, ho.ordered, ho.durable, h.int64))

  -- Where the sidecar can be written.
  acknowledge_written :
      (a : AckState) (r : SequenceRange)
      → (atomic_write_file e (encode_ack c r.last_sequence) a.slot).1 ≡ none
      → IsSound c a
      → a.in_flight ≡ some r
      → (acknowledge c e a r.last_sequence).1 ≡ none
  unfolding advance
  acknowledge_written a r works h out =
      rw (acknowledge-advance a r h out (subst (Owed a) out h.owed)) (rw (works, advance))

  acknowledge-Marks :
      (a : AckState) (r : SequenceRange)
      → IsSound c a
      → a.in_flight ≡ some r
      → Marks r a (acknowledge c e a r.last_sequence)
  acknowledge-Marks a r h out =
      let ho : IsOwed a r = subst (Owed a) out h.owed in
      let same : acknowledge c e a r.last_sequence ≡ advance c e a r r.last_sequence =
        acknowledge-advance a r h out ho in
      rw same (advance-Marks a r)

  -- What acknowledging an attempt comes to.
  abbrev Settled :
      Text → SequenceRange → Attempt → AckState → AckState × Option DeliverError → Type 0
  Settled source r att a d =
      ((d.1 ≡ none) × IsMoved r a d.0 × IsValid source r att)
      ⊎ ((x : DeliverError) × (d.1 ≡ some x) × IsKept a d.0)

  ack_error-some :
      (status : ℕ) (x : AckError) → (y : DeliverError) × (ack_error c e status (some x) ≡ some y)
  unfolding ack_error
  ack_error-some status x = elim (Bool-cases (is_ack_rejection x)) [
    | inl rejected ↦ (held (operator_error (ack_rejected x) status), rw rejected)
    | inr other ↦ (persist_failed x, rw other)
  ]

  accepted-Settled :
      (source : Text) (r : SequenceRange) (att : Attempt) (a : AckState)
      → IsSound c a
      → a.in_flight ≡ some r
      → IsValid source r att
      → Settled source r att a (
        (acknowledge c e a r.last_sequence).0,
        ack_error c e att.status_code (acknowledge c e a r.last_sequence).1,
      )
  accepted-Settled source r att a h out v = elim (acknowledge-Marks a r h out) [
    | inl (done, moved) ↦ inl (rw done (unfold ack_error in refl), moved, v)
    | inr (x, wrong, kept) ↦
        let (y, error) = ack_error-some att.status_code x in inr (y, rw wrong error, kept)
  ]

  refused-Settled :
      (source : Text) (r : SequenceRange) (att : Attempt) (a : AckState) (x : DeliverError)
      → acknowledge_range c e source r att a ≡ (a, some x)
      → Settled source r att a (acknowledge_range c e source r att a)
  refused-Settled source r att a x same = rw same (inr (x, refl, IsKept-refl a))

  acknowledge_range-accepted :
      (source : Text) (r : SequenceRange) (att : Attempt) (a : AckState) (k : IngestAck)
      → att.ack ≡ some k
      → list_eq k.source_id source ≡ true
      → (k.acknowledged_through_sequence == r.last_sequence) ≡ true
      → (add64 k.accepted k.duplicates == range_len r) ≡ true
      → acknowledge_range c e source r att a ≡ (
        (acknowledge c e a r.last_sequence).0,
        ack_error c e att.status_code (acknowledge c e a r.last_sequence).1,
      )
  unfolding acknowledge_range
  acknowledge_range-accepted source r att a k decoded bound head count =
      rw (decoded, acknowledge_range)
        (rw (bound, head, count)
          (ap
            (λ n. ((acknowledge c e a n).0, ack_error c e att.status_code (acknowledge c e a n).1))
            ((==_iff k.acknowledged_through_sequence r.last_sequence).0 head)))

  acknowledge_range-Settled :
      (source : Text) (r : SequenceRange) (att : Attempt) (a : AckState)
      → IsSound c a
      → a.in_flight ≡ some r
      → att.status_code ≡ 200
      → Settled source r att a (acknowledge_range c e source r att a)
  unfolding acknowledge_range
  acknowledge_range-Settled source r att a h out ok_status =
      let refused = λ (why : HoldReason). held (operator_error why att.status_code) in
      elim (Option-cases att.ack) [
        | inl undecoded ↦
            refused-Settled source r att a (refused undecodable_ack)
              (rw (undecoded, acknowledge_range))
        | inr (k, decoded) ↦ elim (Bool-cases (list_eq k.source_id source)) [
          | inr other ↦
              refused-Settled source r att a (refused ack_source)
                (rw (decoded, acknowledge_range) (rw other))
          | inl bound ↦ elim (Bool-cases (k.acknowledged_through_sequence == r.last_sequence)) [
            | inr other ↦
                refused-Settled source r att a (refused ack_head)
                  (rw (decoded, acknowledge_range) (rw (bound, other)))
            | inl head ↦ elim (Bool-cases (add64 k.accepted k.duplicates == range_len r)) [
              | inr other ↦
                  refused-Settled source r att a (refused ack_count)
                    (rw (decoded, acknowledge_range) (rw (bound, head, other)))
              | inl count ↦
                  subst (Settled source r att a)
                    (sym (acknowledge_range-accepted source r att a k decoded bound head count))
                    (accepted-Settled source r att a h out (record {
                      status = ok_status;
                      answer = k;
                      decoded = decoded;
                      bound = (list_eq_iff k.source_id source).0 bound;
                      last = (==_iff k.acknowledged_through_sequence r.last_sequence).0 head;
                      count = (==_iff (add64 k.accepted k.duplicates) (range_len r)).0 count;
                    }))
            ]
          ]
        ]
      ]

  -- What a delivery comes to: the request that it ended with was answered by a valid 200 and the
  -- watermark moved through the range; or there is an error, and the marks are as they were.
  abbrev pub Delivered : World → Text → SequenceRange → AckState → Delivery c e → Type 0
  Delivered w source r a d =
      ((d.1 ≡ none)
        × IsMoved r a d.0
        × (att : Attempt) × (w.send d.2 ≡ attempted att)
        × IsValid source r att)
      ⊎ ((x : DeliverError) × (d.1 ≡ some x) × IsKept a d.0)

  finish-Delivered :
      (w : World) (source : Text) (r : SequenceRange) (n : ℕ) (a : AckState)
      → IsSound c a
      → a.in_flight ≡ some r
      → (classify (w.send n)).0 ≡ success
      → Delivered w source r a (finish c e source r (w.send n) n a)
  unfolding finish
  finish-Delivered w source r n a h out s =
      let (att, answered, ok_status) = classify-success (w.send n) s in
      rw answered (elim (acknowledge_range-Settled source r att a h out ok_status) [
        | inl (done, moved, v) ↦ inl (done, moved, att, answered, v)
        | inr (x, wrong, kept) ↦ inr (x, wrong, kept)
      ])

  -- One round that is to be retried.
  pub deliver_loop-again :
      (w : World) (p : RetryPolicy) (source : Text) (r : SequenceRange) (left n : ℕ) (a : AckState)
      → (classify (w.send n)).0 ≡ retry_later
      → deliver_loop c e w p source r (suc left) n a ≡ (
          if left == 0
          then (a, some retries_exhausted, n)
          else if cancelled_after w p n
          then (a, some sleep_failed, n)
          else deliver_loop c e w p source r left (n + 1) a)
  unfolding deliver_loop
  deliver_loop-again w p source r left n a again = rw (again, deliver_loop) refl

  -- A valid 200 ends the delivery, where the sidecar can be written.
  pub finish-valid :
      (source : Text) (r : SequenceRange) (att : Attempt) (n : ℕ) (a : AckState)
      → (atomic_write_file e (encode_ack c r.last_sequence) a.slot).1 ≡ none
      → IsSound c a
      → a.in_flight ≡ some r
      → IsValid source r att
      → ((finish c e source r (attempted att) n a).1 ≡ none)
        × ((finish c e source r (attempted att) n a).2 ≡ n)
  unfolding finish
  finish-valid source r att n a works h out v =
      let same =
        acknowledge_range-accepted source r att a v.answer v.decoded
          ((list_eq_iff v.answer.source_id source).1 v.bound)
          ((==_iff v.answer.acknowledged_through_sequence r.last_sequence).1 v.last)
          ((==_iff (add64 v.answer.accepted v.answer.duplicates) (range_len r)).1 v.count) in
      (rw same (rw (acknowledge_written a r works h out) (unfold ack_error in refl)), refl)

  deliver_loop-Delivered :
      (w : World) (p : RetryPolicy) (source : Text) (r : SequenceRange) (left n : ℕ) (a : AckState)
      → IsSound c a
      → a.in_flight ≡ some r
      → Delivered w source r a (deliver_loop c e w p source r left n a)
  unfolding deliver_loop
  deliver_loop-Delivered w p source r zero n a h out = inr (retries_exhausted, refl, IsKept-refl a)
  deliver_loop-Delivered w p source r (suc left) n a h out =
      elim (Disposition-cases (classify (w.send n)).0) [
        | inl s ↦ rw (s, deliver_loop) (finish-Delivered w source r n a h out s)
        | inr (inl stop) ↦
            let (x, said) = classify-hold (w.send n) stop in
            rw (stop, deliver_loop) (rw (said, give_up) (inr (held x, refl, IsKept-refl a)))
        | inr (inr again) ↦
            rw (deliver_loop-again w p source r left n a again) (elim (Bool-cases (left == 0)) [
              | inl last ↦ rw last (inr (retries_exhausted, refl, IsKept-refl a))
              | inr more ↦ rw more (elim (Bool-cases (cancelled_after w p n)) [
                | inl stop ↦ rw stop (inr (sleep_failed, refl, IsKept-refl a))
                | inr on ↦ rw on (deliver_loop-Delivered w p source r left (n + 1) a h out)
              ])
            ])
      ]

  -- A delivery of the outstanding range from a sound state. If it reports no error, then the
  -- request that it ended with was answered by a 200 whose acknowledgement names the bound
  -- source, the end of the range and as many records as the range has, and the watermark now
  -- stands there with nothing out. If it reports an error, the watermark, the ceiling and the
  -- outstanding range are as they were.
  pub deliver-Delivered :
      (w : World) (p : RetryPolicy) (source : Text) (r : SequenceRange) (a : AckState)
      → IsSound c a
      → a.in_flight ≡ some r
      → Delivered w source r a (deliver c e w p source r a)
  unfolding deliver
  deliver-Delivered w p [] r a h out = inr (empty_source_id, refl, IsKept-refl a)
  deliver-Delivered w p (b ∷ source) r a h out =
      deliver_loop-Delivered w p (b ∷ source) r (max_attempts_or_default p) 1 a h out
