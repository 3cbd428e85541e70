-- ===== src/Upload/Retry/Progress.antt =====
-- How far a delivery goes: its number of requests, and when it succeeds.
use gasworks.Prelude.{
  ℕ, zero, suc, ◌+◌, ◌≤◌, ◌<◌, false, [], ◌∷◌, none, some, ◌==◌, ==_iff, ◌≡◌, ◌≢◌, refl, subst, inl,
  inr, arith, Bool-cases,
}
use gasworks.Spool.Checks.{Checks}
use gasworks.Spool.AtomicWrite.{Env, atomic_write_file}
use gasworks.Spool.Sidecar.{encode_ack}
use gasworks.Spool.Ack.{AckState, SequenceRange}
use gasworks.Spool.Ack.Invariant.{IsSound}
use gasworks.Upload.Retry.Classify.{Disposition-cases, classify-hold, classify-ok}
use gasworks.Upload.Retry.{
  max_attempts_or_default, retries_exhausted, Text, Attempt, Outcome, failed, no_attempt, attempted,
  success, retry_later, classify, RetryPolicy, World, ack_error, acknowledge_range, Delivery,
  finish, give_up, deliver_loop, deliver,
}
use gasworks.Upload.Retry.Watermark.{IsValid, cancelled_after, deliver_loop-again, finish-valid}

max_attempts_positive : (p : RetryPolicy) → 1 ≤ max_attempts_or_default p
unfolding max_attempts_or_default
max_attempts_positive p = ground arith

module _ (c : Checks) (e : Env) where
  finish-sends :
      (source : Text) (r : SequenceRange) (o : Outcome) (n : ℕ) (a : AckState)
      → (finish c e source r o n a).2 ≡ n
  unfolding finish
  finish-sends source r (failed x) n a = refl
  finish-sends source r no_attempt n a = refl
  finish-sends source r (attempted att) n a = refl

  finish-exhausted :
      (source : Text) (r : SequenceRange) (o : Outcome) (n : ℕ) (a : AckState)
      → (finish c e source r o n a).1 ≢ some retries_exhausted
  unfolding finish acknowledge_range ack_error
  finish-exhausted source r (failed x) n a h = cc
  finish-exhausted source r no_attempt n a h = cc
  finish-exhausted source r (attempted att) n a h = ground arith

  -- At most `left` requests; and if the budget ran out, all of them, each of which was to be retried.
  abbrev Spent : World → ℕ → ℕ → Delivery c e → Type 0
  Spent w left n d =
      (d.2 < n + left)
      × (d.1 ≡ some retries_exhausted
          → (d.2 + 1 ≡ n + left)
            × ((k : ℕ) → n ≤ k → k < n + left → (classify (w.send k)).0 ≡ retry_later))

  deliver_loop-Spent :
      (w : World) (p : RetryPolicy) (source : Text) (r : SequenceRange) (left n : ℕ) (a : AckState)
      → 1 ≤ n
      → Spent w left n (deliver_loop c e w p source r left n a)
  unfolding deliver_loop
  deliver_loop-Spent w p source r zero n a hn =
      (omega arith, λ h. (omega arith, λ k lo hi. absurd (omega arith)))
  deliver_loop-Spent w p source r (suc left) n a hn =
      elim (Disposition-cases (classify (w.send n)).0) [
        | inl s ↦
            rw (s, deliver_loop)
              (
                omega (arith, finish-sends source r (w.send n) n a),
                λ h. absurd (finish-exhausted source r (w.send n) n a h),
              )
        | inr (inl stop) ↦
            let (x, said) = classify-hold (w.send n) stop in
            rw (stop, deliver_loop) (rw (said, give_up) (omega arith, λ h. cc))
        | inr (inr again) ↦
            rw (deliver_loop-again c e w p source r left n a again) (elim (Bool-cases (left == 0)) [
              | inl last ↦
                  let none_left : left ≡ 0 = ground arith in
                  rw last (
                    omega arith,
                    λ h. (omega arith, λ k lo hi. let only : k ≡ n = omega arith in rw only again),
                  )
              | inr more ↦ rw more (elim (Bool-cases (cancelled_after w p n)) [
                | inl stop ↦ rw stop (omega arith, λ h. cc)
                | inr on ↦
                    let ih = deliver_loop-Spent w p source r left (n + 1) a (omega arith) in
                    rw on (
                      omega (arith, ih.0),
                      λ h. (
                        omega (arith, (ih.1 h).0),
                        λ k lo hi. elim (Bool-cases (k == n)) [
                          | inl first ↦ let e : k ≡ n = (==_iff k n).0 first in rw e again
                          | inr later ↦ (ih.1 h).1 k (ground arith) (omega arith)
                        ],
                      ),
                    )
              ])
            ])
      ]

  -- A delivery sends at most as many requests as the policy allows. If it gives up for want of
  -- attempts, it has sent exactly that many, each of which was answered by something to retry.
  pub deliver_budget :
      (w : World) (p : RetryPolicy) (source : Text) (r : SequenceRange) (a : AckState)
      → ((deliver c e w p source r a).2 ≤ max_attempts_or_default p)
        × ((deliver c e w p source r a).1 ≡ some retries_exhausted
            → ((deliver c e w p source r a).2 ≡ max_attempts_or_default p)
              × ((k : ℕ)
                  → 1 ≤ k
                  → k ≤ max_attempts_or_default p
                  → (classify (w.send k)).0 ≡ retry_later))
  unfolding deliver
  deliver_budget w p [] r a = (omega arith, λ h. cc)
  deliver_budget w p (b ∷ source) r a =
      let spent =
        deliver_loop-Spent w p (b ∷ source) r (max_attempts_or_default p) 1 a (omega arith) in
      (
        omega (arith, spent.0),
        λ h. (omega (arith, (spent.1 h).0), λ k lo hi. (spent.1 h).1 k lo (omega arith)),
      )

  deliver_loop-reaches :
      (w : World) (p : RetryPolicy) (source : Text) (r : SequenceRange) (a : AckState)
      (steps left n : ℕ) (att : Attempt)
      → (atomic_write_file e (encode_ack c r.last_sequence) a.slot).1 ≡ none
      → IsSound c a
      → a.in_flight ≡ some r
      → IsValid source r att
      → w.send (n + steps) ≡ attempted att
      → steps < left
      → ((k : ℕ)
          → n ≤ k
          → k < n + steps
          → ((classify (w.send k)).0 ≡ retry_later) × (cancelled_after w p k ≡ false))
      → ((deliver_loop c e w p source r left n a).1 ≡ none)
        × ((deliver_loop c e w p source r left n a).2 ≡ n + steps)
  unfolding deliver_loop
  deliver_loop-reaches w p source r a steps zero n att works h out v hit room before =
      absurd (omega arith)
  deliver_loop-reaches w p source r a zero (suc left) n att works h out v hit room before =
      let now : n + zero ≡ n = omega arith in
      let here : w.send n ≡ attempted att = subst (λ k. w.send k ≡ attempted att) now hit in
      let s : (classify (w.send n)).0 ≡ success = rw here (classify-ok att v.status) in
      rw (now, s, deliver_loop) (rw here (finish-valid c e source r att n a works h out v))
  deliver_loop-reaches w p source r a (suc steps) (suc left) n att works h out v hit room before =
      let step : n + suc steps ≡ n + 1 + steps = omega arith in
      let (again, on) = before n (omega arith) (omega arith) in
      let more : (left == 0) ≡ false = ground arith in
      rw (deliver_loop-again c e w p source r left n a again, more, on, step)
        (deliver_loop-reaches w p source r a steps left (n + 1) att works h out v
          (subst (λ k. w.send k ≡ attempted att) step hit) (omega arith)
          (λ k lo hi. before k (omega arith) (omega arith)))

  -- Where the sidecar can be written: if one of the requests that the policy allows is answered
  -- by a valid 200, and every one before it by something to retry with the wait behind it not cut
  -- short, then a delivery of the outstanding range from a sound state succeeds with that
  -- request.
  pub deliver_reaches :
      (w : World) (p : RetryPolicy) (source : Text) (r : SequenceRange) (a : AckState) (n : ℕ)
      (att : Attempt)
      → (atomic_write_file e (encode_ack c r.last_sequence) a.slot).1 ≡ none
      → IsSound c a
      → a.in_flight ≡ some r
      → source ≢ []
      → IsValid source r att
      → w.send n ≡ attempted att
      → 1 ≤ n
      → n ≤ max_attempts_or_default p
      → ((k : ℕ)
          → 1 ≤ k
          → k < n
          → ((classify (w.send k)).0 ≡ retry_later) × (cancelled_after w p k ≡ false))
      → ((deliver c e w p source r a).1 ≡ none) × ((deliver c e w p source r a).2 ≡ n)
  unfolding deliver
  deliver_reaches w p [] r a n att works h out ne v hit lo hi before = absurd (ne refl)
  deliver_reaches w p (b ∷ source) r a zero att works h out ne v hit lo hi before =
      absurd (omega arith)
  deliver_reaches w p (b ∷ source) r a (suc n) att works h out ne v hit lo hi before =
      let shift : suc n ≡ 1 + n = omega arith in
      rw shift (
        deliver_loop-reaches w p (b ∷ source) r a n (max_attempts_or_default p) 1 att works h out v
          (subst (λ k. w.send k ≡ attempted att) shift hit) (omega arith)
          (λ k lo' hi'. before k lo' (omega arith)))
