-- ===== src/Tests/Uploads.antt =====
-- The delivery of 42 to 45: a lost connection, a 503, and then the server's acknowledgement.
use Prim.Native.Nat.{min}
use gasworks.Prelude.{
  ℕ, zero, suc, ◌*◌, ◌/◌, ◌^◌, ◌≤◌, ◌≡◌, refl, false, none, some, codes, arith, if◌then◌else◌, ◌==◌,
}
use gasworks.Spool.AtomicWrite.{atomic_write_file}
use gasworks.Spool.Sidecar.{encode_ack}
use gasworks.Spool.Ack.{SequenceRange}
use gasworks.Upload.Retry.{
  IngestAck, Attempt, Outcome, failed, attempted, other_error, RetryPolicy, World,
  retries_exhausted, retry_later, classify, range_len, backoff, deliver, max_attempts_or_default,
  base_delay_or_default, max_delay_or_default,
}
use gasworks.Upload.Retry.Backoff.{backoff_bounds}
use gasworks.Upload.Retry.Watermark.{IsValid, Delivered, cancelled_after, deliver-Delivered}
use gasworks.Upload.Retry.Progress.{deliver_budget, deliver_reaches}
use gasworks.Tests.Data.{toy}
use gasworks.Tests.Acks.{works, offered, offered-IsSound}

abbrev four : SequenceRange
four = record { first_sequence = 42; last_sequence = 45 }

abbrev answer : IngestAck
answer = record {
  accepted = 3;
  acknowledged_through_sequence = 45;
  duplicates = 1;
  source_id = codes "s1";
}

abbrev answered : Attempt
answered = record { status_code = 200; ack = some answer; error_body = none; retry_after = 0 }

abbrev unavailable : Attempt
unavailable = record { status_code = 503; ack = none; error_body = none; retry_after = 7 }

abbrev third_time : ℕ → Outcome
third_time n =
    if n == 1
    then failed other_error
    else if n == 2
    then attempted unavailable
    else attempted answered

abbrev world : World
world = record { send = third_time; cancelled = λ n delay. false; jitter = λ n half. half / 2 }

abbrev defaults : RetryPolicy
defaults = record { max_attempts = 0; base_delay = 0; max_delay = 0 }

answered-IsValid : IsValid (codes "s1") four answered
unfolding range_len
answered-IsValid = record {
  status = refl;
  answer = answer;
  decoded = refl;
  bound = refl;
  last = refl;
  count = refl;
}

deliver-Delivered_example :
    Delivered toy works world
      (codes "s1")
      four
      offered
      (deliver toy works world defaults (codes "s1") four offered)
deliver-Delivered_example =
    deliver-Delivered toy works world defaults (codes "s1") four offered offered-IsSound refl

deliver_budget_example :
    ((deliver toy works world defaults (codes "s1") four offered).2
      ≤ max_attempts_or_default defaults)
    × ((deliver toy works world defaults (codes "s1") four offered).1 ≡ some retries_exhausted
        → ((deliver toy works world defaults (codes "s1") four offered).2
            ≡ max_attempts_or_default defaults)
          × ((k : ℕ)
              → 1 ≤ k
              → k ≤ max_attempts_or_default defaults
              → (classify (world.send k)).0 ≡ retry_later))
deliver_budget_example = deliver_budget toy works world defaults (codes "s1") four offered

before_third :
    (k : ℕ)
    → 1 ≤ k
    → suc k ≤ 3
    → ((classify (world.send k)).0 ≡ retry_later) × (cancelled_after world defaults k ≡ false)
unfolding classify
before_third zero lo hi = absurd (omega arith)
before_third (suc zero) lo hi = (refl, refl)
before_third (suc (suc zero)) lo hi = (refl, refl)
before_third (suc (suc (suc k))) lo hi = absurd (omega arith)

sidecar_written : (atomic_write_file works (encode_ack toy 45) offered.slot).1 ≡ none
unfolding atomic_write_file
sidecar_written = refl

three_allowed : 3 ≤ max_attempts_or_default defaults
unfolding max_attempts_or_default
three_allowed = omega arith

deliver_reaches_example :
    ((deliver toy works world defaults (codes "s1") four offered).1 ≡ none)
    × ((deliver toy works world defaults (codes "s1") four offered).2 ≡ 3)
deliver_reaches_example =
    deliver_reaches toy works world defaults (codes "s1") four offered 3 answered sidecar_written
      offered-IsSound refl (λ e. cc) answered-IsValid refl (omega arith) three_allowed before_third

jitter-le : (half : ℕ) → half / 2 ≤ half
jitter-le half = omega arith

defaults_small :
    base_delay_or_default defaults * max_delay_or_default defaults ≤ 9223372036854775807
unfolding base_delay_or_default max_delay_or_default
defaults_small = omega arith

backoff_bounds_example :
    (1 ≤ 0 → backoff defaults (λ half. half / 2) 3 0 ≡ 0)
    × (◌≡◌ {A = ℕ} 0 0
        → (min (base_delay_or_default defaults * 2 ^ 2) (max_delay_or_default defaults) / 2
            ≤ backoff defaults (λ half. half / 2) 3 0)
          × (backoff defaults (λ half. half / 2) 3 0
              ≤ min (base_delay_or_default defaults * 2 ^ 2) (max_delay_or_default defaults)))
backoff_bounds_example =
    backoff_bounds defaults (λ half. half / 2) 3 0 (omega arith) (omega arith)
      (omega (arith, defaults_small)) jitter-le (omega arith)
