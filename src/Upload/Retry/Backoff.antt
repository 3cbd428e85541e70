-- ===== src/Upload/Retry/Backoff.antt =====
-- The delays of upload/retry.go.
use Prim.Native.Nat.{min, ◌∣◌}
use native.Mathlib.Nat.{
  pow-suc, dvd-mod_iff, mod-eq-zero_of_dvd, one-le-pow, dvd-mul_left, dvd-mul_right, dvd_refl,
  le_of_dvd, mod-eq_of_lt, dvd_trans,
}
use gasworks.Prelude.{
  ℕ, zero, suc, ◌+◌, ◌-◌, ◌*◌, ◌/◌, ◌^◌, ◌≤◌, ◌<◌, ◌≡◌, ◌⊎◌, inl, inr, sym, ◌∙◌, subst, ◌||◌, arith,
  Bool-cases, ltb, leb, ltb→lt, ◌==◌, ==_iff, if◌then◌else◌,
}
use gasworks.Word.{slt, sle, IsInt64, IsNat63}
use gasworks.Upload.Retry.{
  RetryPolicy, base_delay_or_default, max_delay_or_default, shl64, backoff_step, backoff,
}

pow-dvd-pow : (k j : ℕ) → k ≤ j → (2 ^ k) ∣ (2 ^ j)
pow-dvd-pow k zero h = let e : k ≡ 0 = omega arith in rw e (dvd_refl (2 ^ 0))
pow-dvd-pow k (suc j) h = elim (Bool-cases (k == suc j)) [
  | inl last ↦ let e : k ≡ suc j = (==_iff k (suc j)).0 last in rw e (dvd_refl (2 ^ suc j))
  | inr less ↦
      dvd_trans (2 ^ k) (pow-dvd-pow k j (ground arith))
        (subst (λ t. (2 ^ j) ∣ t) (sym (pow-suc 2 j)) (dvd-mul_right (2 ^ j) 2))
]

bound_below : (b p m : ℕ) → 9223372036854775808 ≤ b * p → b * m < 9223372036854775808 → m < p
bound_below b p m over small = grind arith

product_positive : (b p : ℕ) → 1 ≤ b → 1 ≤ p → 1 ≤ b * p
product_positive b p hb hp = grind arith

-- A shift that runs over the sign bit wraps to zero, or past every bound that the base can be
-- multiplied by.
wrapped_large :
    (b k m : ℕ)
    → 9223372036854775808 ≤ b * 2 ^ k
    → b * m < 9223372036854775808
    → (shl64 b k ≡ 0) ⊎ (m < shl64 b k)
wrapped_large b k m over small = elim (Bool-cases (leb 64 k)) [
  | inl far ↦ inl (
      mod-eq-zero_of_dvd (2 ^ 64)
        (dvd_trans (2 ^ 64) (pow-dvd-pow 64 k (ground arith)) (dvd-mul_left (2 ^ k) b)))
  | inr near ↦ elim (Bool-cases (shl64 b k == 0)) [
    | inl nothing ↦ inl ((==_iff (shl64 b k) 0).0 nothing)
    | inr something ↦
        let divides : (2 ^ k) ∣ shl64 b k =
          (dvd-mod_iff (2 ^ k) (pow-dvd-pow k 64 (ground arith))).1 (dvd-mul_left (2 ^ k) b) in
        let large : 2 ^ k ≤ shl64 b k = le_of_dvd (ground arith) divides in
        inr (grind (arith, large, bound_below b (2 ^ k) m over small))
  ]
]

step_fits :
    (x m : ℕ)
    → 1 ≤ x
    → x < 9223372036854775808
    → 1 ≤ m
    → IsNat63 m
    → (if sle x 0 || slt m x then m else x) ≡ min x m
step_fits x m hx h63 hm hm63 = ground arith

step_wrapped : (y m : ℕ) → m < y → IsInt64 y → IsNat63 m → (if sle y 0 || slt m y then m else y) ≡ m
step_wrapped y m h hy hm = ground arith

min_above : (x m : ℕ) → 9223372036854775808 ≤ x → IsNat63 m → min x m ≡ m
min_above x m h hm = omega arith

-- One step: the base delay doubled for each attempt before this one, capped. An overflow of the shift
-- never shows.
capped :
    (b k m : ℕ)
    → 1 ≤ b
    → 1 ≤ m
    → IsNat63 m
    → b * m < 9223372036854775808
    → (if sle (shl64 b k) 0 || slt m (shl64 b k) then m else shl64 b k) ≡ min (b * 2 ^ k) m
capped b k m hb hm h63 small = elim (Bool-cases (ltb (b * 2 ^ k) 9223372036854775808)) [
  | inl fits ↦
      let same : shl64 b k ≡ b * 2 ^ k = mod-eq_of_lt (ground arith) in
      rw same (
        step_fits (b * 2 ^ k) m (product_positive b (2 ^ k) hb (one-le-pow k 2 (omega arith)))
          (ltb→lt (b * 2 ^ k) 9223372036854775808 fits) hm h63)
  | inr over ↦ elim (wrapped_large b k m (ground arith) small) [
    | inl zero_step ↦ rw zero_step (sym (min_above (b * 2 ^ k) m (ground arith) h63))
    | inr large ↦
        step_wrapped (shl64 b k) m large (omega arith) h63
        ∙ sym (min_above (b * 2 ^ k) m (ground arith) h63)
  ]
]

default_delays :
    (p : RetryPolicy)
    → IsInt64 p.base_delay
    → IsInt64 p.max_delay
    → (1 ≤ base_delay_or_default p)
      × (1 ≤ max_delay_or_default p)
      × IsNat63 (max_delay_or_default p)
unfolding base_delay_or_default max_delay_or_default
default_delays p hb hm = ground arith

backoff_step-eq-min :
    (p : RetryPolicy) (attempt : ℕ)
    → IsInt64 p.base_delay
    → IsInt64 p.max_delay
    → base_delay_or_default p * max_delay_or_default p < 9223372036854775808
    → backoff_step p attempt
      ≡ min (base_delay_or_default p * 2 ^ (attempt - 1)) (max_delay_or_default p)
unfolding backoff_step
backoff_step-eq-min p attempt hb hm small =
    let (base, top, top63) = default_delays p hb hm in
    capped (base_delay_or_default p) (attempt - 1) (max_delay_or_default p) base top top63 small

within :
    (step j retry_after : ℕ)
    → j ≤ step / 2
    → IsNat63 retry_after
    → (1 ≤ retry_after → (if slt 0 retry_after then retry_after else step / 2 + j) ≡ retry_after)
      × (retry_after ≡ 0
          → (step / 2 ≤ (if slt 0 retry_after then retry_after else step / 2 + j))
            × ((if slt 0 retry_after then retry_after else step / 2 + j) ≤ step))
within step j retry_after hj hr = (λ h. ground arith, λ h. (ground arith, ground arith))

-- Of a policy whose delays are int64 and have a product below 2 ^ 63 (as the defaults have), and
-- a jitter that adds no more than what it is given: a positive Retry-After is the delay;
-- otherwise the delay lies between the half and the whole of the base delay doubled for each
-- attempt before this one and capped at the maximal delay, whatever the shift overflows.
pub backoff_bounds :
    (p : RetryPolicy) (jitter : ℕ → ℕ) (attempt retry_after : ℕ)
    → IsInt64 p.base_delay
    → IsInt64 p.max_delay
    → base_delay_or_default p * max_delay_or_default p < 9223372036854775808
    → ((half : ℕ) → jitter half ≤ half)
    → IsNat63 retry_after
    → (1 ≤ retry_after → backoff p jitter attempt retry_after ≡ retry_after)
      × (retry_after ≡ 0
          → (min (base_delay_or_default p * 2 ^ (attempt - 1)) (max_delay_or_default p) / 2
              ≤ backoff p jitter attempt retry_after)
            × (backoff p jitter attempt retry_after
                ≤ min (base_delay_or_default p * 2 ^ (attempt - 1)) (max_delay_or_default p)))
unfolding backoff
backoff_bounds p jitter attempt retry_after hb hm small bounded hr =
    rw (backoff_step-eq-min p attempt hb hm small) (
      within (min (base_delay_or_default p * 2 ^ (attempt - 1)) (max_delay_or_default p)) _
        retry_after (bounded _) hr)
