-- ===== src/Upload/Retry/Classify.antt =====
-- What `Classify` of upload/retry.go says of an attempt.
use gasworks.Prelude.{some, ◌≡◌, ◌⊎◌, refl, inl, inr, arith, Option-cases}
use gasworks.Upload.Retry.{
  Attempt, Outcome, failed, no_attempt, attempted, Disposition, success, retry_later, hold,
  classify, OperatorError, unsupported_content_encoding, source_mismatch, other_error,
}

pub Disposition-cases : (d : Disposition) → (d ≡ success) ⊎ (d ≡ hold) ⊎ (d ≡ retry_later)
Disposition-cases success = inl refl
Disposition-cases hold = inr (inl refl)
Disposition-cases retry_later = inr (inr refl)

pub classify-success :
    (o : Outcome)
    → (classify o).0 ≡ success
    → (att : Attempt) × (o ≡ attempted att) × (att.status_code ≡ 200)
unfolding classify
classify-success (failed unsupported_content_encoding) h = cc
classify-success (failed source_mismatch) h = cc
classify-success (failed other_error) h = cc
classify-success no_attempt h = cc
classify-success (attempted att) h = (att, refl, ground arith)

pub classify-hold :
    (o : Outcome) → (classify o).0 ≡ hold → (x : OperatorError) × ((classify o).1 ≡ some x)
unfolding classify
classify-hold (failed unsupported_content_encoding) h = (_, refl)
classify-hold (failed source_mismatch) h = (_, refl)
classify-hold (failed other_error) h = cc
classify-hold no_attempt h = cc
classify-hold (attempted att) h = elim (Option-cases (classify (attempted att)).1) [
  | inl nothing ↦ absurd (ground arith)
  | inr (x, some_error) ↦ (x, some_error)
]

pub classify-ok : (att : Attempt) → att.status_code ≡ 200 → (classify (attempted att)).0 ≡ success
unfolding classify
classify-ok att h = ground arith
