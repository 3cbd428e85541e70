-- ===== src/Upload/Batch/Plans.antt =====
-- What the planner hands out, and that it hands it out again.
use gasworks.Prelude.{
  ℕ, ◌+◌, ◌-◌, ◌≤◌, ◌≡◌, inl, inr, refl, sym, ap, ◌∙◌, subst, true, List, [], ◌∷◌, Option, none,
  some, ok, ◌==◌, ==_iff, Bool-cases, Option-cases, length, take, length-take, arith,
}
use gasworks.Word.{slt, add64, sub64, max_int64, IsInt64}
use gasworks.Spool.Checks.{Checks}
use gasworks.Spool.Ack.{AckState, SequenceRange, set_in_flight}
use gasworks.Spool.Ack.Invariant.{IsSound, set_in_flight-IsSound}
use gasworks.Upload.Retry.{Text}
use gasworks.Upload.Batch.{
  Caps, resolve, Record, Plan, verify_contiguous, last_sequence_of, byte_budget_cut, planned,
  offer_range, encode_range, form, tentative_last, next,
}
use gasworks.Upload.Batch.Contiguous.{
  verify_contiguous-take, last_sequence_of-IsInt64, last_sequence_of-contiguous,
  byte_budget_cut_bounds,
}

-- What the planner relies on of `ReadRange`: records in a row from `first` on do not run past
-- `last`, and a read up to an earlier sequence gives the first of them.
pub record IsStore (read_range : ℕ → ℕ → Option (List Record)) : Type 0 where
  pub within :
      (first last : ℕ) (rs : List Record)
      → IsInt64 first
      → last ≤ max_int64
      → read_range first last ≡ some rs
      → verify_contiguous rs first ≡ true
      → first + length rs ≤ last + 1
  pub narrower :
      (first mid last : ℕ) (rs : List Record)
      → first ≤ mid
      → mid ≤ last
      → last ≤ max_int64
      → read_range first last ≡ some rs
      → verify_contiguous rs first ≡ true
      → read_range first mid ≡ some (take (mid + 1 - first) rs)

-- An accepted range.
set_in_flight-accepted :
    (c : Checks) (a : AckState) (r : SequenceRange)
    → IsSound c a
    → IsInt64 r.first_sequence
    → IsInt64 r.last_sequence
    → (set_in_flight a r).1 ≡ none
    → (r.first_sequence ≡ a.acknowledged_through + 1)
      × (r.first_sequence ≤ r.last_sequence)
      × (r.last_sequence ≤ a.highest_durable)
      × ((set_in_flight a r).0.in_flight ≡ some r)
      × ((set_in_flight a r).0.acknowledged_through ≡ a.acknowledged_through)
unfolding set_in_flight
set_in_flight-accepted c a r h hf hl ok_range = ground (arith, h.ceiling, h.int64)

tentative_last_bounds :
    (caps : Caps) (first highest : ℕ)
    → first ≤ highest
    → highest + caps.max_observations ≤ max_int64
    → 1 ≤ caps.max_observations
    → (tentative_last caps first highest ≤ highest)
      × (tentative_last caps first highest + 1 ≤ first + caps.max_observations)
unfolding tentative_last
tentative_last_bounds caps first highest hf fits hm = ground arith

module _ (read_range : ℕ → ℕ → Option (List Record))
    (encode : Text → SequenceRange → List Record → Option (List ℕ)) where
  planned_inv :
      (source : Text) (r : SequenceRange) (rs : List Record) (plan : Plan)
      → planned read_range encode source r rs ≡ ok (some plan)
      → (plan.range ≡ r) × (encode source r rs ≡ some plan.body)
  unfolding planned
  planned_inv source r rs plan h = ground arith

  -- How a new plan was formed.
  record Formed (source : Text) (caps : Caps) (a a' : AckState) (first : ℕ) (all : List Record)
      (plan : Plan) : Type 0 where
    count : ℕ
    positive : 1 ≤ count
    enough : count ≤ length all
    contiguous : verify_contiguous all first ≡ true
    range :
        plan.range
        ≡ record { first_sequence = first; last_sequence = last_sequence_of (take count all) first }
    accepted : (set_in_flight a plan.range).1 ≡ none
    state : a' ≡ (set_in_flight a plan.range).0
    body : encode source plan.range (take count all) ≡ some plan.body

  offer_range_inv :
      (source : Text) (a a' : AckState) (r : SequenceRange) (rs : List Record) (plan : Plan)
      → offer_range read_range encode source a r rs ≡ (a', ok (some plan))
      → ((set_in_flight a r).1 ≡ none)
        × (a' ≡ (set_in_flight a r).0)
        × (plan.range ≡ r)
        × (encode source r rs ≡ some plan.body)
  unfolding offer_range
  offer_range_inv source a a' r rs plan h = elim (Option-cases (set_in_flight a r).1) [
    | inr (e, refused) ↦ cc (rw (refused, offer_range) at h)
    | inl accepted ↦
        let h' = rw (accepted, offer_range) at h in
        let (range, body) = planned_inv source r rs plan (ap (λ t. t.1) h') in
        (accepted, sym (ap (λ t. t.0) h'), range, body)
  ]

  form-Formed :
      (source : Text) (caps : Caps) (a a' : AckState) (first : ℕ) (all : List Record) (plan : Plan)
      → form read_range encode source caps a first all ≡ (a', ok (some plan))
      → Formed source caps a a' first all plan
  unfolding form
  form-Formed source caps a a' first [] plan h = cc
  form-Formed source caps a a' first (x ∷ xs) plan h =
      elim (Bool-cases (verify_contiguous (x ∷ xs) first)) [
        | inr gap ↦ cc (rw gap at h)
        | inl row ↦
            let count = byte_budget_cut source (x ∷ xs) caps.max_batch_bytes in
            let r : SequenceRange = record {
              first_sequence = first;
              last_sequence = last_sequence_of (take count (x ∷ xs)) first;
            } in
            let (accepted, state, range, body) =
              offer_range_inv source a a' r (take count (x ∷ xs)) plan (rw row at h) in
            let bounds = byte_budget_cut_bounds source x xs caps.max_batch_bytes in
            record {
              count = count;
              positive = bounds.0;
              enough = bounds.1;
              contiguous = row;
              range = range;
              accepted = rw range accepted;
              state = rw range state;
              body = rw range body;
            }
      ]

  next_inv :
      (source : Text) (caps : Caps) (a a' : AckState) (plan : Plan)
      → a.in_flight ≡ none
      → next read_range encode source caps a ≡ (a', ok (some plan))
      → (all : List Record) × (read_range
            (add64 a.acknowledged_through 1)
            (tentative_last (resolve caps) (add64 a.acknowledged_through 1) a.highest_durable)
          ≡ some all)
        × Formed source (resolve caps) a a' (add64 a.acknowledged_through 1) all plan
  unfolding next
  next_inv source caps a a' plan idle h =
      let first = add64 a.acknowledged_through 1 in
      let h1 = rw (idle, next) at h in
      elim (Bool-cases (slt a.highest_durable first)) [
        | inl nothing ↦ cc (rw nothing at h1)
        | inr owed ↦
            elim (Option-cases
              (read_range first (tentative_last (resolve caps) first a.highest_durable))) [
                | inl failed ↦ cc (rw (owed, failed) at h1)
                | inr (all, found) ↦ (
                  all,
                  found,
                  form-Formed source (resolve caps) a a' first all plan (rw (owed, found) at h1),
                )
              ]
      ]

  -- What is known of a new plan and of the records that it was cut from.
  record Cut (caps : Caps) (a a' : AckState) (all : List Record) (count : ℕ) (plan : Plan)
      : Type 0 where
    first : plan.range.first_sequence ≡ a.acknowledged_through + 1
    last : plan.range.last_sequence + 1 ≡ plan.range.first_sequence + count
    counted : length (take count all) ≡ count
    few : count ≤ (resolve caps).max_observations
    top : plan.range.last_sequence ≤ a.highest_durable
    covered :
        plan.range.last_sequence
        ≤ tentative_last (resolve caps) (add64 a.acknowledged_through 1) a.highest_durable
    asked :
        tentative_last (resolve caps) (add64 a.acknowledged_through 1) a.highest_durable ≤ max_int64
    out : a'.in_flight ≡ some plan.range
    kept : a'.acknowledged_through ≡ a.acknowledged_through

  Formed-Cut :
      (c : Checks) (source : Text) (caps : Caps) (a a' : AckState) (all : List Record) (plan : Plan)
      → IsSound c a
      → IsStore read_range
      → 1 ≤ (resolve caps).max_observations
      → a.highest_durable + (resolve caps).max_observations ≤ max_int64
      → read_range
          (add64 a.acknowledged_through 1)
          (tentative_last (resolve caps) (add64 a.acknowledged_through 1) a.highest_durable)
        ≡ some all
      → (f : Formed source (resolve caps) a a' (add64 a.acknowledged_through 1) all plan)
      → Cut caps a a' all f.count plan
  Formed-Cut c source caps a a' all plan h st hm fits found f =
      let first = add64 a.acknowledged_through 1 in
      let begins : plan.range.first_sequence ≡ first = ap (λ r. r.first_sequence) f.range in
      let ends : plan.range.last_sequence ≡ last_sequence_of (take f.count all) first =
        ap (λ r. r.last_sequence) f.range in
      let row = verify_contiguous-take f.count all first f.contiguous in
      let int64 =
        last_sequence_of-IsInt64 (take f.count all) first first (omega arith) (omega arith) row in
      let (begun, ordered, top, out, kept) =
        set_in_flight-accepted c a plan.range h (omega arith) (omega arith) f.accepted in
      let bounds =
        tentative_last_bounds (resolve caps) first a.highest_durable (omega arith) fits hm in
      let room =
        st.within first _ all (omega arith) (omega (arith, bounds.0, h.int64)) found f.contiguous in
      let counted : length (take f.count all) ≡ f.count =
        omega (arith, length-take f.count all, f.enough) in
      let last =
        last_sequence_of-contiguous (take f.count all) first first (omega (arith, f.positive))
          (omega (arith, bounds.0, f.enough, h.int64)) row in
      record {
        first = begun;
        last = omega (arith, last);
        counted = counted;
        few = omega (arith, bounds.1, f.enough);
        top = top;
        covered = omega (arith, last, f.enough, room);
        asked = omega (arith, bounds.0, h.int64);
        out = ap (λ t. t.in_flight) f.state ∙ out;
        kept = ap (λ t. t.acknowledged_through) f.state ∙ kept;
      }

  next-in_flight :
      (source : Text) (caps : Caps) (a : AckState) (r : SequenceRange)
      → a.in_flight ≡ some r
      → next read_range encode source caps a ≡ (a, encode_range read_range encode source r)
  unfolding next
  next-in_flight source caps a r out = ground (arith, out)

  encode_range-again :
      (source : Text) (plan : Plan) (rs : List Record)
      → read_range plan.range.first_sequence plan.range.last_sequence ≡ some rs
      → verify_contiguous rs plan.range.first_sequence ≡ true
      → plan.range.first_sequence + length rs ≡ plan.range.last_sequence + 1
      → plan.range.last_sequence ≤ max_int64
      → 1 ≤ plan.range.first_sequence
      → encode source plan.range rs ≡ some plan.body
      → encode_range read_range encode source plan.range ≡ ok (some plan)
  unfolding encode_range planned
  encode_range-again source plan rs read row count top pos body =
      let whole : (length rs == add64 (sub64 plan.range.last_sequence plan.range.first_sequence) 1)
          ≡ true =
        (==_iff (length rs) (add64 (sub64 plan.range.last_sequence plan.range.first_sequence) 1)).1
          (omega arith) in
      rw (read, encode_range) (rw (row, whole) (rw (body, planned) refl))

  module _ (c : Checks) (source : Text) (caps : Caps) (a a' : AckState) (plan : Plan)
      (sound : IsSound c a) (idle : a.in_flight ≡ none) (store : IsStore read_range)
      (some_allowed : 1 ≤ (resolve caps).max_observations)
      (fits : a.highest_durable + (resolve caps).max_observations ≤ max_int64)
      (found : next read_range encode source caps a ≡ (a', ok (some plan))) where
    -- The records of a new batch, as the store gives them again.
    read_again :
        (all : List Record)
        → read_range
            (add64 a.acknowledged_through 1)
            (tentative_last (resolve caps) (add64 a.acknowledged_through 1) a.highest_durable)
          ≡ some all
        → (f : Formed source (resolve caps) a a' (add64 a.acknowledged_through 1) all plan)
        → read_range plan.range.first_sequence plan.range.last_sequence ≡ some (take f.count all)
    read_again all read f =
        let cut = Formed-Cut c source caps a a' all plan sound store some_allowed fits read f in
        let begins : add64 a.acknowledged_through 1 ≡ plan.range.first_sequence =
          sym (ap (λ r. r.first_sequence) f.range) in
        subst (λ k. read_range k plan.range.last_sequence ≡ some (take f.count all)) begins
          (store.narrower _ plan.range.last_sequence _ all
              (omega (arith, cut.last, f.positive, begins)) cut.covered cut.asked read f.contiguous
            ∙ ap (λ k. some (take k all)) (omega (arith, cut.last, begins)))

    -- What a new batch is.
    pub next_plans :
        IsSound c a'
        × (a'.in_flight ≡ some plan.range)
        × (a'.acknowledged_through ≡ a.acknowledged_through)
        × (plan.range.first_sequence ≡ a.acknowledged_through + 1)
        × (plan.range.last_sequence ≤ a.highest_durable)
        × (rs : List Record) × (verify_contiguous rs plan.range.first_sequence ≡ true)
        × (1 ≤ length rs)
        × (length rs ≤ (resolve caps).max_observations)
        × (plan.range.last_sequence + 1 ≡ plan.range.first_sequence + length rs)
        × (encode source plan.range rs ≡ some plan.body)
        × (read_range plan.range.first_sequence plan.range.last_sequence ≡ some rs)
    next_plans =
        let (all, read, f) = next_inv source caps a a' plan idle found in
        let cut = Formed-Cut c source caps a a' all plan sound store some_allowed fits read f in
        let first64 : IsInt64 plan.range.first_sequence =
          omega (arith, cut.first, sound.ceiling, sound.int64) in
        let last64 : IsInt64 plan.range.last_sequence = omega (arith, cut.top, sound.int64) in
        (
          subst (IsSound c) (sym f.state)
              (set_in_flight-IsSound c a plan.range first64 last64 sound),
          cut.out,
          cut.kept,
          cut.first,
          cut.top,
          take f.count all,
          subst (λ k. verify_contiguous (take f.count all) k ≡ true)
              (sym (ap (λ r. r.first_sequence) f.range))
              (verify_contiguous-take f.count all _ f.contiguous),
          omega (arith, cut.counted, f.positive),
          omega (arith, cut.counted, cut.few),
          omega (arith, cut.counted, cut.last),
          f.body,
          read_again all read f,
        )

    -- It is handed out again.
    pub next_replays :
        (caps' : Caps) → next read_range encode source caps' a' ≡ (a', ok (some plan))
    next_replays caps' =
        let (all, read, f) = next_inv source caps a a' plan idle found in
        let cut = Formed-Cut c source caps a a' all plan sound store some_allowed fits read f in
        let begins : add64 a.acknowledged_through 1 ≡ plan.range.first_sequence =
          sym (ap (λ r. r.first_sequence) f.range) in
        let again = read_again all read f in
        next-in_flight source caps' a' plan.range cut.out
        ∙ ap (λ x. (a', x))
            (encode_range-again source plan (take f.count all) again
              (subst (λ k. verify_contiguous (take f.count all) k ≡ true) begins
                (verify_contiguous-take f.count all _ f.contiguous))
              (omega (arith, cut.counted, cut.last)) (omega (arith, cut.top, sound.int64))
              (omega (arith, cut.first)) f.body)
