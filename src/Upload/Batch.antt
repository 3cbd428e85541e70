-- ===== src/Upload/Batch.antt =====
-- upload/batch.go: the planner of batches over the acknowledgement state. The store's `ReadRange` and
-- the encoder of a body are parameters.
pub mod Contiguous
pub mod Plans
use gasworks.Prelude.{
  ℕ, zero, suc, ◌+◌, ◌-◌, ◌*◌, ◌/◌, ◌%◌, Bool, true, false, not, ◌&&◌, ◌||◌, List, [], ◌∷◌, Option,
  none, some, Result, ok, err, if◌then◌else◌, ◌==◌, ltb, leb, length, take, drop,
}
use gasworks.Word.{slt, sle, add64, sub64}
use gasworks.Spool.Ack.{AckState, SequenceRange, AckError, set_in_flight}
use gasworks.Upload.Retry.{Text}

abbrev pub default_max_observations : ℕ
default_max_observations = 1000

-- 4 << 20
abbrev pub default_max_batch_bytes : ℕ
default_max_batch_bytes = 4194304

-- Two int64.
pub record Caps : Type 0 where
  pub max_observations : ℕ
  pub max_batch_bytes : ℕ

-- `v > 0 && v < cap`
lower : ℕ → ℕ → ℕ
lower v cap = if slt 0 v && slt v cap then v else cap

unfoldable pub caps_from_capabilities : ℕ → ℕ → Caps
unfolding lower
caps_from_capabilities max_observations max_batch_bytes = record {
  max_observations = lower max_observations default_max_observations;
  max_batch_bytes = lower max_batch_bytes default_max_batch_bytes;
}

unfoldable pub resolve : Caps → Caps
resolve c = record {
  max_observations =
      if sle c.max_observations 0 then default_max_observations else c.max_observations;
  max_batch_bytes = if sle c.max_batch_bytes 0 then default_max_batch_bytes else c.max_batch_bytes;
}

pub record Record : Type 0 where
  pub sequence : ℕ
  pub payload : List ℕ

pub record Plan : Type 0 where
  pub range : SequenceRange
  pub body : List ℕ

-- `verifyContiguous`: the records are want, want + 1, ...
unfoldable pub verify_contiguous : List Record → ℕ → Bool
verify_contiguous [] want = true
verify_contiguous (r ∷ rs) want =
    let rest = verify_contiguous rs (add64 want 1) in if r.sequence == want then rest else false

-- The decimal digits of a number below 10 ^ fuel.
unfoldable pub digits : ℕ → ℕ → ℕ
digits zero n = 1
digits (suc fuel) n = let more = digits fuel (n / 10) in if ltb n 10 then 1 else 1 + more

-- len(strconv.FormatInt(n, 10))
unfoldable pub format_int_len : ℕ → ℕ
format_int_len n = if slt n 0 then 1 + digits 20 (sub64 0 n) else digits 20 n

-- A continuation byte, within the bounds that the first byte sets.
is_between : ℕ → ℕ → Text → Bool
is_between lo hi [] = false
is_between lo hi (b ∷ s) = leb lo b && leb b hi

-- The bytes of the rune in front, as `range` over a string decodes it; 0 if it is not valid UTF-8.
unfoldable pub rune_len : Text → ℕ
unfolding is_between
rune_len [] = 0
rune_len (b ∷ s) =
    let second =
      if b == 224
      then is_between 160 191 s
      else if b == 237
      then is_between 128 159 s
      else if b == 240
      then is_between 144 191 s
      else if b == 244
      then is_between 128 143 s
      else is_between 128 191 s in
    let third = is_between 128 191 (drop 1 s) in
    let fourth = is_between 128 191 (drop 2 s) in
    if ltb b 128
    then 1
    else if leb 194 b && leb b 223 && second
    then 2
    else if leb 224 b && leb b 239 && second && third
    then 3
    else if leb 240 b && leb b 244 && second && third && fourth
    then 4
    else 0

-- The switch of jsonStringLen on a rune below 0x80.
unfoldable pub escaped_len : ℕ → ℕ
escaped_len r =
    if r == 34 || r == 92 || r == 10 || r == 13 || r == 9 || r == 8 || r == 12
    then 2
    else if ltb r 32
    then 6
    else 1

-- The loop, with `skip` bytes left of the rune in front. A byte that is not valid UTF-8 is the
-- replacement rune, of three bytes.
unfoldable pub runes_len : ℕ → Text → ℕ
unfolding rune_len escaped_len
runes_len skip [] = 0
runes_len (suc skip) (b ∷ s) = runes_len skip s
runes_len zero (b ∷ s) =
    let size = rune_len (b ∷ s) in
    let rest = runes_len (size - 1) s in
    if ltb b 128 then escaped_len b + rest else if size == 0 then 3 + rest else size + rest

unfoldable pub json_string_len : Text → ℕ
unfolding runes_len
json_string_len s = 2 + runes_len 0 s

unfoldable pub payload_bytes : List Record → ℕ
payload_bytes [] = 0
payload_bytes (r ∷ []) = length r.payload
payload_bytes (r ∷ s ∷ rs) = length r.payload + 1 + payload_bytes (s ∷ rs)

unfoldable pub body_byte_len : Text → ℕ → ℕ → List Record → ℕ
body_byte_len source first last records =
    (88
      + format_int_len first
      + format_int_len last
      + (json_string_len source - 2)
      + payload_bytes records)
    % 18446744073709551616

-- The loop of byteBudgetCut with `n` records taken, over those behind them.
unfoldable pub cut_loop : Text → List Record → ℕ → ℕ → ℕ → List Record → ℕ
cut_loop source records limit first n [] = n
cut_loop source records limit first n (r ∷ rest) =
    let more = cut_loop source records limit first (n + 1) rest in
    if slt limit (body_byte_len source first r.sequence (take (n + 1) records)) then n else more

unfoldable pub byte_budget_cut : Text → List Record → ℕ → ℕ
unfolding cut_loop
byte_budget_cut source [] limit = 1
byte_budget_cut source (r ∷ rs) limit = cut_loop source (r ∷ rs) limit r.sequence 1 rs

-- records[len(records)-1].Sequence
unfoldable pub last_sequence_of : List Record → ℕ → ℕ
last_sequence_of [] d = d
last_sequence_of (r ∷ rs) d = last_sequence_of rs r.sequence

pub data PlanError : Type 0 where
  read_range_failed no_frame not_contiguous wrong_count encode_failed : PlanError
  set_in_flight_failed : AckError → PlanError

-- `tentativeLast`
unfoldable pub tentative_last : Caps → ℕ → ℕ → ℕ
tentative_last caps first highest =
    let last = sub64 (add64 first caps.max_observations) 1 in
    if slt highest last then highest else last

-- A read of the store, and the encoding of a body; none is an error.
module _ (read_range : ℕ → ℕ → Option (List Record))
    (encode_batch_body : Text → SequenceRange → List Record → Option (List ℕ)) where
  unfoldable pub planned : Text → SequenceRange → List Record → Result PlanError (Option Plan)
  planned source r records = elim (encode_batch_body source r records) [
    | none ↦ err encode_failed
    | some body ↦ ok (some (record { range = r; body = body }))
  ]

  -- `encodeRange`, with the plan that Next makes of its body
  unfoldable pub encode_range : Text → SequenceRange → Result PlanError (Option Plan)
  encode_range source r = elim (read_range r.first_sequence r.last_sequence) [
    | none ↦ err read_range_failed
    | some records ↦
        if not (verify_contiguous records r.first_sequence)
        then err not_contiguous
        else if not (length records == add64 (sub64 r.last_sequence r.first_sequence) 1)
        then err wrong_count
        else planned source r records
  ]

  -- The range is recorded as in flight before its body is encoded.
  unfoldable pub offer_range :
      Text → AckState → SequenceRange → List Record → AckState × Result PlanError (Option Plan)
  offer_range source a r records = elim (set_in_flight a r).1 [
    | some e ↦ (a, err (set_in_flight_failed e))
    | none ↦ ((set_in_flight a r).0, planned source r records)
  ]

  -- The new range, from the records that were read for it.
  unfoldable pub form :
      Text → Caps → AckState → ℕ → List Record → AckState × Result PlanError (Option Plan)
  form source caps a first [] = (a, err no_frame)
  form source caps a first (x ∷ xs) =
      if not (verify_contiguous (x ∷ xs) first)
      then (a, err not_contiguous)
      else let records = take (byte_budget_cut source (x ∷ xs) caps.max_batch_bytes) (x ∷ xs) in
        let r : SequenceRange = record {
          first_sequence = first;
          last_sequence = last_sequence_of records first;
        } in
        offer_range source a r records

  unfoldable pub next : Text → Caps → AckState → AckState × Result PlanError (Option Plan)
  unfolding tentative_last
  next source caps a = elim a.in_flight [
    | some r ↦ (a, encode_range source r)
    | none ↦
        let first = add64 a.acknowledged_through 1 in
        if slt a.highest_durable first
        then (a, ok none)
        else elim (read_range first (tentative_last (resolve caps) first a.highest_durable)) [
          | none ↦ (a, err read_range_failed)
          | some records ↦ form source (resolve caps) a first records
        ]
  ]
