-- ===== src/Upload/Batch/Contiguous.antt =====
-- Runs of records with consecutive sequences, and how many of them a budget takes.
use gasworks.Prelude.{
  ℕ, zero, suc, ◌+◌, ◌≤◌, ◌<◌, ◌≡◌, inl, inr, refl, true, List, [], ◌∷◌, Bool-cases, length, take,
  arith,
}
use gasworks.Word.{slt, add64, max_int64}
use gasworks.Upload.Retry.{Text}
use gasworks.Upload.Batch.{
  Record, verify_contiguous, last_sequence_of, body_byte_len, cut_loop, byte_budget_cut,
}

pub verify_contiguous-take :
    (n : ℕ) (rs : List Record) (want : ℕ)
    → verify_contiguous rs want ≡ true
    → verify_contiguous (take n rs) want ≡ true
unfolding verify_contiguous
verify_contiguous-take zero rs want h = refl
verify_contiguous-take (suc n) [] want h = refl
verify_contiguous-take (suc n) (r ∷ rs) want h =
    ground (arith, verify_contiguous-take n rs (add64 want 1))

-- The last of them, below the end of int64.
pub last_sequence_of-contiguous :
    (rs : List Record) (want d : ℕ)
    → 1 ≤ length rs
    → want + length rs ≤ max_int64 + 1
    → verify_contiguous rs want ≡ true
    → last_sequence_of rs d + 1 ≡ want + length rs
unfolding verify_contiguous last_sequence_of
last_sequence_of-contiguous [] want d hl fits h = absurd (omega arith)
last_sequence_of-contiguous (r ∷ []) want d hl fits h = ground arith
last_sequence_of-contiguous (r ∷ s ∷ rs) want d hl fits h =
    ground (arith, last_sequence_of-contiguous (s ∷ rs) (add64 want 1) r.sequence)

cut_loop_bounds :
    (source : Text) (records : List Record) (limit first n : ℕ) (rest : List Record)
    → (n ≤ cut_loop source records limit first n rest)
      × (cut_loop source records limit first n rest ≤ n + length rest)
unfolding cut_loop
cut_loop_bounds source records limit first n [] = (omega arith, omega arith)
cut_loop_bounds source records limit first n (r ∷ rest) =
    let ih = cut_loop_bounds source records limit first (n + 1) rest in
    elim (Bool-cases (slt limit (body_byte_len source first r.sequence (take (n + 1) records)))) [
      | inl over ↦ rw over (omega arith, omega arith)
      | inr fits ↦ rw fits (omega (arith, ih.0), omega (arith, ih.1))
    ]

pub byte_budget_cut_bounds :
    (source : Text) (r : Record) (rs : List Record) (limit : ℕ)
    → (1 ≤ byte_budget_cut source (r ∷ rs) limit)
      × (byte_budget_cut source (r ∷ rs) limit ≤ length (r ∷ rs))
unfolding byte_budget_cut
byte_budget_cut_bounds source r rs limit =
    let b = cut_loop_bounds source (r ∷ rs) limit r.sequence 1 rs in
    (omega (arith, b.0), omega (arith, b.1))

pub last_sequence_of-IsInt64 :
    (rs : List Record) (want d : ℕ)
    → want < 18446744073709551616
    → d < 18446744073709551616
    → verify_contiguous rs want ≡ true
    → last_sequence_of rs d < 18446744073709551616
unfolding verify_contiguous last_sequence_of
last_sequence_of-IsInt64 [] want d hw hd h = hd
last_sequence_of-IsInt64 (r ∷ rs) want d hw hd h =
    let here : r.sequence ≡ want = ground arith in
    last_sequence_of-IsInt64 rs (add64 want 1) r.sequence (omega arith) (omega arith) (ground arith)
