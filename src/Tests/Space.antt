-- ===== src/Tests/Space.antt =====
-- Compaction and capacity.
use gasworks.Prelude.{◌≡◌, refl, Bool, true, false, [], ◌∷◌, some, none, arith}
use gasworks.Spool.Compact.{SegFile, named, compact, first_sequences}
use gasworks.Spool.Compact.Prefix.{IsCompacted, compact-IsCompacted}
use gasworks.Spool.Capacity.{CapacityModel, IsModel, evaluate, evaluate_admits}

-- "1.seg", "5.seg" and "9.seg"
abbrev seg_one : SegFile
seg_one = record { name = 49 ∷ 46 ∷ 115 ∷ 101 ∷ 103 ∷ []; size = some 100; first = 1 }

abbrev seg_five : SegFile
seg_five = record { name = 53 ∷ 46 ∷ 115 ∷ 101 ∷ 103 ∷ []; size = some 100; first = 5 }

abbrev seg_nine : SegFile
seg_nine = record { name = 57 ∷ 46 ∷ 115 ∷ 101 ∷ 103 ∷ []; size = none; first = 9 }

abbrev never : SegFile → Bool
never x = false

three_parsed :
    first_sequences (named (seg_one ∷ seg_five ∷ seg_nine ∷ []))
    ≡ some (seg_one ∷ seg_five ∷ seg_nine ∷ [])
unfolding first_sequences
three_parsed = refl

compact-IsCompacted_example :
    IsCompacted 6 []
      (seg_one ∷ seg_five ∷ seg_nine ∷ [])
      (compact never never 6 (named (seg_one ∷ seg_five ∷ seg_nine ∷ []))).1
      (compact never never 6 (named (seg_one ∷ seg_five ∷ seg_nine ∷ []))).0
compact-IsCompacted_example =
    compact-IsCompacted never never 6 seg_one (seg_five ∷ seg_nine ∷ []) (omega arith)
      ((omega arith, omega arith), ((omega arith, omega arith), ((omega arith, omega arith), tt)))
      three_parsed

abbrev small_model : CapacityModel
small_model = record {
  cfg = record {
    ceiling_bytes = 1000;
    terminal_reserve_bytes = 50;
    max_segment_bytes = 200;
    scratch_bytes = 100;
  };
  hard_floor = 700;
  soft_threshold = 525;
}

small_model-IsModel : IsModel small_model
small_model-IsModel = record { floor = refl; soft = omega arith; int64 = omega arith }

evaluate_admits_example :
    ((evaluate small_model 500 100).admit_new_explicit_run ≡ true)
    × ((evaluate small_model 500 100).admit_passive_capture ≡ false)
evaluate_admits_example = evaluate_admits small_model 500 100 small_model-IsModel (omega arith)
