-- ===== src/Daemon/Fence/Withheld.antt =====
-- What an application of a policy adds to the withheld set.
use gasworks.Prelude.{
  ℕ, ◌≤◌, ◌<◌, ◌≡◌, inl, inr, refl, sym, ◌∙◌, Bool, true, false, ◌||◌, List, [], ◌∷◌, if◌then◌else◌,
  arith, Bool-cases,
}
use gasworks.Word.{max_int64, slt, sle, add64}
use gasworks.Daemon.Consent.{Policy}
use gasworks.Daemon.Fence.Ranges.{SeqRange, smax, add, contains, Ascending}
use gasworks.Daemon.Fence.Ranges.Sets.{within, add-Ascending, contains-add}
use gasworks.Daemon.Fence.Ranges.Count.{add_none_new}
use gasworks.Daemon.Fence.Origins.{OriginRun, allowed_by, IsBounded}
use gasworks.Daemon.Fence.{withhold_runs}

-- Ascending ranges that hold nothing above `top`.
pub record IsSeqSet (top : ℕ) (s : List SeqRange) : Type 0 where
  pub ascending : Ascending 0 s
  pub below : (q : ℕ) → top < q → q < max_int64 → contains s q ≡ false

-- The second set holds what the first does, and above `attempted` perhaps more; with `changed` false
-- they are the same.
pub record Grows (attempted : ℕ) (s s' : List SeqRange) (changed : Bool) : Type 0 where
  pub keeps : (q : ℕ) → q < max_int64 → contains s q ≡ true → contains s' q ≡ true
  pub fixed : (q : ℕ) → q ≤ attempted → contains s' q ≡ contains s q
  pub same : changed ≡ false → (q : ℕ) → q < max_int64 → contains s' q ≡ contains s q

pub Grows-refl : (attempted : ℕ) (s : List SeqRange) (b : Bool) → Grows attempted s s b
Grows-refl attempted s b = record { keeps = λ q h c. c; fixed = λ q h. refl; same = λ h q k. refl }

module _ (attempted top : ℕ) (ha : attempted ≤ top) (small : top < max_int64) where
  pub add-IsSeqSet :
      (s : List SeqRange) (first last : ℕ)
      → 0 < first
      → first < max_int64
      → last ≤ top
      → IsSeqSet top s
      → IsSeqSet top (add s first last).0
  add-IsSeqSet s first last hf hx hl i = record {
    ascending = add-Ascending s first last hf hx (omega arith) i.ascending;
    below = λ q h k.
        contains-add s first last q hf hx (omega arith) k i.ascending
        ∙ ground (arith, i.below q h k);
  }

  pub add-Grows :
      (s : List SeqRange) (first last : ℕ)
      → attempted < first
      → first < max_int64
      → last ≤ top
      → IsSeqSet top s
      → Grows attempted s (add s first last).0 (slt 0 (add s first last).1)
  add-Grows s first last hf hx hl i =
      let on = λ (q : ℕ) (k : q < max_int64).
        contains-add s first last q (omega arith) hx (omega arith) k i.ascending in
      record {
        keeps = λ q k c. ground (arith, on q k);
        fixed = λ q h. ground (arith, on q (omega arith));
        same = λ none_new q k. elim (Bool-cases (within first last q)) [
          | inl here ↦
              on q k
              ∙ rw here (
                  sym (
                    add_none_new s first last q (omega arith) hx (omega arith) i.ascending here
                      none_new))
          | inr out ↦ on q k ∙ rw out refl
        ];
      }

  -- One run, withheld or skipped.
  module _ (pol : Policy) (r : OriginRun) (s : List SeqRange) (b : Bool) where
    abbrev skipped : Bool
    skipped = sle r.last attempted || allowed_by r.origin pol

    abbrev next_set : List SeqRange
    next_set = if skipped then s else (add s (smax r.first (add64 attempted 1)) r.last).0

    abbrev next_flag : Bool
    next_flag =
        if skipped then b else b || slt 0 (add s (smax r.first (add64 attempted 1)) r.last).1

    next_set-IsSeqSet : IsBounded top (r ∷ []) → IsSeqSet top s → IsSeqSet top next_set
    next_set-IsSeqSet bd i = elim (Bool-cases skipped) [
      | inl e ↦ rw e i
      | inr e ↦ rw e (
          add-IsSeqSet s (smax r.first (add64 attempted 1)) r.last (ground (arith, bd.0))
            (ground (arith, bd.0)) bd.0.2 i)
    ]

    next_set-Grows : IsBounded top (r ∷ []) → IsSeqSet top s → Grows attempted s next_set next_flag
    next_set-Grows bd i = elim (Bool-cases skipped) [
      | inl e ↦ rw e (Grows-refl attempted s b)
      | inr e ↦
          let g =
            add-Grows s (smax r.first (add64 attempted 1)) r.last (ground (arith, bd.0))
              (ground (arith, bd.0)) bd.0.2 i in
          rw e (record { keeps = g.keeps; fixed = g.fixed; same = λ n. g.same (ground arith) })
    ]

  pub withhold_runs-IsSeqSet :
      (pol : Policy) (runs : List OriginRun) (s : List SeqRange) (b : Bool)
      → IsBounded top runs
      → IsSeqSet top s
      → IsSeqSet top (withhold_runs attempted pol runs s b).0
  unfolding withhold_runs
  withhold_runs-IsSeqSet pol [] s b bd i = i
  withhold_runs-IsSeqSet pol (r ∷ rs) s b bd i =
      withhold_runs-IsSeqSet pol rs (next_set pol r s b) (next_flag pol r s b) bd.1
        (next_set-IsSeqSet pol r s b (bd.0, tt) i)

  withhold_runs-flag :
      (pol : Policy) (runs : List OriginRun) (s : List SeqRange) (b : Bool)
      → (withhold_runs attempted pol runs s b).1 ≡ false
      → b ≡ false
  unfolding withhold_runs
  withhold_runs-flag pol [] s b e = e
  withhold_runs-flag pol (r ∷ rs) s b e =
      let up = withhold_runs-flag pol rs (next_set pol r s b) (next_flag pol r s b) e in
      ground arith

  pub withhold_runs-Grows :
      (pol : Policy) (runs : List OriginRun) (s : List SeqRange) (b : Bool)
      → IsBounded top runs
      → IsSeqSet top s
      → Grows attempted s
          (withhold_runs attempted pol runs s b).0
          (withhold_runs attempted pol runs s b).1
  unfolding withhold_runs
  withhold_runs-Grows pol [] s b bd i = Grows-refl attempted s b
  withhold_runs-Grows pol (r ∷ rs) s b bd i =
      let s' = next_set pol r s b in
      let b' = next_flag pol r s b in
      let g = next_set-Grows pol r s b (bd.0, tt) i in
      let h = withhold_runs-Grows pol rs s' b' bd.1 (next_set-IsSeqSet pol r s b (bd.0, tt) i) in
      record {
        keeps = λ q k e. h.keeps q k (g.keeps q k e);
        fixed = λ q k. h.fixed q k ∙ g.fixed q k;
        same = λ e q k. h.same e q k ∙ g.same (withhold_runs-flag pol rs s' b' e) q k;
      }
