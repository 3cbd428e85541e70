-- ===== src/Spool/Capacity.antt =====
-- capacity.go: `Evaluate` over a validated capacity model.
use gasworks.Prelude.{
  ℕ, ◌+◌, ◌≤◌, ◌<◌, ◌≡◌, Bool, true, false, not, ◌&&◌, if◌then◌else◌, arith, leb,
}
use gasworks.Word.{IsNat63, max_int64, sle, add64}

-- The byte fields of the configuration that the model reads.
pub record CapacityConfig : Type 0 where
  pub ceiling_bytes : ℕ
  pub terminal_reserve_bytes : ℕ
  pub max_segment_bytes : ℕ
  pub scratch_bytes : ℕ

pub record CapacityModel : Type 0 where
  pub cfg : CapacityConfig
  pub hard_floor : ℕ
  pub soft_threshold : ℕ

pub data Pressure : Type 0 where
  pressure_none pressure_soft pressure_hard : Pressure

pub record CapacityStatus : Type 0 where
  pub used_bytes : ℕ
  pub open_reserve_bytes : ℕ
  pub committed_bytes : ℕ
  pub ceiling_bytes : ℕ
  pub hard_floor_bytes : ℕ
  pub soft_threshold_bytes : ℕ
  pub pressure : Pressure
  pub admit_passive_capture : Bool
  pub admit_new_explicit_run : Bool

-- The switch of `Evaluate`.
pressure_of : CapacityModel → ℕ → Pressure
pressure_of m committed =
    if sle m.hard_floor committed
    then pressure_hard
    else if sle m.soft_threshold committed
    then pressure_soft
    else pressure_none

is_pressure_none : Pressure → Bool
is_pressure_none pressure_none = true
is_pressure_none pressure_soft = false
is_pressure_none pressure_hard = false

is_pressure_hard : Pressure → Bool
is_pressure_hard pressure_hard = true
is_pressure_hard pressure_none = false
is_pressure_hard pressure_soft = false

unfoldable pub evaluate : CapacityModel → ℕ → ℕ → CapacityStatus
unfolding pressure_of is_pressure_none is_pressure_hard
evaluate m used reserved = record {
  used_bytes = used;
  open_reserve_bytes = reserved;
  committed_bytes = add64 used reserved;
  ceiling_bytes = m.cfg.ceiling_bytes;
  hard_floor_bytes = m.hard_floor;
  soft_threshold_bytes = m.soft_threshold;
  pressure = pressure_of m (add64 used reserved);
  admit_passive_capture = is_pressure_none (pressure_of m (add64 used reserved));
  admit_new_explicit_run =
      not (is_pressure_hard (pressure_of m (add64 used reserved)))
      && sle (add64 (add64 used reserved) m.cfg.terminal_reserve_bytes) m.hard_floor;
}

-- What `NewCapacityModel` establishes: the floor is what the ceiling leaves beside a segment and the
-- scratch space, and the soft threshold lies below it.
pub record IsModel (m : CapacityModel) : Type 0 where
  pub floor : m.hard_floor + m.cfg.max_segment_bytes + m.cfg.scratch_bytes ≡ m.cfg.ceiling_bytes
  pub soft : m.soft_threshold < m.hard_floor
  pub int64 : IsNat63 m.cfg.ceiling_bytes

module _ (m : CapacityModel) (used reserved : ℕ) (good : IsModel m)
    (small : used + reserved + m.cfg.terminal_reserve_bytes ≤ max_int64) where
  -- Of a validated model, where the sums do not overflow: a new run is admitted exactly if the
  -- used bytes, the open reserves, one more terminal reserve, one segment and the scratch space
  -- fit under the ceiling, and without the new reserve they stay strictly below it; passive
  -- capture is admitted exactly below the soft threshold.
  pub evaluate_admits :
      ((evaluate m used reserved).admit_new_explicit_run ≡ (
        leb
          (used + reserved + m.cfg.terminal_reserve_bytes + m.cfg.max_segment_bytes
            + m.cfg.scratch_bytes)
          m.cfg.ceiling_bytes
        && not (
            leb
              (m.cfg.ceiling_bytes)
              (used + reserved + m.cfg.max_segment_bytes + m.cfg.scratch_bytes))))
      × ((evaluate m used reserved).admit_passive_capture
          ≡ not (leb m.soft_threshold (used + reserved)))
  unfolding evaluate
  evaluate_admits = ground (arith, good.floor, good.soft, good.int64)
