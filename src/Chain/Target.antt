-- ===== src/Chain/Target.antt =====
-- The target that the next block must have: `CalculateTarget` of difficulty.go over the durations
-- that `nextBlockTarget` of branch.go measures.
use blockchain.Common.{ℕ, zero, suc, ◌+◌, ◌-◌, Bool, Option, some, none, ltb, leb, if◌then◌else◌}
use blockchain.Common.Int.{ℤ, pos, ltb_ℤ, ◌-ℤ◌, scale, to_word, of_word, half64, quotient, clamp64}
use blockchain.Difficulty.{target_to_diff, diff_to_target}
use blockchain.Chain.{reference_blocks, alpha}
use blockchain.Chain.Blocks.{Heap, target, time}
use blockchain.Chain.Branch.{Branch}

-- The `float64` and `big.Float` operations that `CalculateTarget` calls.
pub record Floats : Type 1 where
  pub Float64 : Type 0
  pub BigFloat : Type 0
  -- `float64(x)` of a duration.
  pub of_int64 : ℤ → Float64
  -- The constant `a / b`.
  pub ratio : ℕ → ℕ → Float64
  pub mul64 : Float64 → Float64 → Float64
  pub add64 : Float64 → Float64 → Float64
  -- `big.NewFloat`, `SetInt`, `Quo`, `Mul`.
  pub new_float : Float64 → BigFloat
  pub set_int : ℕ → BigFloat
  pub quo : BigFloat → BigFloat → BigFloat
  pub mul : BigFloat → BigFloat → BigFloat
  -- `x.Cmp(y) < 0`.
  pub less : BigFloat → BigFloat → Bool
  -- `x.Int(nil)`, which drops the fraction. It is called on values that are not negative.
  pub to_int : BigFloat → ℕ

-- The fields of Config that `initMiningParams` reads; the interval in seconds.
pub record Config : Type 0 where
  pub block_target_limit : ℕ
  pub evidence_target_limit : ℕ
  pub block_interval : ℤ

-- The variables that `initMiningParams` sets; the interval in nanoseconds.
pub record MiningParams : Type 0 where
  pub target_limit : ℕ
  pub block_difficulty_limit : ℕ
  pub evidence_difficulty_limit : ℕ
  pub interval : ℤ

abbrev pub second : ℕ
second = 1_000_000_000

-- `time.Duration` is of 64 bits.
unfoldable pub init_mining_params : Config → MiningParams
unfolding scale to_word of_word
init_mining_params conf = record {
  target_limit = conf.block_target_limit;
  block_difficulty_limit = target_to_diff conf.block_target_limit;
  evidence_difficulty_limit = target_to_diff conf.evidence_target_limit;
  interval = of_word half64 (to_word half64 (scale second conf.block_interval));
}

-- `t.Sub(u)` of two times in nanoseconds, which ends at the bounds of `int64`.
unfoldable pub sub_time : ℤ → ℤ → ℤ
unfolding clamp64 ◌-ℤ◌
sub_time t u = clamp64 (t -ℤ u)

-- `time.Unix(s, 0)` in nanoseconds. The package wraps the seconds within 2^36 of the end of `int64`,
-- and `verifyBlock` refuses a block of such a time either way.
unfoldable pub unix : ℤ → ℤ
unfolding scale
unix s = scale second s

module _ (fl : Floats) (mp : MiningParams) where
  open fl use {of_int64, ratio, mul64, add64, new_float, set_int, quo, mul, less, to_int}

  abbrev at_least_a_second : ℤ → ℤ
  at_least_a_second d = if ltb_ℤ d (pos second) then pos second else d

  -- `floatCurrDiff` before the lower bound.
  unfoldable pub scaled : ℕ → ℤ → ℤ → fl.BigFloat
  unfolding quotient
  scaled last_diff last_duration pre_duration =
      let last = mul64 (of_int64 (at_least_a_second last_duration)) (ratio 1 alpha) in
      let previous =
        mul64 (of_int64 (quotient pre_duration reference_blocks)) (ratio (alpha - 1) alpha) in
      mul (set_int last_diff)
        (quo (new_float (add64 last previous)) (new_float (of_int64 mp.interval)))

  -- The half of the last difficulty.
  unfoldable pub lower_bound : ℕ → fl.BigFloat
  lower_bound last_diff = mul (set_int last_diff) (new_float (ratio 1 2))

  -- `intCurrDiff`
  unfoldable pub current_diff : ℕ → ℤ → ℤ → ℕ
  unfolding scaled lower_bound
  current_diff last_diff last_duration pre_duration =
      let curr = scaled last_diff last_duration pre_duration in
      to_int (if less curr (lower_bound last_diff) then lower_bound last_diff else curr)

  -- CalculateTarget
  unfoldable pub calculate_target : ℕ → ℤ → ℤ → ℕ
  unfolding current_diff target_to_diff diff_to_target
  calculate_target last_target last_duration pre_duration =
      let curr = current_diff (target_to_diff last_target) last_duration pre_duration in
      if ltb mp.block_difficulty_limit curr then mp.target_limit else diff_to_target curr

  -- `nextBlockTarget`; `none` is the fatal error of a branch that is shorter than its height.
  unfoldable pub back : ℕ → ℕ → Heap → Option ℕ
  back zero i h = some i
  back (suc n) i h = elim (h.node i).backward [ none ↦ none | some p ↦ back n p h ]

  unfoldable pub next_block_target : Branch → ℤ → Heap → Option ℕ
  unfolding calculate_target back unix sub_time
  next_block_target b new_block_time h =
      let head = h.node b.head in
      if leb head.height (reference_blocks + 1)
      then some mp.target_limit
      else elim (back reference_blocks b.head h) [
        | none ↦ none
        | some pre ↦ some (
            calculate_target (target head) (sub_time (unix new_block_time) (unix (time head)))
              (sub_time (unix (time head)) (unix (time (h.node pre)))))
      ]
