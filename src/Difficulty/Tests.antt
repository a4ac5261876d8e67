-- ===== src/Difficulty/Tests.antt =====
-- Runs of the theorems on targets and difficulties.
use blockchain.Common.{◌+◌, ◌-◌, ◌*◌, ◌^◌, ◌≤◌, ◌≡◌, arith}
use blockchain.Difficulty.{target_to_diff, diff_to_target}
use blockchain.Difficulty.Target.{
  target_to_diff-diff_to_target_bounds, diff_to_target-target_to_diff,
}

target_to_diff-diff_to_target_bounds_example :
    (target_to_diff (diff_to_target 1_234_567_891) ≤ 1_234_567_891)
    × ((1_234_567_891 - target_to_diff (diff_to_target 1_234_567_891)) * 2 ^ 23 ≤ 1_234_567_891)
target_to_diff-diff_to_target_bounds_example =
    target_to_diff-diff_to_target_bounds 1_234_567_891 (omega arith)

-- The target 0xe8ffffff: 232 bits that begin with 24 ones.
diff_to_target-target_to_diff_example :
    diff_to_target (target_to_diff (232 * 2 ^ 24 + 0xffffff)) ≡ 232 * 2 ^ 24 + 0xffffff
diff_to_target-target_to_diff_example =
    diff_to_target-target_to_diff 232 0xffffff (omega arith) (omega arith) (omega arith)
      (omega arith)
