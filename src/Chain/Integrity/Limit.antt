-- ===== src/Chain/Integrity/Limit.antt =====
-- Bounds on the target of `CalculateTarget` and `nextBlockTarget` of core/blockchain.
use blockchain.Common.{
  ℕ, ◌+◌, ◌^◌, ◌≤◌, ◌<◌, ◌≡◌, arith, ltb, leb, some, Bool-cases, Option-cases, inl, inr,
}
use blockchain.Common.Int.{ℤ}
use blockchain.Difficulty.{target_to_diff}
use blockchain.Difficulty.Target.{target_to_diff-diff_to_target_bounds}
use blockchain.Chain.{reference_blocks}
use blockchain.Chain.Blocks.{Heap, target, time}
use blockchain.Chain.Branch.{Branch}
use blockchain.Chain.Target.{
  Floats, Config, init_mining_params, current_diff, calculate_target, next_block_target, back,
  sub_time, unix,
}

module _ (fl : Floats) (conf : Config)
    (small : target_to_diff conf.block_target_limit < 2 ^ 255) where
  abbrev limit : ℕ
  limit = target_to_diff conf.block_target_limit

  calculate_target-limit :
      (last_target : ℕ) (last_duration pre_duration : ℤ)
      → target_to_diff
          (calculate_target fl (init_mining_params conf) last_target last_duration pre_duration)
        ≤ limit
  unfolding calculate_target init_mining_params
  calculate_target-limit last_target last_duration pre_duration =
      let curr =
        current_diff fl (init_mining_params conf) (target_to_diff last_target) last_duration
          pre_duration in
      elim (Bool-cases (ltb limit curr)) [
        | inl above ↦ rw above (omega arith)
        | inr below ↦
            let bound : curr ≤ limit = ground arith in
            let kept = target_to_diff-diff_to_target_bounds curr (omega (arith, small, bound)) in
            rw below (omega (arith, kept.0, bound))
      ]

  -- Under the parameters of a configuration whose target limit stands for less than 2^255, every
  -- target that `nextBlockTarget` gives stands for no more than the target limit does, whatever the
  -- floats are.
  pub next_block_target-limit :
      (b : Branch) (new_block_time : ℤ) (h : Heap) (t : ℕ)
      → next_block_target fl (init_mining_params conf) b new_block_time h ≡ some t
      → target_to_diff t ≤ limit
  unfolding next_block_target
  next_block_target-limit b new_block_time h t e =
      let head = h.node b.head in
      elim (Bool-cases (leb head.height (reference_blocks + 1))) [
        | inl first ↦
            let et : t ≡ conf.block_target_limit = unfold init_mining_params in ground arith in
            rw et (omega arith)
        | inr later ↦
            elim (Option-cases (back fl (init_mining_params conf) reference_blocks b.head h)) [
              | inl nil ↦ absurd (ground arith)
              | inr (pre, found) ↦
                  let last = sub_time (unix new_block_time) (unix (time head)) in
                  let previous = sub_time (unix (time head)) (unix (time (h.node pre))) in
                  let et : t
                      ≡ calculate_target fl (init_mining_params conf) (target head) last previous =
                    ground arith in
                  rw et (calculate_target-limit (target head) last previous)
            ]
      ]
