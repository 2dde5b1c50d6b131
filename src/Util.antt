-- ===== src/Util.antt =====
-- server/util/concurrency.go: BoundedWaitGroup. Each call that may block is `none` where it blocks.
pub mod Bound
mod Tests
use flit_el.Prelude.{
  ℕ, zero, suc, ◌+◌, ◌-◌, ◌≤◌, ◌<◌, ◌≡◌, Bool, Option, none, some, ltb, leb, if◌then◌else◌,
}

-- `sem` is the number of values in the channel, whose capacity is `max_size`; there is no channel
-- where `max_size` is 0. A `maxSize` below 0 is treated by the code as 0 is.
pub record BoundedWaitGroup : Type 0 where
  pub wg : ℕ
  pub sem : ℕ
  pub max_size : ℕ

-- NewBoundedWaitGroup
unfoldable pub new_bounded_wait_group : ℕ → BoundedWaitGroup
new_bounded_wait_group max_size = record { wg = 0; sem = 0; max_size = max_size }

-- `b.sem <- struct{}{}` and `b.wg.Add(delta)`
unfoldable pub acquire : BoundedWaitGroup → Option BoundedWaitGroup
acquire b = if ltb b.sem b.max_size then some (record b { sem = b.sem + 1 }) else none

unfoldable pub wg_add : ℕ → BoundedWaitGroup → BoundedWaitGroup
wg_add delta b = record b { wg = b.wg + delta }

-- The loop in Add while nothing else runs, with the rounds that are left where it blocks.
unfoldable pub add_loop : ℕ → BoundedWaitGroup → ℕ × BoundedWaitGroup
unfolding wg_add
add_loop zero b = (zero, b)
add_loop (suc delta) b = elim (acquire b) [
  | none ↦ (suc delta, b)
  | some b' ↦ add_loop delta (wg_add 1 b')
]

-- Add, while nothing else runs
unfoldable pub add : ℕ → BoundedWaitGroup → ℕ × BoundedWaitGroup
unfolding add_loop wg_add
add delta b = if leb b.max_size 0 then (zero, wg_add delta b) else add_loop delta b

-- `<-b.sem`, where there is a limit
unfoldable pub release : BoundedWaitGroup → Option BoundedWaitGroup
release b =
    if ltb 0 b.max_size
    then (if ltb 0 b.sem then some (record b { sem = b.sem - 1 }) else none)
    else some b

-- `b.wg.Done()`, which panics below zero; `none` for that too
unfoldable pub wg_done : BoundedWaitGroup → Option BoundedWaitGroup
wg_done b = if ltb 0 b.wg then some (record b { wg = b.wg - 1 }) else none

-- Done, while nothing else runs
unfoldable pub finish : BoundedWaitGroup → Option BoundedWaitGroup
unfolding release wg_done
finish b = elim (release b) [ none ↦ none | some b' ↦ wg_done b' ]

-- Wait returns exactly when this holds.
unfoldable pub wait_returns : BoundedWaitGroup → Bool
wait_returns b = leb b.wg 0
