-- ===== src/Merkle.antt =====
-- Merkle trees (src/common/merkle.h and src/common/merkle.c): the directions from the root to a leaf.
pub mod CeilLog
pub mod Directions
mod Examples
use ledger_app_syscoin.Base.{
  ℕ, zero, suc, ◌+◌, ◌-◌, ◌*◌, ◌/◌, ◌%◌, ◌^◌, Bool, true, false, Option, none, some, ◌>>=◌, ltb,
  ◌==◌, if◌then◌else◌,
}

-- The loop of ceil_lg, with t a uint32_t. The source has no bound on the number of rounds, of which
-- at most `fuel` - 1 are made here.
unfoldable pub ceil_lg_loop : ℕ → ℕ → ℕ → ℕ → Option ℕ
ceil_lg_loop zero n t r = none
ceil_lg_loop (suc fuel) n t r =
    let rest = ceil_lg_loop fuel n (2 * t % 2 ^ 32) (r + 1) in if ltb t n then rest else some r

unfoldable pub ceil_lg : ℕ → Option ℕ
unfolding ceil_lg_loop
ceil_lg n = ceil_lg_loop 32 n 1 0

-- The loop of merkle_get_ith_direction, in which the size goes down. `some` holds the direction,
-- true for right, and `none` is -1; `index & mask` tests one bit.
unfoldable pub direction_loop : ℕ → ℕ → ℕ → ℕ → ℕ → Option Bool
direction_loop zero size index n_directions i = none
direction_loop (suc fuel) size index n_directions i =
    if ltb 1 size
    then (ceil_lg size >>= λ depth.
        let mask = 2 ^ (depth - 1) in
        let is_right_child = index / mask % 2 == 1 in
        let right = direction_loop fuel (size - mask) (index - mask) (n_directions + 1) i in
        let left = direction_loop fuel mask index (n_directions + 1) i in
        if n_directions == i then some is_right_child else if is_right_child then right else left)
    else none

unfoldable pub merkle_get_ith_direction : ℕ → ℕ → ℕ → Option Bool
unfolding direction_loop
merkle_get_ith_direction size index i =
    if ltb 1 size
    then (if ltb index size then direction_loop size size index 0 i else none)
    else none
