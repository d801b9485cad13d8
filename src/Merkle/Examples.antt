-- ===== src/Merkle/Examples.antt =====
-- Directions (src/common/merkle.c) in trees of RFC 6962.
use ledger_app_syscoin.Base.{ℕ, ◌≡◌, refl, Bool, true, false, some, none, List, get_elem?, arith}
use ledger_app_syscoin.Merkle.{ceil_lg, ceil_lg_loop, merkle_get_ith_direction}
use ledger_app_syscoin.Merkle.CeilLog.{IsCeilLog, ceil_lg-IsCeilLog, ceil_lg-diverges}
use ledger_app_syscoin.Merkle.Directions.{LeafPath, merkle_get_ith_direction-LeafPath}

-- The last leaf of a tree of five is the right child of the root.
five_leaves :
    (merkle_get_ith_direction 5 4 0 ≡ some true)
    × (merkle_get_ith_direction 5 4 1 ≡ none)
    × (merkle_get_ith_direction 5 2 0 ≡ some false)
    × (merkle_get_ith_direction 5 2 1 ≡ some true)
    × (merkle_get_ith_direction 5 2 2 ≡ some false)
    × (merkle_get_ith_direction 5 5 0 ≡ none)
unfolding merkle_get_ith_direction ceil_lg
five_leaves = (refl, refl, refl, refl, refl, refl)

ceil_lg-IsCeilLog_example : (r : ℕ) × (ceil_lg 1000 ≡ some r) × IsCeilLog 1000 r
ceil_lg-IsCeilLog_example = ceil_lg-IsCeilLog 1000 (omega arith) (omega arith)

ceil_lg-diverges_example : ceil_lg_loop 1000 3000000000 1 0 ≡ none
ceil_lg-diverges_example = ceil_lg-diverges 3000000000 1000 (omega arith)

merkle_get_ith_direction-LeafPath_example :
    (path : List Bool) × LeafPath 1000 77 path
    × ((i : ℕ) → merkle_get_ith_direction 1000 77 i ≡ get_elem? path i)
merkle_get_ith_direction-LeafPath_example =
    merkle_get_ith_direction-LeafPath 1000 77 (omega arith) (omega arith)
