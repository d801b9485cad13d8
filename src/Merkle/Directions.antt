-- ===== src/Merkle/Directions.antt =====
-- merkle_get_ith_direction of src/common/merkle.c against the shape of the trees of RFC 6962, which
-- src/common/merkle.h refers to.
use ledger_app_syscoin.Base.{
  ℕ, zero, suc, ◌+◌, ◌-◌, ◌*◌, ◌/◌, ◌%◌, ◌^◌, ◌≤◌, ◌<◌, ◌≡◌, refl, sym, ◌∙◌, inl, inr, Bool, true,
  false, none, some, ltb, ltb→lt, ltb→le, ◌==◌, ==_iff, Bool-cases, arith, if◌then◌else◌, List, [],
  ◌∷◌, get_elem?,
}
use mathlib.Core.Path.{subst}
use native.Mathlib.Nat.{div-eq_of_lt, div-eq-sub-div}
use ledger_app_syscoin.Merkle.{ceil_lg, direction_loop, merkle_get_ith_direction}
use ledger_app_syscoin.Merkle.CeilLog.{IsCeilLog, ceil_lg-IsCeilLog, pow_two_suc, one_le_pow}

-- The path from the root to a leaf of a tree of RFC 6962, true for right: a tree of more than one
-- leaf has the largest power of two below its size on the left.
pub data LeafPath : ℕ → ℕ → List Bool → Type 0 where
  leaf : LeafPath 1 0 []
  left :
      {size index : ℕ} {path : List Bool} (r : ℕ)
      → 2 ^ r < size
      → size ≤ 2 ^ suc r
      → index < 2 ^ r
      → LeafPath (2 ^ r) index path
      → LeafPath size index (false ∷ path)
  right :
      {size index : ℕ} {path : List Bool} (r : ℕ)
      → 2 ^ r < size
      → size ≤ 2 ^ suc r
      → 2 ^ r ≤ index
      → LeafPath (size - 2 ^ r) (index - 2 ^ r) path
      → LeafPath size index (true ∷ path)

pred_suc : (n : ℕ) → suc n - 1 ≡ n
pred_suc n = omega arith

direction_loop_step :
    (fuel size index n i q : ℕ)
    → ltb 1 size ≡ true
    → ceil_lg size ≡ some (suc q)
    → direction_loop (suc fuel) size index n i ≡ (
        if n == i
        then some (index / 2 ^ q % 2 == 1)
        else if index / 2 ^ q % 2 == 1
        then direction_loop fuel (size - 2 ^ q) (index - 2 ^ q) (n + 1) i
        else direction_loop fuel (2 ^ q) index (n + 1) i)
unfolding direction_loop
direction_loop_step fuel size index n i q more found = rw (more, found, pred_suc q) refl

-- The bit of the mask tells whether the index is in the right half.
bit_clear : (index m : ℕ) → index < m → (index / m % 2 == 1) ≡ false
bit_clear index m h = rw (div-eq_of_lt h) refl

bit_set : (index m : ℕ) → 1 ≤ m → m ≤ index → index < 2 * m → (index / m % 2 == 1) ≡ true
bit_set index m p h h' =
    rw (div-eq-sub-div {m = m} {n = index} (omega arith) h)
      (rw (div-eq_of_lt {n = index - m} {m = m} (omega arith)) refl)

-- The directions from one node on are the path.
abbrev Follows : ℕ → ℕ → ℕ → List Bool → Type 0
Follows fuel size index path =
    (n i : ℕ) → direction_loop fuel size index n (n + i) ≡ get_elem? path i

Follows-cons :
    (fuel size index size' index' : ℕ) (b : Bool) (path : List Bool)
    → ((n i : ℕ)
        → direction_loop (suc fuel) size index n i
          ≡ (if n == i then some b else direction_loop fuel size' index' (n + 1) i))
    → Follows fuel size' index' path
    → Follows (suc fuel) size index (b ∷ path)
Follows-cons fuel size index size' index' b path step follows n zero =
    step n (n + 0) ∙ rw ((==_iff n (n + 0)).1 (omega arith)) refl
Follows-cons fuel size index size' index' b path step follows n (suc i) =
    step n (n + suc i)
    ∙ rw (apart n i) (
        subst (λ m. direction_loop fuel size' index' (n + 1) m ≡ get_elem? path i) {x = n + 1 + i}
          {y = n + suc i} (omega arith) (follows (n + 1) i))
  where
    apart : (n i : ℕ) → (n == n + suc i) ≡ false
    apart n i = ground arith

single_leaf : (fuel index : ℕ) → index < 1 → Follows (suc fuel) 1 index []
unfolding direction_loop
single_leaf fuel index h n i = refl

-- There is a path, and the loop follows it.
abbrev HasPath : ℕ → ℕ → ℕ → Type 0
HasPath fuel size index =
    (path : List Bool) × LeafPath size index path × Follows fuel size index path

follow_split :
    (fuel size index r : ℕ)
    → ((size index : ℕ) → size ≤ fuel → index < size → size ≤ 2 ^ 31 → HasPath fuel size index)
    → size ≤ suc fuel
    → index < size
    → size ≤ 2 ^ 31
    → ltb 1 size ≡ true
    → ceil_lg size ≡ some r
    → IsCeilLog size r
    → HasPath (suc fuel) size index
follow_split fuel size index zero follow enough h small more found isl =
    absurd (omega (arith, ltb→lt _ _ more))
follow_split fuel size index (suc q) follow enough h small more found (low, high) =
    elim (Bool-cases (ltb index (2 ^ q))) [
      | inl small' ↦
          let below = ltb→lt index (2 ^ q) small' in
          let (path, p, f) =
            follow (2 ^ q) index (omega (arith, low, enough)) below (omega (arith, low, small)) in
          (
            false ∷ path,
            left q low high below p,
            Follows-cons fuel size index (2 ^ q) index false path
                (λ n i.
                  direction_loop_step fuel size index n i q more found
                  ∙ rw (bit_clear index (2 ^ q) below) refl)
                f,
          )
      | inr large ↦
          let above = ltb→le index (2 ^ q) large in
          let (path, p, f) =
            follow (size - 2 ^ q) (index - 2 ^ q) (omega (arith, one_le_pow q))
              (omega (arith, above)) (omega arith) in
          (
            true ∷ path,
            right q low high above p,
            Follows-cons fuel size index (size - 2 ^ q) (index - 2 ^ q) true path
                (λ n i.
                  direction_loop_step fuel size index n i q more found
                  ∙ rw (bit_set index (2 ^ q) (one_le_pow q) above (omega (arith, pow_two_suc q)))
                      refl)
                f,
          )
    ]

follow :
    (fuel size index : ℕ) → size ≤ fuel → index < size → size ≤ 2 ^ 31 → HasPath fuel size index
follow zero size index enough h small = absurd (omega arith)
follow (suc fuel) size index enough h small = elim (Bool-cases (ltb 1 size)) [
  | inr one ↦
      let is_one = ltb→le _ _ one in
      (
        [],
        subst (λ s. LeafPath s index []) {x = 1} {y = size} (omega arith)
            (subst (λ i. LeafPath 1 i []) {x = 0} {y = index} (omega arith) leaf),
        subst (λ s. Follows (suc fuel) s index []) {x = 1} {y = size} (omega arith)
            (single_leaf fuel index (omega arith)),
      )
  | inl more ↦
      let (r, found, isl) = ceil_lg-IsCeilLog size (omega arith) small in
      follow_split fuel size index r (follow fuel) enough h small more found isl
]

Follows-start :
    (fuel size index : ℕ) (path : List Bool)
    → Follows fuel size index path
    → (i : ℕ) → direction_loop fuel size index 0 i ≡ get_elem? path i
Follows-start fuel size index path f i =
    subst (λ m. direction_loop fuel size index 0 m ≡ get_elem? path i) {x = 0 + i} {y = i}
      (omega arith) (f 0 i)

direction_loop_single :
    (fuel size index n i : ℕ) → ltb 1 size ≡ false → direction_loop fuel size index n i ≡ none
unfolding direction_loop
direction_loop_single zero size index n i one = refl
direction_loop_single (suc fuel) size index n i one = rw one refl

-- Every leaf of a tree of at most 2 ^ 31 leaves has a path, and merkle_get_ith_direction returns the
-- directions on it: for i below its length the i-th one, and -1 for the others.
pub merkle_get_ith_direction-LeafPath :
    (size index : ℕ)
    → index < size
    → size ≤ 2 ^ 31
    → (path : List Bool) × LeafPath size index path
      × ((i : ℕ) → merkle_get_ith_direction size index i ≡ get_elem? path i)
unfolding merkle_get_ith_direction
merkle_get_ith_direction-LeafPath size index h small =
    let (path, p, f) = follow size size index (omega arith) h small in
    (
      path,
      p,
      λ i. elim (Bool-cases (ltb 1 size)) [
        | inl more ↦ rw (more, lt→ltb index size h) (Follows-start size size index path f i)
        | inr one ↦ rw one (
            sym (direction_loop_single size size index 0 i one)
            ∙ Follows-start size size index path f i)
      ],
    )
  where
    lt→ltb : (a b : ℕ) → a < b → ltb a b ≡ true
    lt→ltb a b h = ground arith
