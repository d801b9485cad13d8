-- ===== src/Merkle/CeilLog.antt =====
-- ceil_lg of src/common/merkle.h.
use ledger_app_syscoin.Base.{
  ℕ, zero, suc, ◌+◌, ◌*◌, ◌%◌, ◌^◌, ◌≤◌, ◌<◌, ◌≡◌, refl, ap, sym, ◌∙◌, ◌⊎◌, inl, inr, none, some,
  ltb, ltb→lt, ltb→le, Bool-cases, arith, true, false,
}
use native.Mathlib.Nat.{mul_assoc, mul_comm, mul-suc, pow-suc}
use mathlib.Core.Path.{subst}
use ledger_app_syscoin.Merkle.{ceil_lg_loop, ceil_lg}

-- r is the least number with n ≤ 2 ^ r.
abbrev pub IsCeilLog : ℕ → ℕ → Type 0
IsCeilLog n zero = n ≤ 1
IsCeilLog n (suc r) = (2 ^ r < n) × (n ≤ 2 ^ suc r)

le→ltb : (n t : ℕ) → n ≤ t → ltb t n ≡ false
le→ltb n t h = ground arith

least :
    (n t r : ℕ)
    → t ≡ 2 ^ r
    → n ≤ t
    → ((r ≡ 0) ⊎ ((q : ℕ) × (r ≡ suc q) × (2 ^ q < n)))
    → IsCeilLog n r
least n t zero e h below = omega (arith, e)
least n t (suc r) e h (inl z) = absurd (omega arith)
least n t (suc r) e h (inr (q, s, l)) =
    (subst (λ v. 2 ^ v < n) {x = q} {y = r} (omega arith) l, omega (arith, e))

pub pow_two_suc : (r : ℕ) → 2 ^ suc r ≡ 2 * 2 ^ r
pow_two_suc r = omega (arith, pow-suc 2 r)

-- A round that continues doubles t without overflow.
doubled : (fuel t : ℕ) → t * 2 ^ suc fuel ≡ 2 ^ 31 → (2 * t) * 2 ^ fuel ≡ 2 ^ 31
doubled fuel t h =
    rw (mul_comm 2 t, mul_assoc t 2 (2 ^ fuel), mul_comm 2 (2 ^ fuel))
      (subst (λ v. t * v ≡ 2 ^ 31) (pow-suc 2 fuel) h)

unwrapped : (n t : ℕ) → t < n → n ≤ 2 ^ 31 → 2 * t % 2 ^ 32 ≡ 2 * t
unwrapped n t h h' = omega arith

next_pow : (t r : ℕ) → t ≡ 2 ^ r → 2 * t ≡ 2 ^ (r + 1)
next_pow t r e =
    omega (arith, e, pow_two_suc r) ∙ ap (λ s. 2 ^ s) {x = suc r} {y = r + 1} (omega arith)

ceil_lg_loop-IsCeilLog :
    (fuel n t r : ℕ)
    → n ≤ 2 ^ 31
    → t ≡ 2 ^ r
    → t * 2 ^ fuel ≡ 2 ^ 31
    → ((r ≡ 0) ⊎ ((q : ℕ) × (r ≡ suc q) × (2 ^ q < n)))
    → (s : ℕ) × (ceil_lg_loop (suc fuel) n t r ≡ some s) × IsCeilLog n s
unfolding ceil_lg_loop
ceil_lg_loop-IsCeilLog zero n t r h e room below =
    let stop = le→ltb n t (omega (arith, room)) in
    (r, rw stop refl, least n t r e (omega (arith, room)) below)
ceil_lg_loop-IsCeilLog (suc fuel) n t r h e room below = elim (Bool-cases (ltb t n)) [
  | inl more ↦
      let small = ltb→lt _ _ more in
      let (s, found, isl) =
        ceil_lg_loop-IsCeilLog fuel n (2 * t % 2 ^ 32) (r + 1) h
          (unwrapped n t small h ∙ next_pow t r e)
          (subst (λ v. v * 2 ^ fuel ≡ 2 ^ 31) (sym (unwrapped n t small h)) (doubled fuel t room))
          (inr (r, omega arith, subst (λ v. v < n) e small)) in
      (s, rw more found, isl)
  | inr done ↦ (r, rw done refl, least n t r e (ltb→le _ _ done) below)
]

-- For sizes from 1 to 2 ^ 31 ceil_lg returns the least r with n ≤ 2 ^ r.
pub ceil_lg-IsCeilLog :
    (n : ℕ) → 1 ≤ n → n ≤ 2 ^ 31 → (r : ℕ) × (ceil_lg n ≡ some r) × IsCeilLog n r
unfolding ceil_lg
ceil_lg-IsCeilLog n h h' = ceil_lg_loop-IsCeilLog 31 n 1 0 h' refl refl (inl refl)

pub one_le_pow : (j : ℕ) → 1 ≤ 2 ^ j
one_le_pow zero = omega arith
one_le_pow (suc j) = omega (arith, one_le_pow j, pow_two_suc j)

le_mul : (a b : ℕ) → 1 ≤ b → a ≤ a * b
le_mul a zero h = absurd (omega arith)
le_mul a (suc b) h = rw (mul-suc a b) (omega arith)

-- t is 0 or a power of two up to 2 ^ 31.
abbrev Power : ℕ → Type 0
Power t = (t ≡ 0) ⊎ ((j : ℕ) × (t * 2 ^ j ≡ 2 ^ 31))

Power-le : (t : ℕ) → Power t → t ≤ 2 ^ 31
Power-le t (inl e) = omega arith
Power-le t (inr (j, e)) = omega (arith, e, le_mul t (2 ^ j) (one_le_pow j))

Power-next : (t : ℕ) → Power t → Power (2 * t % 2 ^ 32)
Power-next t (inl e) = inl (omega arith)
Power-next t (inr (zero, e)) = inl (omega (arith, e))
Power-next t (inr (suc j, e)) =
    let e' = doubled j t e in
    let small = Power-le (2 * t) (inr (j, e')) in
    inr (
      j,
      subst (λ v. v * 2 ^ j ≡ 2 ^ 31) {x = 2 * t} {y = 2 * t % 2 ^ 32} (omega (arith, small)) e',
    )

ceil_lg_loop-none : (fuel n t r : ℕ) → 2 ^ 31 < n → Power t → ceil_lg_loop fuel n t r ≡ none
unfolding ceil_lg_loop
ceil_lg_loop-none zero n t r h p = refl
ceil_lg_loop-none (suc fuel) n t r h p =
    rw (lt→ltb t n (omega (arith, Power-le t p)))
      (ceil_lg_loop-none fuel n (2 * t % 2 ^ 32) (r + 1) h (Power-next t p))
  where
    lt→ltb : (t n : ℕ) → t < n → ltb t n ≡ true
    lt→ltb t n h = ground arith

-- For a size above 2 ^ 31 no number of rounds ends the loop of ceil_lg, since t is doubled to 0.
pub ceil_lg-diverges : (n fuel : ℕ) → 2 ^ 31 < n → ceil_lg_loop fuel n 1 0 ≡ none
ceil_lg-diverges n fuel h = ceil_lg_loop-none fuel n 1 0 h (inr (31, refl))
