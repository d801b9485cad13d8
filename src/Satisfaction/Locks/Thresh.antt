-- ===== src/Satisfaction/Locks/Thresh.antt =====
-- The flags g to k of a thresh node: the loop of compute_miniscript_policy_ext_info
-- (src/common/wallet.c) over the children.
use ledger_app_syscoin.Base.{
  ℕ, zero, suc, Bool, true, false, not, ◌&&◌, ◌||◌, ◌≡◌, refl, ◌⊎◌, inl, inr, arith, List, [], ◌∷◌,
  length, leb, Ensures, failure, success, Bool-cases, ℤ,
}
use mathlib.Core.Path.{subst, sym}
use mathlib.Core.Bool.{or_assoc}
use ledger_app_syscoin.Policy.{PolicyNode, thresh, Scriptlist, nil, cons}
use ledger_app_syscoin.Policy.ExtInfo.{ExtInfo}
use ledger_app_syscoin.Policy.ExtInfo.Thresh.{
  thresh_info, scan, scan_child, ThreshScan, initial_scan,
}
use ledger_app_syscoin.Policy.ExtInfo.Induction.{Children}
use ledger_app_syscoin.Satisfaction.Locks.{LocksUsed, no_locks, union, Uses, ChosenUse}
use ledger_app_syscoin.Satisfaction.Locks.Covers.{
  covers, Locked, covers-union, Both-left, union-no_locks,
}

-- The statement for one node.
abbrev pub LocksRight : PolicyNode → ExtInfo → Type 0
LocksRight p t = Locked (Uses true p) (Uses false p) t

pub ChosenUse-free :
    (xs : Scriptlist) (ts : List ExtInfo)
    → Children LocksRight xs ts
    → (l : LocksUsed) → ChosenUse xs 0 l
    → l ≡ no_locks
ChosenUse-free nil [] h l u = u
ChosenUse-free (cons x xs) (t ∷ ts) (h, hs) l u = ChosenUse-free xs ts hs l (Both-left h.free l u)
ChosenUse-free nil (t ∷ ts) h l u = absurd h
ChosenUse-free (cons x xs) [] h l u = absurd h

abbrev pub scan-covers : ThreshScan → LocksUsed → Bool
scan-covers c l = covers c.g c.h c.i c.j c.k l

pub scan_child-grows :
    (k : ℕ) (t : ExtInfo) (c : ThreshScan) (l : LocksUsed)
    → scan-covers c l ≡ true
    → scan-covers (scan_child k t c) l ≡ true
unfolding scan_child
scan_child-grows k t c l h = ground arith

-- A flag k that holds less often.
pub covers_weaken :
    (g h i j k k' : Bool) (l : LocksUsed)
    → (k' && not k) ≡ false
    → covers g h i j k l ≡ true
    → covers g h i j k' l ≡ true
covers_weaken g h i j k k' l e c = ground arith

-- The test of a conjunction is weaker than that of the loop.
pub child-mixes :
    (k g h i j l g' h' i' j' l' : Bool)
    → ((l && l' && not (g' && (h || h') || h' && (g || g') || i' && (j || j') || j' && (i || i')))
        && not (not (not (l && l') || (g && h' || h && g' || i && j' || j && i'))))
      ≡ false
child-mixes k g h i j l g' h' i' j' l' = ground arith

-- Another satisfied child, of which k = 1 allows only one.
pub scan_child-union :
    (k : ℕ) (t : ExtInfo) (c : ThreshScan) (a b : LocksUsed)
    → leb 2 k ≡ true
    → scan-covers c a ≡ true
    → covers t.g t.h t.i t.j t.k b ≡ true
    → scan-covers (scan_child k t c) (union a b) ≡ true
unfolding scan_child
scan_child-union k t c a b e h i = rw e (
    covers_weaken (c.g || t.g) (c.h || t.h) (c.i || t.i) (c.j || t.j)
      (not (not (c.k && t.k) || (c.g && t.h || c.h && t.g || c.i && t.j || c.j && t.i)))
      (c.k
        && t.k
        && not (
            t.g && (c.h || t.h)
            || t.h && (c.g || t.g)
            || t.i && (c.j || t.j)
            || t.j && (c.i || t.i)))
      (union a b) (child-mixes true c.g c.h c.i c.j c.k t.g t.h t.i t.j t.k)
      (covers-union _ _ _ _ c.k _ _ _ _ t.k a b h i))

pub scan_child-first :
    (k : ℕ) (t : ExtInfo) (c : ThreshScan) (b : LocksUsed)
    → leb 2 k ≡ false
    → covers t.g t.h t.i t.j t.k b ≡ true
    → scan-covers (scan_child k t c) b ≡ true
unfolding scan_child
scan_child-first k t c b e i = rw e (ground arith)

pub scan-grows :
    (k : ℕ) (ts : List ExtInfo) (c : ThreshScan) (l : LocksUsed)
    → scan-covers c l ≡ true
    → scan-covers (scan k ts c) l ≡ true
unfolding scan
scan-grows k [] c l h = h
scan-grows k (t ∷ ts) c l h = scan-grows k ts (scan_child k t c) l (scan_child-grows k t c l h)

pub union_assoc : (a b c : LocksUsed) → union a (union b c) ≡ union (union a b) c
union_assoc a b c =
    rw
      (
        or_assoc a.relative_time b.relative_time c.relative_time,
        or_assoc a.relative_height b.relative_height c.relative_height,
        or_assoc a.absolute_time b.absolute_time c.absolute_time,
        or_assoc a.absolute_height b.absolute_height c.absolute_height,
      )
      refl

-- The children that were chosen before use `a`; a threshold of 1 lets only one be chosen.
pub scan-chosen :
    (k : ℕ) (xs : Scriptlist) (ts : List ExtInfo) (c : ThreshScan) (j : ℕ) (a b : LocksUsed)
    → Children LocksRight xs ts
    → scan-covers c a ≡ true
    → (leb 2 k ≡ true) ⊎ (j ≡ 0) ⊎ ((leb 2 k ≡ false) × (j ≡ 1) × (a ≡ no_locks))
    → ChosenUse xs j b
    → scan-covers (scan k ts c) (union a b) ≡ true
unfolding scan
scan-chosen k nil [] c zero a b h e few u =
    rw u (subst (λ l. scan-covers c l ≡ true) (sym (union-no_locks a)) e)
scan-chosen k nil [] c (suc j) a b h e few u = absurd u
scan-chosen k nil (t ∷ ts) c j a b h e few u = absurd h
scan-chosen k (cons x xs) [] c j a b h e few u = absurd h
scan-chosen k (cons x xs) (t ∷ ts) c zero a b (h, hs) e few u =
    scan-chosen k xs ts (scan_child k t c) 0 a b hs (scan_child-grows k t c a e) (inr (inl refl))
      (Both-left h.free b u)
scan-chosen k (cons x xs) (t ∷ ts) c (suc j) a b (h, hs) e few (inl u) =
    scan-chosen k xs ts (scan_child k t c) (suc j) a b hs (scan_child-grows k t c a e) few
      (Both-left h.free b u)
scan-chosen k (cons x xs) (t ∷ ts) c (suc j) a b (h, hs) e few (inr (b', b'', s, u, eq)) = rw eq (
    subst (λ l. scan-covers (scan k ts (scan_child k t c)) l ≡ true) (sym (union_assoc a b' b''))
      (elim few [
        | inl two ↦
            scan-chosen k xs ts (scan_child k t c) j (union a b') b'' hs
              (scan_child-union k t c a b' two e (h.covered b' s)) (inl two) u
        | inr (inl none) ↦ absurd (omega arith)
        | inr (inr (one, last, first)) ↦
            scan-chosen k xs ts (scan_child k t c) j (union a b') b'' hs
              (rw first (scan_child-first k t c b' one (h.covered b' s))) (inr (inl (omega arith)))
              u
      ]))

pub thresh_info-Locked :
    (leftover : ℕ → ℤ) (k : ℕ) (xs : Scriptlist) (ts : List ExtInfo)
    → Children LocksRight xs ts
    → Ensures (LocksRight (thresh k xs)) (thresh_info leftover k ts)
unfolding thresh_info
thresh_info-Locked leftover k xs ts h = elim (Bool-cases (leb (length ts) 128)) [
  | inl e ↦ rw e (
      success (record {
        covered = λ l u. scan-chosen k xs ts initial_scan k no_locks l h refl (few k) u;
        free = ChosenUse-free xs ts h;
      }))
  | inr e ↦ rw e failure
]
  where
    few :
        (k : ℕ) → (leb 2 k ≡ true) ⊎ (k ≡ 0) ⊎ ((leb 2 k ≡ false) × (k ≡ 1) × (no_locks ≡ no_locks))
    few zero = inr (inl refl)
    few (suc zero) = inr (inr (refl, refl, refl))
    few (suc (suc k)) = inl (ground arith)
