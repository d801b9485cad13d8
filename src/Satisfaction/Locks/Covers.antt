-- ===== src/Satisfaction/Locks/Covers.antt =====
-- What the flags g to k of policy_node_ext_info_t (src/common/wallet.h) say of the timelocks of a
-- satisfaction, and the rules by which they are joined.
use ledger_app_syscoin.Base.{Bool, true, false, not, ◌&&◌, ◌||◌, ◌≡◌, refl, inl, inr, arith}
use ledger_app_syscoin.Policy.ExtInfo.{ExtInfo, mixes}
use ledger_app_syscoin.Satisfaction.Locks.{
  LocksUsed, no_locks, union, unmixed, Exactly, Both, OneOf,
}

-- The flags g to j show the locks, and k that they do not mix.
abbrev pub covers : Bool → Bool → Bool → Bool → Bool → LocksUsed → Bool
covers g h i j k l =
    (not l.relative_time || g)
    && (not l.relative_height || h)
    && (not l.absolute_time || i)
    && (not l.absolute_height || j)
    && (not k || unmixed l)

pub record Locked (S D : LocksUsed → Type 0) (t : ExtInfo) : Type 0 where
  pub covered : (l : LocksUsed) → S l → covers t.g t.h t.i t.j t.k l ≡ true
  pub free : (l : LocksUsed) → D l → l ≡ no_locks

pub Both-free :
    {S D : LocksUsed → Type 0}
    → ((l : LocksUsed) → S l → l ≡ no_locks)
    → ((l : LocksUsed) → D l → l ≡ no_locks)
    → (l : LocksUsed) → Both S D l
    → l ≡ no_locks
Both-free f g l (a, b, s, d, e) = rw e (rw (f a s) (rw (g b d) refl))

pub Exactly-free : (l : LocksUsed) → Exactly no_locks l → l ≡ no_locks
Exactly-free l e = e

-- Both scripts are satisfied.
pub covers-union :
    (g h i j k g' h' i' j' k' : Bool) (a b : LocksUsed)
    → covers g h i j k a ≡ true
    → covers g' h' i' j' k' b ≡ true
    → covers
        (g || g')
        (h || h')
        (i || i')
        (j || j')
        (not (not (k && k') || (g && h' || h && g' || i && j' || j && i')))
        (union a b)
      ≡ true
covers-union g h i j k g' h' i' j' k' a b p q = ground arith

module _ {S D T E : LocksUsed → Type 0} {x y : ExtInfo} where
  pub and-covers :
      Locked S D x
      → Locked T E y
      → (l : LocksUsed) → Both S T l
      → covers
          (x.g || y.g)
          (x.h || y.h)
          (x.i || y.i)
          (x.j || y.j)
          (not (not (x.k && y.k) || mixes x y))
          l
        ≡ true
  and-covers p q l (a, b, s, t, e) =
      rw e (covers-union _ _ _ _ x.k _ _ _ _ y.k a b (p.covered a s) (q.covered b t))

  -- The first one is satisfied.
  pub left-covers :
      Locked S D x
      → Locked T E y
      → (l : LocksUsed) → S l
      → covers (x.g || y.g) (x.h || y.h) (x.i || y.i) (x.j || y.j) (x.k && y.k) l ≡ true
  left-covers p q l s = let h = p.covered l s in ground arith

  pub right-covers :
      Locked S D x
      → Locked T E y
      → (l : LocksUsed) → T l
      → covers (x.g || y.g) (x.h || y.h) (x.i || y.i) (x.j || y.j) (x.k && y.k) l ≡ true
  right-covers p q l t = let h = q.covered l t in ground arith

-- A dissatisfied script adds no lock.
pub Both-left :
    {D T : LocksUsed → Type 0}
    → ((l : LocksUsed) → D l → l ≡ no_locks)
    → (l : LocksUsed) → Both D T l
    → T l
Both-left f l (a, b, d, t, e) = rw e (rw (f a d) t)

pub or_false : (b : Bool) → b || false ≡ b
or_false b = ground arith

pub union-no_locks : (a : LocksUsed) → union a no_locks ≡ a
union-no_locks a =
    rw
      (
        or_false a.relative_time,
        or_false a.relative_height,
        or_false a.absolute_time,
        or_false a.absolute_height,
      )
      refl

pub Both-right :
    {S D : LocksUsed → Type 0}
    → ((l : LocksUsed) → D l → l ≡ no_locks)
    → (l : LocksUsed) → Both S D l
    → S l
Both-right f l (a, b, s, d, e) = rw e (rw (f b d) (rw (union-no_locks a) s))

pub OneOf-free :
    {S T : LocksUsed → Type 0}
    → ((l : LocksUsed) → S l → l ≡ no_locks)
    → ((l : LocksUsed) → T l → l ≡ no_locks)
    → (l : LocksUsed) → OneOf S T l
    → l ≡ no_locks
OneOf-free f g l (inl s) = f l s
OneOf-free f g l (inr t) = g l t
