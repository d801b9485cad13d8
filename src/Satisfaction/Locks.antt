-- ===== src/Satisfaction/Locks.antt =====
-- The timelocks that a satisfaction relies on: an independent description, in the manner of the
-- costs, of the locks of `older` and `after` that must have passed for a witness of a script.
mod Covers
mod Nodes
mod Thresh
pub mod Unmixed
use ledger_app_syscoin.Base.{ℕ, zero, suc, Bool, true, false, not, ◌&&◌, ◌||◌, ◌≡◌, ◌⊎◌, leb}
use ledger_app_syscoin.Policy.{
  ConstantToken, KeyToken, MultisigToken, LockToken, ScriptToken, Script2Token, PolicyNode,
  constant, with_script, with_script2, andor, with_key, with_uint32, multisig, thresh, with_hash,
  tr, Scriptlist, nil, cons, token_0, token_1, token_older, token_after, token_sh, token_wsh,
  token_a, token_s, token_c, token_t, token_d, token_v, token_j, token_n, token_l, token_u,
  token_wpkh, token_and_v, token_and_b, token_and_n, token_or_b, token_or_c, token_or_d, token_or_i,
  token_multi,
}
use ledger_app_syscoin.Policy.ExtInfo.Leaves.{is_time_sequence, locktime_threshold}

-- The kinds of locks: relative ones by time or height, and absolute ones by time or height.
pub record LocksUsed : Type 0 where
  pub relative_time : Bool
  pub relative_height : Bool
  pub absolute_time : Bool
  pub absolute_height : Bool

abbrev pub no_locks : LocksUsed
no_locks = record {
  relative_time = false;
  relative_height = false;
  absolute_time = false;
  absolute_height = false;
}

abbrev pub union : LocksUsed → LocksUsed → LocksUsed
union a b = record {
  relative_time = a.relative_time || b.relative_time;
  relative_height = a.relative_height || b.relative_height;
  absolute_time = a.absolute_time || b.absolute_time;
  absolute_height = a.absolute_height || b.absolute_height;
}

-- No transaction can meet a lock by time and one by height in the same field.
abbrev pub unmixed : LocksUsed → Bool
unmixed l = not (l.relative_time && l.relative_height) && not (l.absolute_time && l.absolute_height)

-- The lock of older(n), whose bit 22 selects time, or of after(n).
abbrev pub locks_of : LockToken → ℕ → LocksUsed
locks_of token_older n = record no_locks {
  relative_time = is_time_sequence n;
  relative_height = not (is_time_sequence n);
}
locks_of token_after n = record no_locks {
  absolute_time = leb locktime_threshold n;
  absolute_height = not (leb locktime_threshold n);
}

abbrev pub Exactly : LocksUsed → LocksUsed → Type 0
Exactly a l = l ≡ a

abbrev pub Impossible : LocksUsed → Type 0
Impossible l = ⊥

abbrev pub Both : (LocksUsed → Type 0) → (LocksUsed → Type 0) → LocksUsed → Type 0
Both R S l = (a : LocksUsed) × (b : LocksUsed) × R a × S b × (l ≡ union a b)

abbrev pub OneOf : (LocksUsed → Type 0) → (LocksUsed → Type 0) → LocksUsed → Type 0
OneOf R S l = R l ⊎ S l

abbrev pub ConstantUses : Bool → ConstantToken → LocksUsed → Type 0
ConstantUses true token_0 = Impossible
ConstantUses true token_1 = Exactly no_locks
ConstantUses false token_0 = Exactly no_locks
ConstantUses false token_1 = Impossible

abbrev pub LockUses : Bool → LockToken → ℕ → LocksUsed → Type 0
LockUses true token n = Exactly (locks_of token n)
LockUses false token n = Impossible

abbrev pub HashUses : Bool → LocksUsed → Type 0
HashUses true = Exactly no_locks
HashUses false = Impossible

abbrev pub WrapperUses :
    Bool → ScriptToken → (LocksUsed → Type 0) → (LocksUsed → Type 0) → LocksUsed → Type 0
WrapperUses true token_sh sat dsat = Impossible
WrapperUses true token_wsh sat dsat = Impossible
WrapperUses true _ sat dsat = sat
WrapperUses false token_a sat dsat = dsat
WrapperUses false token_s sat dsat = dsat
WrapperUses false token_c sat dsat = dsat
WrapperUses false token_n sat dsat = dsat
WrapperUses false token_d sat dsat = Exactly no_locks
WrapperUses false token_j sat dsat = Exactly no_locks
WrapperUses false token_l sat dsat = OneOf (Exactly no_locks) dsat
WrapperUses false token_u sat dsat = OneOf dsat (Exactly no_locks)
WrapperUses false _ sat dsat = Impossible

abbrev pub Script2Uses :
    Bool
    → Script2Token
    → (LocksUsed → Type 0)
    → (LocksUsed → Type 0)
    → (LocksUsed → Type 0)
    → (LocksUsed → Type 0)
    → LocksUsed
    → Type 0
Script2Uses true token_and_v sx dx sy dy = Both sx sy
Script2Uses true token_and_b sx dx sy dy = Both sx sy
Script2Uses true token_and_n sx dx sy dy = Both sx sy
Script2Uses true token_or_b sx dx sy dy = OneOf (Both sx dy) (Both dx sy)
Script2Uses true token_or_c sx dx sy dy = OneOf sx (Both dx sy)
Script2Uses true token_or_d sx dx sy dy = OneOf sx (Both dx sy)
Script2Uses true token_or_i sx dx sy dy = OneOf sx sy
Script2Uses false token_and_v sx dx sy dy = Impossible
Script2Uses false token_and_b sx dx sy dy = Both dx dy
Script2Uses false token_and_n sx dx sy dy = dx
Script2Uses false token_or_b sx dx sy dy = Both dx dy
Script2Uses false token_or_c sx dx sy dy = Impossible
Script2Uses false token_or_d sx dx sy dy = Both dx dy
Script2Uses false token_or_i sx dx sy dy = OneOf dx dy

abbrev pub AndorUses :
    Bool
    → (LocksUsed → Type 0)
    → (LocksUsed → Type 0)
    → (LocksUsed → Type 0)
    → (LocksUsed → Type 0)
    → (LocksUsed → Type 0)
    → LocksUsed
    → Type 0
AndorUses true sx dx sy sz dz = OneOf (Both sx sy) (Both dx sz)
AndorUses false sx dx sy sz dz = Both dx dz

abbrev mutual
  pub Uses : Bool → PolicyNode → LocksUsed → Type 0
  Uses sat (constant token) = ConstantUses sat token
  Uses sat (with_script token x) = WrapperUses sat token (Uses true x) (Uses false x)
  Uses sat (with_script2 token x y) =
      Script2Uses sat token (Uses true x) (Uses false x) (Uses true y) (Uses false y)
  Uses sat (andor x y z) =
      AndorUses sat (Uses true x) (Uses false x) (Uses true y) (Uses true z) (Uses false z)
  Uses sat (with_key token key) = Exactly no_locks
  Uses sat (with_uint32 token n) = LockUses sat token n
  Uses sat (multisig token k keys) = Exactly no_locks
  Uses sat (thresh k xs) = ChosenUse xs (elim sat [ true ↦ k | false ↦ 0 ])
  Uses sat (with_hash token h) = HashUses sat
  Uses sat (tr key tree) = Impossible

  -- Exactly j of the scripts are satisfied, and the others are dissatisfied.
  pub ChosenUse : Scriptlist → ℕ → LocksUsed → Type 0
  ChosenUse nil zero = Exactly no_locks
  ChosenUse nil (suc j) = Impossible
  ChosenUse (cons x xs) zero = Both (Uses false x) (ChosenUse xs zero)
  ChosenUse (cons x xs) (suc j) =
      OneOf (Both (Uses false x) (ChosenUse xs (suc j))) (Both (Uses true x) (ChosenUse xs j))
