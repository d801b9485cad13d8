-- ===== src/Satisfaction/Locks/Nodes.antt =====
-- The flags g to k that compute_miniscript_policy_ext_info (src/common/wallet.c) computes at every
-- token but thresh.
use ledger_app_syscoin.Base.{
  ℕ, Bool, true, false, not, ◌&&◌, ◌||◌, ◌≡◌, inl, inr, arith, Ensures, failure, success,
}
use ledger_app_syscoin.Policy.{
  ConstantToken, KeyToken, MultisigToken, LockToken, ScriptToken, Script2Token, token_0, token_1,
  token_older, token_after, token_sh, token_wsh, token_a, token_s, token_c, token_t, token_d,
  token_v, token_j, token_n, token_l, token_u, token_wpkh, token_pk, token_pkh, token_pk_k,
  token_pk_h, token_and_v, token_and_b, token_and_n, token_or_b, token_or_c, token_or_d, token_or_i,
  token_multi,
}
use ledger_app_syscoin.Policy.ExtInfo.{ExtInfo, mixes}
use ledger_app_syscoin.Policy.ExtInfo.Leaves.{constant_info, key_info, multisig_info, lock_info}
use ledger_app_syscoin.Policy.ExtInfo.Scripts.{script2_info}
use ledger_app_syscoin.Policy.ExtInfo.Wrappers.{wrapper_info}
use ledger_app_syscoin.Satisfaction.Locks.{
  LocksUsed, no_locks, union, Exactly, Both, OneOf, ConstantUses, LockUses, WrapperUses,
  Script2Uses,
}
use ledger_app_syscoin.Satisfaction.Locks.Covers.{
  covers, Locked, Both-free, covers-union, and-covers, left-covers, right-covers, Both-left,
  Both-right, OneOf-free,
}

pub no_locks-covers : (g h i j k : Bool) (l : LocksUsed) → l ≡ no_locks → covers g h i j k l ≡ true
no_locks-covers g h i j k l e = rw e (ground arith)

pub constant_info-Locked :
    (token : ConstantToken)
    → Locked (ConstantUses true token) (ConstantUses false token) (constant_info token)
unfolding constant_info
constant_info-Locked token_0 = record { covered = λ l s. absurd s; free = λ l d. d }
constant_info-Locked token_1 = record {
  covered = no_locks-covers _ _ _ _ true;
  free = λ l d. absurd d;
}

pub lock_info-Locked :
    (token : LockToken) (n : ℕ)
    → Locked (LockUses true token n) (LockUses false token n) (lock_info token n)
unfolding lock_info
lock_info-Locked token_older n = record {
  covered = λ l s. rw s (ground arith);
  free = λ l d. absurd d;
}
lock_info-Locked token_after n = record {
  covered = λ l s. rw s (ground arith);
  free = λ l d. absurd d;
}

-- Neither keys nor multisig use locks.
pub key_info-Locked :
    (token : KeyToken) → Ensures (Locked (Exactly no_locks) (Exactly no_locks)) (key_info token)
unfolding key_info
key_info-Locked token_wpkh = failure
key_info-Locked token_pk =
    success (record { covered = no_locks-covers _ _ _ _ true; free = λ l d. d })
key_info-Locked token_pkh =
    success (record { covered = no_locks-covers _ _ _ _ true; free = λ l d. d })
key_info-Locked token_pk_k =
    success (record { covered = no_locks-covers _ _ _ _ true; free = λ l d. d })
key_info-Locked token_pk_h =
    success (record { covered = no_locks-covers _ _ _ _ true; free = λ l d. d })

pub multisig_info-Locked :
    (token : MultisigToken) (k n : ℕ)
    → Ensures (Locked (Exactly no_locks) (Exactly no_locks)) (multisig_info token k n)
unfolding multisig_info
multisig_info-Locked token_multi k n =
    success (record { covered = no_locks-covers _ _ _ _ true; free = λ l d. d })
multisig_info-Locked _ k n = failure

pub wrapper_info-Locked :
    (token : ScriptToken) (S D : LocksUsed → Type 0) (x : ExtInfo)
    → Locked S D x
    → Ensures
        (Locked (WrapperUses true token S D) (WrapperUses false token S D))
        (wrapper_info token x)
unfolding wrapper_info
wrapper_info-Locked token_sh S D x p = failure
wrapper_info-Locked token_wsh S D x p = failure
wrapper_info-Locked token_a S D x p = success (record { covered = p.covered; free = p.free })
wrapper_info-Locked token_s S D x p = success (record { covered = p.covered; free = p.free })
wrapper_info-Locked token_n S D x p = success (record { covered = p.covered; free = p.free })
wrapper_info-Locked token_c S D x p = success (record { covered = p.covered; free = p.free })
wrapper_info-Locked token_t S D x p =
    success (record { covered = p.covered; free = λ l d. absurd d })
wrapper_info-Locked token_v S D x p =
    success (record { covered = p.covered; free = λ l d. absurd d })
wrapper_info-Locked token_d S D x p = success (record { covered = p.covered; free = λ l d. d })
wrapper_info-Locked token_j S D x p = success (record { covered = p.covered; free = λ l d. d })
wrapper_info-Locked token_l S D x p =
    success (record { covered = p.covered; free = OneOf-free (λ l d. d) p.free })
wrapper_info-Locked token_u S D x p =
    success (record { covered = p.covered; free = OneOf-free p.free (λ l d. d) })

pub script2_info-Locked :
    (token : Script2Token) (S D T E : LocksUsed → Type 0) (x y : ExtInfo)
    → Locked S D x
    → Locked T E y
    → Locked
        (Script2Uses true token S D T E)
        (Script2Uses false token S D T E)
        (script2_info token x y)
unfolding script2_info
script2_info-Locked token_and_v S D T E x y p q = record {
  covered = and-covers p q;
  free = λ l d. absurd d;
}
script2_info-Locked token_and_b S D T E x y p q = record {
  covered = and-covers p q;
  free = Both-free p.free q.free;
}
script2_info-Locked token_and_n S D T E x y p q = record { covered = and-covers p q; free = p.free }
script2_info-Locked token_or_b S D T E x y p q = record {
  covered = λ l o. elim o [
    | inl s ↦ left-covers p q l (Both-right q.free l s)
    | inr t ↦ right-covers p q l (Both-left p.free l t)
  ];
  free = Both-free p.free q.free;
}
script2_info-Locked token_or_c S D T E x y p q = record {
  covered = λ l o. elim o [
    | inl s ↦ left-covers p q l s
    | inr t ↦ right-covers p q l (Both-left p.free l t)
  ];
  free = λ l d. absurd d;
}
script2_info-Locked token_or_d S D T E x y p q = record {
  covered = λ l o. elim o [
    | inl s ↦ left-covers p q l s
    | inr t ↦ right-covers p q l (Both-left p.free l t)
  ];
  free = Both-free p.free q.free;
}
script2_info-Locked token_or_i S D T E x y p q = record {
  covered = λ l o. elim o [ inl s ↦ left-covers p q l s | inr t ↦ right-covers p q l t ];
  free = OneOf-free p.free q.free;
}

pub andor-covers :
    {S D T V : LocksUsed → Type 0} (x y z : ExtInfo)
    → Locked S D x
    → ((l : LocksUsed) → T l → covers y.g y.h y.i y.j y.k l ≡ true)
    → ((l : LocksUsed) → V l → covers z.g z.h z.i z.j z.k l ≡ true)
    → (l : LocksUsed) → OneOf (Both S T) (Both D V) l
    → covers
        (x.g || y.g || z.g)
        (x.h || y.h || z.h)
        (x.i || y.i || z.i)
        (x.j || y.j || z.j)
        (not (not (x.k && y.k && z.k) || mixes x y))
        l
      ≡ true
andor-covers x y z p q r l (inl (a, b, s, t, e)) = rw e (
    andor-left x y z (union a b) (covers-union _ _ _ _ x.k _ _ _ _ y.k a b (p.covered a s) (q b t)))
  where
    andor-left :
        (x y z : ExtInfo) (l : LocksUsed)
        → covers
            (x.g || y.g)
            (x.h || y.h)
            (x.i || y.i)
            (x.j || y.j)
            (not (not (x.k && y.k) || mixes x y))
            l
          ≡ true
        → covers
            (x.g || y.g || z.g)
            (x.h || y.h || z.h)
            (x.i || y.i || z.i)
            (x.j || y.j || z.j)
            (not (not (x.k && y.k && z.k) || mixes x y))
            l
          ≡ true
    andor-left x y z l h = ground arith
andor-covers x y z p q r l (inr (a, b, d, v, e)) =
    rw e (rw (p.free a d) (let h = r b v in ground arith))
