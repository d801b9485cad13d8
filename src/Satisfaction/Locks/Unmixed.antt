-- ===== src/Satisfaction/Locks/Unmixed.antt =====
-- The flag k of compute_miniscript_policy_ext_info (src/common/wallet.c): no satisfaction relies on
-- timelocks that exclude each other.
use ledger_app_syscoin.Base.{ℕ, Bool, true, false, ◌&&◌, ◌≡◌, some, arith, length, Ensures-some, ℤ}
use ledger_app_syscoin.Policy.{PolicyNode}
use ledger_app_syscoin.Policy.ExtInfo.{ExtInfo}
use ledger_app_syscoin.Policy.ExtInfo.Leaves.{hash_info}
use ledger_app_syscoin.Policy.ExtInfo.Scripts.{andor_info}
use ledger_app_syscoin.Policy.ExtInfo.Induction.{Rules, compute_miniscript_policy_ext_info-Ensures}
use ledger_app_syscoin.Policy.ExtInfo.Compute.{compute_miniscript_policy_ext_info}
use ledger_app_syscoin.Satisfaction.Locks.{LocksUsed, Uses}
use ledger_app_syscoin.Satisfaction.Locks.Covers.{covers, Both-free}
use ledger_app_syscoin.Satisfaction.Locks.Nodes.{
  no_locks-covers, constant_info-Locked, lock_info-Locked, key_info-Locked, multisig_info-Locked,
  wrapper_info-Locked, script2_info-Locked, andor-covers,
}
use ledger_app_syscoin.Satisfaction.Locks.Thresh.{LocksRight, thresh_info-Locked}

LocksRight-Rules : (leftover : ℕ → ℤ) → Rules leftover LocksRight
unfolding hash_info andor_info
LocksRight-Rules leftover = record {
  of_constant = constant_info-Locked;
  of_script = λ token x t h. wrapper_info-Locked token _ _ t h;
  of_script2 = λ token x y t u h i. script2_info-Locked token _ _ _ _ t u h i;
  of_andor = λ x y z t u v h i j. record {
    covered = andor-covers t u v h i.covered j.covered;
    free = Both-free h.free j.free;
  };
  of_key = λ token key. key_info-Locked token;
  of_uint32 = lock_info-Locked;
  of_multisig = λ token k keys. multisig_info-Locked token k (length keys);
  of_thresh = λ k xs ts h. thresh_info-Locked leftover k xs ts h;
  of_hash = λ token h. record { covered = no_locks-covers _ _ _ _ true; free = λ l d. absurd d };
}

covers-unmixed :
    (g h i j k : Bool) (l : LocksUsed)
    → k ≡ true
    → covers g h i j k l ≡ true
    → (l.relative_time && l.relative_height ≡ false)
      × (l.absolute_time && l.absolute_height ≡ false)
covers-unmixed g h i j k l e c = ground arith

-- If the analysis of a script succeeds and sets k, then no canonical satisfaction relies on a
-- relative lock by time and one by height, nor on an absolute lock by time and one by height.
pub compute_ext_info_unmixed :
    (leftover : ℕ → ℤ) (p : PolicyNode) (info : ExtInfo)
    → compute_miniscript_policy_ext_info leftover p ≡ some info
    → info.k ≡ true
    → (l : LocksUsed) → Uses true p l
    → (l.relative_time && l.relative_height ≡ false)
      × (l.absolute_time && l.absolute_height ≡ false)
compute_ext_info_unmixed leftover p info e k l u =
    let right =
      Ensures-some
        (compute_miniscript_policy_ext_info-Ensures leftover LocksRight (LocksRight-Rules leftover)
          p)
        e in
    let c = right.covered l u in covers-unmixed info.g info.h info.i info.j info.k l k c
