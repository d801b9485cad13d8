-- ===== src/Satisfaction.antt =====
-- What it costs to satisfy a script: an independent description of the witnesses of miniscript,
-- against which the analysis of src/common/wallet.c is proved. For each fragment it says how a
-- witness is put together from signatures, other stack elements and the witnesses of the children;
-- a measure counts them. Only the canonical satisfactions and dissatisfactions are described.
pub mod Sets
pub mod Thresh
pub mod Stack
pub mod Ops
pub mod Andor
pub mod Signatures
pub mod Locks
mod Examples
use ledger_app_syscoin.Base.{ℕ, zero, suc, ◌+◌, ◌*◌, ◌≤◌, Bool, true, false, List, length, ◌≡◌}
use ledger_app_syscoin.Policy.{
  ConstantToken, KeyToken, MultisigToken, LockToken, HashToken, ScriptToken, Script2Token,
  KeyPlaceholder, PolicyNode, constant, with_script, with_script2, andor, with_key, with_uint32,
  multisig, thresh, with_hash, tr, Scriptlist, nil, cons, size, token_0, token_1, token_pk, Tree,
  null, leaf, branch, token_pkh, token_wpkh, token_pk_k, token_pk_h, token_multi, token_multi_a,
  token_sortedmulti, token_sortedmulti_a, token_older, token_after, token_sha256, token_hash256,
  token_ripemd160, token_hash160, token_sh, token_wsh, token_a, token_s, token_c, token_t, token_d,
  token_v, token_j, token_n, token_l, token_u, token_and_v, token_and_b, token_and_n, token_or_b,
  token_or_c, token_or_d, token_or_i,
}
use ledger_app_syscoin.Satisfaction.Sets.{Only, Sum, Either, Never}
use ledger_app_syscoin.Policy.Types.{max_pubkeys_per_multisig}

pub record Measure : Type 0 where
  pub signature : ℕ
  pub element : ℕ
  pub checkmultisig : ℕ → ℕ

-- The elements of the initial stack.
abbrev pub stack_elements : Measure
stack_elements = record { signature = 1; element = 1; checkmultisig = λ n. 0 }

-- The signatures among them.
abbrev pub signatures : Measure
signatures = record { signature = 1; element = 0; checkmultisig = λ n. 0 }

-- The keys of the CHECKMULTISIG opcodes that are executed.
abbrev pub multisig_keys : Measure
multisig_keys = record { signature = 0; element = 0; checkmultisig = λ n. n }

-- A satisfaction if the flag is true, or a dissatisfaction.
abbrev pub ConstantCosts : Bool → ConstantToken → ℕ → Type 0
ConstantCosts true token_0 = Never
ConstantCosts true token_1 = Only 0
ConstantCosts false token_0 = Only 0
ConstantCosts false token_1 = Never

abbrev pub KeyCosts : Measure → Bool → KeyToken → ℕ → Type 0
KeyCosts μ true token_pk = Only μ.signature
KeyCosts μ true token_pk_k = Only μ.signature
KeyCosts μ true token_pkh = Only (μ.signature + μ.element)
KeyCosts μ true token_pk_h = Only (μ.signature + μ.element)
KeyCosts μ true token_wpkh = Never
KeyCosts μ false token_pk = Only μ.element
KeyCosts μ false token_pk_k = Only μ.element
KeyCosts μ false token_pkh = Only (μ.element + μ.element)
KeyCosts μ false token_pk_h = Only (μ.element + μ.element)
KeyCosts μ false token_wpkh = Never

-- The dummy element that CHECKMULTISIG pops, and k signatures or k empty elements.
abbrev pub MultisigCosts : Measure → Bool → MultisigToken → ℕ → ℕ → ℕ → Type 0
MultisigCosts μ true token_multi k n = Only (k * μ.signature + μ.element + μ.checkmultisig n)
MultisigCosts μ false token_multi k n = Only (k * μ.element + μ.element + μ.checkmultisig n)
MultisigCosts μ sat _ k n = Never

abbrev pub HashCosts : Measure → Bool → ℕ → Type 0
HashCosts μ true = Only μ.element
HashCosts μ false = Never

abbrev pub LockCosts : Bool → ℕ → Type 0
LockCosts true = Only 0
LockCosts false = Never

-- By the costs of satisfying and of dissatisfying the wrapped script.
abbrev pub WrapperCosts : Measure → Bool → ScriptToken → (ℕ → Type 0) → (ℕ → Type 0) → ℕ → Type 0
WrapperCosts μ true token_a sat dsat = sat
WrapperCosts μ true token_s sat dsat = sat
WrapperCosts μ true token_c sat dsat = sat
WrapperCosts μ true token_n sat dsat = sat
WrapperCosts μ true token_t sat dsat = sat
WrapperCosts μ true token_v sat dsat = sat
WrapperCosts μ true token_j sat dsat = sat
WrapperCosts μ true token_d sat dsat = Sum (Only μ.element) sat
WrapperCosts μ true token_l sat dsat = Sum (Only μ.element) sat
WrapperCosts μ true token_u sat dsat = Sum (Only μ.element) sat
WrapperCosts μ false token_a sat dsat = dsat
WrapperCosts μ false token_s sat dsat = dsat
WrapperCosts μ false token_c sat dsat = dsat
WrapperCosts μ false token_n sat dsat = dsat
WrapperCosts μ false token_d sat dsat = Only μ.element
WrapperCosts μ false token_j sat dsat = Only μ.element
WrapperCosts μ false token_l sat dsat = Either (Only μ.element) (Sum (Only μ.element) dsat)
WrapperCosts μ false token_u sat dsat = Either (Sum (Only μ.element) dsat) (Only μ.element)
WrapperCosts μ _ _ sat dsat = Never

abbrev pub Script2Costs :
    Measure
    → Bool
    → Script2Token
    → (ℕ → Type 0)
    → (ℕ → Type 0)
    → (ℕ → Type 0)
    → (ℕ → Type 0)
    → ℕ
    → Type 0
Script2Costs μ true token_and_v sx dx sy dy = Sum sx sy
Script2Costs μ true token_and_b sx dx sy dy = Sum sx sy
Script2Costs μ true token_and_n sx dx sy dy = Sum sx sy
Script2Costs μ true token_or_b sx dx sy dy = Either (Sum sx dy) (Sum dx sy)
Script2Costs μ true token_or_c sx dx sy dy = Either sx (Sum dx sy)
Script2Costs μ true token_or_d sx dx sy dy = Either sx (Sum dx sy)
Script2Costs μ true token_or_i sx dx sy dy =
    Either (Sum (Only μ.element) sx) (Sum (Only μ.element) sy)
Script2Costs μ false token_and_v sx dx sy dy = Never
Script2Costs μ false token_and_b sx dx sy dy = Sum dx dy
Script2Costs μ false token_and_n sx dx sy dy = dx
Script2Costs μ false token_or_b sx dx sy dy = Sum dx dy
Script2Costs μ false token_or_c sx dx sy dy = Never
Script2Costs μ false token_or_d sx dx sy dy = Sum dx dy
Script2Costs μ false token_or_i sx dx sy dy =
    Either (Sum (Only μ.element) dx) (Sum (Only μ.element) dy)

abbrev pub AndorCosts :
    Bool → (ℕ → Type 0) → (ℕ → Type 0) → (ℕ → Type 0) → (ℕ → Type 0) → (ℕ → Type 0) → ℕ → Type 0
AndorCosts true sx dx sy sz dz = Either (Sum sx sy) (Sum dx sz)
AndorCosts false sx dx sy sz dz = Sum dx dz

abbrev mutual
  pub Costs : Measure → Bool → PolicyNode → ℕ → Type 0
  Costs μ sat (constant token) = ConstantCosts sat token
  Costs μ sat (with_script token x) = WrapperCosts μ sat token (Costs μ true x) (Costs μ false x)
  Costs μ sat (with_script2 token x y) =
      Script2Costs μ sat token (Costs μ true x) (Costs μ false x) (Costs μ true y) (Costs μ false y)
  Costs μ sat (andor x y z) =
      AndorCosts sat (Costs μ true x) (Costs μ false x) (Costs μ true y) (Costs μ true z)
        (Costs μ false z)
  Costs μ sat (with_key token key) = KeyCosts μ sat token
  Costs μ sat (with_uint32 token n) = LockCosts sat
  Costs μ sat (multisig token k keys) = MultisigCosts μ sat token k (length keys)
  Costs μ sat (thresh k xs) = Chooses μ xs (elim sat [ true ↦ k | false ↦ 0 ])
  Costs μ sat (with_hash token h) = HashCosts μ sat
  Costs μ sat (tr key tree) = Never

  -- Exactly j of the scripts are satisfied, and the others are dissatisfied.
  pub Chooses : Measure → Scriptlist → ℕ → ℕ → Type 0
  Chooses μ nil zero = Only 0
  Chooses μ nil (suc j) = Never
  Chooses μ (cons x xs) zero = Sum (Costs μ false x) (Chooses μ xs zero)
  Chooses μ (cons x xs) (suc j) =
      Either (Sum (Costs μ false x) (Chooses μ xs (suc j))) (Sum (Costs μ true x) (Chooses μ xs j))

abbrev mutual
  -- The thresholds lie in range. `parse_script` checks this of multi, and of thresh only 1 ≤ k.
  pub ThresholdsFit : PolicyNode → Type 0
  ThresholdsFit (with_script token x) = ThresholdsFit x
  ThresholdsFit (with_script2 token x y) = ThresholdsFit x × ThresholdsFit y
  ThresholdsFit (andor x y z) = ThresholdsFit x × ThresholdsFit y × ThresholdsFit z
  ThresholdsFit (multisig token k keys) =
      (1 ≤ k) × (k ≤ length keys) × (length keys ≤ max_pubkeys_per_multisig)
  ThresholdsFit (thresh k xs) = (1 ≤ k) × (k ≤ size xs) × AllFit xs
  ThresholdsFit _ = Unit

  pub AllFit : Scriptlist → Type 0
  AllFit nil = Unit
  AllFit (cons x xs) = ThresholdsFit x × AllFit xs
