-- ===== src/Script/Size/Nodes.antt =====
-- The script_size of compute_miniscript_policy_ext_info (src/common/wallet.c) and the scripts of
-- get_wallet_internal_script_hash (src/handler/lib/policy.c), node by node.
use ledger_app_syscoin.Base.{
  ℕ, zero, suc, ◌+◌, ◌%◌, ◌^◌, ◌≤◌, ◌≡◌, Bool, true, false, ◌&&◌, ltb, some, List, [], ◌∷◌, length,
  length-append, Ensures, failure, success, Ensures->>=, Ensures-test, arith,
}
use ledger_app_syscoin.Policy.{
  ConstantToken, KeyToken, LockToken, HashToken, ScriptToken, Script2Token, KeyPlaceholder,
  PolicyNode, constant, with_script, with_script2, andor, with_key, with_uint32, multisig, thresh,
  with_hash, tr, Scriptlist, nil, cons, token_0, token_1, token_pk, token_pkh, token_wpkh,
  token_pk_k, token_pk_h, token_older, token_after, token_sha256, token_hash256, token_ripemd160,
  token_hash160, token_sh, token_wsh, token_a, token_s, token_c, token_t, token_d, token_v, token_j,
  token_n, token_l, token_u, token_and_v, token_and_b, token_and_n, token_or_b, token_or_c,
  token_or_d, token_or_i,
}
use ledger_app_syscoin.Policy.Types.{
  Flags, type_b, node_flags, wrapper_flags, script2_flags, andor_flags, key_flags,
}
use ledger_app_syscoin.Policy.ExtInfo.{bit, ExtInfo}
use ledger_app_syscoin.Policy.ExtInfo.Leaves.{constant_info, key_info, lock_info, hash_info}
use ledger_app_syscoin.Policy.ExtInfo.Scripts.{andor_info, script2_info}
use ledger_app_syscoin.Policy.ExtInfo.Wrappers.{wrapper_info}
use ledger_app_syscoin.Client.{Exchange}
use ledger_app_syscoin.Script.{
  Services, Command, op, op_v, push_pk, push_pkh, push_uint32, push_hash20, push_hash32,
  process_child, process_child_v, process_child_vv,
}
use ledger_app_syscoin.Script.Commands.{wsh, is_whitelisted}
use ledger_app_syscoin.Script.Output.{has_verify, op_v_bytes}
use ledger_app_syscoin.Script.Machine.{hash_of, number_of, process_pkh_wpkh_node, max_policy_depth}
use ledger_app_syscoin.Script.Emit.{
  Emitter, emit, emit_node, checked, emit_nth, emit_child, emit_commands,
}
use ledger_app_syscoin.Script.Size.{
  length-op_v_bytes, Fits, Emits, Emits-eq, commands_size, Needs, commands-Emits, size_of,
}

abbrev pub hash_length : HashToken → ℕ
hash_length token_sha256 = 32
hash_length token_hash256 = 32
hash_length token_ripemd160 = 20
hash_length token_hash160 = 20

-- The hashes of a policy have the lengths of the arrays that hold them.
unfoldable mutual
  pub HashesFit : PolicyNode → Type 0
  HashesFit (constant token) = Unit
  HashesFit (with_script token x) = HashesFit x
  HashesFit (with_script2 token x y) = HashesFit x × HashesFit y
  HashesFit (andor x y z) = HashesFit x × HashesFit y × HashesFit z
  HashesFit (with_key token key) = Unit
  HashesFit (with_uint32 token n) = Unit
  HashesFit (multisig token k keys) = Unit
  HashesFit (thresh k xs) = AllHashesFit xs
  HashesFit (with_hash token h) = hash_length token ≤ length h
  HashesFit (tr key tree) = Unit

  pub AllHashesFit : Scriptlist → Type 0
  AllHashesFit nil = Unit
  AllHashesFit (cons x xs) = HashesFit x × AllHashesFit xs

module _ (services : Services) (fits : Fits services) (leftover : ℕ) where
  -- The statement for one node: only a script of type B is emitted with the flag.
  abbrev pub SizedNode : PolicyNode → ExtInfo → Type 0
  SizedNode p t =
      (fl : Flags)
      → node_flags p ≡ some fl
      → HashesFit p
      → (flags : Bool) → (flags ≡ true → fl.kind ≡ type_b)
      → (depth : ℕ) (exchange : Exchange)
      → Emits (size_of t flags) (emit services wsh leftover p depth flags exchange)

  -- A node that process_generic_node handles.
  generic-Sized :
      (p : PolicyNode) (emitters : List Emitter) (child : ℕ → Bool → ℕ) (commands : List Command)
      (flags : Bool) (n : ℕ)
      → Needs emitters p child flags commands
      → commands_size p child flags commands % 2 ^ 16 ≡ n % 2 ^ 16
      → (depth : ℕ) (exchange : Exchange)
      → Emits n (
          checked wsh p
            (λ depth flags. emit_commands services wsh leftover emitters p depth flags commands)
            depth
            flags
            exchange)
  unfolding checked
  generic-Sized p emitters child commands flags n needs e depth exchange =
      Ensures-test (is_whitelisted wsh p) (λ allowed.
        Emits-eq _ _
          (commands-Emits services fits leftover emitters p child flags commands depth exchange
            needs)
          e)

  pub of_constant : (token : ConstantToken) → SizedNode (constant token) (constant_info token)
  unfolding emit constant_info has_verify
  of_constant token_0 fl e h flags b =
      generic-Sized (constant token_0) [] (λ i f. 0) (op_v 0x00 ∷ []) flags _ (tt, tt)
        (ground arith)
  of_constant token_1 fl e h flags b =
      generic-Sized (constant token_1) [] (λ i f. 0) (op_v 0x51 ∷ []) flags _ (tt, tt)
        (ground arith)

  pub of_uint32 : (token : LockToken) (n : ℕ) → SizedNode (with_uint32 token n) (lock_info token n)
  unfolding emit lock_info has_verify number_of
  of_uint32 token_older n fl e h flags b =
      generic-Sized (with_uint32 token_older n) [] (λ i f. 0) (push_uint32 ∷ op_v 0xb2 ∷ []) flags _
        (tt, (tt, tt)) (ground arith)
  of_uint32 token_after n fl e h flags b =
      generic-Sized (with_uint32 token_after n) [] (λ i f. 0) (push_uint32 ∷ op_v 0xb1 ∷ []) flags _
        (tt, (tt, tt)) (ground arith)

  abbrev pub emitter_of : PolicyNode → Emitter
  emitter_of x = checked wsh x (emit_node services wsh leftover x)

  -- The facts about a child that the node uses.
  abbrev pub ChildSized : PolicyNode → Flags → ExtInfo → Type 0
  ChildSized x fx t =
      (f : Bool)
      → (f ≡ true → fx.kind ≡ type_b)
      → (depth : ℕ) (exchange : Exchange)
      → Emits (size_of t f) (emit_child (emitter_of x) depth f exchange)

  pub unflagged :
      (x : PolicyNode) (fx : Flags) (t : ExtInfo)
      → ChildSized x fx t
      → (depth : ℕ) (exchange : Exchange)
      → Emits (size_of t false) (emit_child (emitter_of x) depth false exchange)
  unflagged x fx t c = c false (λ e. cc)

  -- What is proved of a child, for its parent.
  pub child-Sized :
      (x : PolicyNode) (t : ExtInfo) (fx : Flags)
      → SizedNode x t
      → node_flags x ≡ some fx
      → HashesFit x
      → ChildSized x fx t
  unfolding emit emit_child
  child-Sized x t fx h e fit f b depth exchange =
      Ensures-test (ltb (suc depth) max_policy_depth) (λ room. h fx e fit f b (suc depth) exchange)

  pub wrapper-Sized :
      (token : ScriptToken) (x : PolicyNode) (t : ExtInfo) (fx fl : Flags)
      → wrapper_flags token fx ≡ some fl
      → ChildSized x fx t
      → (flags : Bool) → (flags ≡ true → fl.kind ≡ type_b)
      → (depth : ℕ) (exchange : Exchange)
      → Ensures
          (λ u.
            Emits
              (size_of u flags)
              (emit services wsh leftover (with_script token x) depth flags exchange))
          (wrapper_info token t)
  unfolding emit wrapper_info wrapper_flags has_verify emit_nth
  wrapper-Sized token_a x t fx fl e c flags b depth exchange = success (
      generic-Sized (with_script token_a x) (emitter_of x ∷ []) (λ i f. size_of t f)
        (op 0x6b ∷ process_child 0 ∷ op 0x6c ∷ []) flags _ (tt, (unflagged x fx t c, (tt, tt)))
        (ground (arith, b)) depth exchange)
  wrapper-Sized token_s x t fx fl e c flags b depth exchange = success (
      generic-Sized (with_script token_s x) (emitter_of x ∷ []) (λ i f. size_of t f)
        (op 0x7c ∷ process_child 0 ∷ []) flags _ (tt, (unflagged x fx t c, tt)) (ground (arith, b))
        depth exchange)
  wrapper-Sized token_c x t fx fl e c flags b depth exchange = success (
      generic-Sized (with_script token_c x) (emitter_of x ∷ []) (λ i f. size_of t f)
        (process_child 0 ∷ op_v 0xac ∷ []) flags _ (unflagged x fx t c, (tt, tt))
        (ground (arith, b)) depth exchange)
  wrapper-Sized token_t x t fx fl e c flags b depth exchange = success (
      generic-Sized (with_script token_t x) (emitter_of x ∷ []) (λ i f. size_of t f)
        (process_child 0 ∷ op_v 0x51 ∷ []) flags _ (unflagged x fx t c, (tt, tt))
        (ground (arith, b)) depth exchange)
  wrapper-Sized token_d x t fx fl e c flags b depth exchange = success (
      generic-Sized (with_script token_d x) (emitter_of x ∷ []) (λ i f. size_of t f)
        (op 0x76 ∷ op 0x63 ∷ process_child 0 ∷ op_v 0x68 ∷ []) flags _
        (tt, (tt, (unflagged x fx t c, (tt, tt)))) (ground (arith, b)) depth exchange)
  wrapper-Sized token_v x t fx fl e c flags b depth exchange = success (
      generic-Sized (with_script token_v x) (emitter_of x ∷ []) (λ i f. size_of t f)
        (process_child_vv 0 ∷ []) flags _ (c true (λ i. ground arith), tt) (ground (arith, b)) depth
        exchange)
  wrapper-Sized token_j x t fx fl e c flags b depth exchange = success (
      generic-Sized (with_script token_j x) (emitter_of x ∷ []) (λ i f. size_of t f)
        (op 0x82 ∷ op 0x92 ∷ op 0x63 ∷ process_child 0 ∷ op_v 0x68 ∷ []) flags _
        (tt, (tt, (tt, (unflagged x fx t c, (tt, tt))))) (ground (arith, b)) depth exchange)
  wrapper-Sized token_n x t fx fl e c flags b depth exchange = success (
      generic-Sized (with_script token_n x) (emitter_of x ∷ []) (λ i f. size_of t f)
        (process_child 0 ∷ op_v 0x92 ∷ []) flags _ (unflagged x fx t c, (tt, tt))
        (ground (arith, b)) depth exchange)
  wrapper-Sized token_l x t fx fl e c flags b depth exchange = success (
      generic-Sized (with_script token_l x) (emitter_of x ∷ []) (λ i f. size_of t f)
        (op 0x63 ∷ op 0x00 ∷ op 0x67 ∷ process_child 0 ∷ op_v 0x68 ∷ []) flags _
        (tt, (tt, (tt, (unflagged x fx t c, (tt, tt))))) (ground (arith, b)) depth exchange)
  wrapper-Sized token_u x t fx fl e c flags b depth exchange = success (
      generic-Sized (with_script token_u x) (emitter_of x ∷ []) (λ i f. size_of t f)
        (op 0x63 ∷ process_child 0 ∷ op 0x67 ∷ op 0x00 ∷ op_v 0x68 ∷ []) flags _
        (tt, (unflagged x fx t c, (tt, (tt, (tt, tt))))) (ground (arith, b)) depth exchange)
  wrapper-Sized token_sh x t fx fl e c flags b depth exchange = failure
  wrapper-Sized token_wsh x t fx fl e c flags b depth exchange = failure

  abbrev pair_size : ExtInfo → ExtInfo → ℕ → Bool → ℕ
  pair_size t u zero = size_of t
  pair_size t u (suc i) = size_of u

  abbrev triple_size : ExtInfo → ExtInfo → ExtInfo → ℕ → Bool → ℕ
  triple_size t u v zero = size_of t
  triple_size t u v (suc i) = pair_size u v i

  pub script2-Sized :
      (token : Script2Token) (x y : PolicyNode) (t u : ExtInfo) (fx fy fl : Flags)
      → script2_flags token fx fy ≡ some fl
      → ChildSized x fx t
      → ChildSized y fy u
      → (flags : Bool) → (flags ≡ true → fl.kind ≡ type_b)
      → (depth : ℕ) (exchange : Exchange)
      → Emits
          (size_of (script2_info token t u) flags)
          (emit services wsh leftover (with_script2 token x y) depth flags exchange)
  unfolding emit script2_info script2_flags has_verify emit_nth
  script2-Sized token_and_v x y t u fx fy fl e c d flags b =
      generic-Sized (with_script2 token_and_v x y) (emitter_of x ∷ emitter_of y ∷ [])
        (pair_size t u) (process_child 0 ∷ process_child_v 1 ∷ []) flags _
        (unflagged x fx t c, (d flags (λ i. ground (arith, b i)), tt)) (ground (arith, b))
  script2-Sized token_and_b x y t u fx fy fl e c d flags b =
      generic-Sized (with_script2 token_and_b x y) (emitter_of x ∷ emitter_of y ∷ [])
        (pair_size t u) (process_child 0 ∷ process_child 1 ∷ op_v 0x9a ∷ []) flags _
        (unflagged x fx t c, (unflagged y fy u d, (tt, tt))) (ground (arith, b))
  script2-Sized token_and_n x y t u fx fy fl e c d flags b =
      generic-Sized (with_script2 token_and_n x y) (emitter_of x ∷ emitter_of y ∷ [])
        (pair_size t u)
        (process_child 0 ∷ op 0x64 ∷ op 0x00 ∷ op 0x67 ∷ process_child 1 ∷ op_v 0x68 ∷ []) flags _
        (unflagged x fx t c, (tt, (tt, (tt, (unflagged y fy u d, (tt, tt)))))) (ground (arith, b))
  script2-Sized token_or_b x y t u fx fy fl e c d flags b =
      generic-Sized (with_script2 token_or_b x y) (emitter_of x ∷ emitter_of y ∷ []) (pair_size t u)
        (process_child 0 ∷ process_child 1 ∷ op_v 0x9b ∷ []) flags _
        (unflagged x fx t c, (unflagged y fy u d, (tt, tt))) (ground (arith, b))
  script2-Sized token_or_c x y t u fx fy fl e c d flags b =
      generic-Sized (with_script2 token_or_c x y) (emitter_of x ∷ emitter_of y ∷ []) (pair_size t u)
        (process_child 0 ∷ op 0x64 ∷ process_child 1 ∷ op_v 0x68 ∷ []) flags _
        (unflagged x fx t c, (tt, (unflagged y fy u d, (tt, tt)))) (ground (arith, b))
  script2-Sized token_or_d x y t u fx fy fl e c d flags b =
      generic-Sized (with_script2 token_or_d x y) (emitter_of x ∷ emitter_of y ∷ []) (pair_size t u)
        (process_child 0 ∷ op 0x73 ∷ op 0x64 ∷ process_child 1 ∷ op_v 0x68 ∷ []) flags _
        (unflagged x fx t c, (tt, (tt, (unflagged y fy u d, (tt, tt))))) (ground (arith, b))
  script2-Sized token_or_i x y t u fx fy fl e c d flags b =
      generic-Sized (with_script2 token_or_i x y) (emitter_of x ∷ emitter_of y ∷ []) (pair_size t u)
        (op 0x63 ∷ process_child 0 ∷ op 0x67 ∷ process_child 1 ∷ op_v 0x68 ∷ []) flags _
        (tt, (unflagged x fx t c, (tt, (unflagged y fy u d, (tt, tt))))) (ground (arith, b))

  pub andor-Sized :
      (x y z : PolicyNode) (t u v : ExtInfo) (fx fy fz fl : Flags)
      → andor_flags fx fy fz ≡ some fl
      → ChildSized x fx t
      → ChildSized y fy u
      → ChildSized z fz v
      → (flags : Bool) (depth : ℕ) (exchange : Exchange)
      → Emits
          (size_of (andor_info t u v) flags)
          (emit services wsh leftover (andor x y z) depth flags exchange)
  unfolding emit andor_info has_verify emit_nth
  andor-Sized x y z t u v fx fy fz fl e c d g flags =
      generic-Sized (andor x y z) (emitter_of x ∷ emitter_of y ∷ emitter_of z ∷ [])
        (triple_size t u v)
        (process_child 0 ∷ op 0x64 ∷ process_child 2 ∷ op 0x67 ∷ process_child 1 ∷ op_v 0x68 ∷ [])
        flags _
        (unflagged x fx t c, (tt, (unflagged z fz v g, (tt, (unflagged y fy u d, (tt, tt))))))
        (ground arith)

  pub key-Sized :
      (token : KeyToken) (key : KeyPlaceholder) (flags : Bool)
      → (flags ≡ true → (key_flags token).kind ≡ type_b)
      → (depth : ℕ) (exchange : Exchange)
      → Ensures
          (λ u.
            Emits
              (size_of u flags)
              (emit services wsh leftover (with_key token key) depth flags exchange))
          (key_info token)
  unfolding emit key_info key_flags has_verify process_pkh_wpkh_node
  key-Sized token_pk key flags b depth exchange = success (
      generic-Sized (with_key token_pk key) [] (λ i f. 0) (push_pk ∷ op_v 0xac ∷ []) flags _
        (tt, (tt, tt)) (ground (arith, b)) depth exchange)
  key-Sized token_pk_k key flags b depth exchange = success (
      generic-Sized (with_key token_pk_k key) [] (λ i f. 0) (push_pk ∷ []) flags _ (tt, tt)
        (ground (arith, b)) depth exchange)
  key-Sized token_pk_h key flags b depth exchange = success (
      generic-Sized (with_key token_pk_h key) [] (λ i f. 0)
        (op 0x76 ∷ op 0xa9 ∷ push_pkh ∷ op 0x88 ∷ []) flags _ (tt, (tt, (tt, (tt, tt))))
        (ground (arith, b)) depth exchange)
  key-Sized token_pkh key flags b depth exchange = success (pkh flags)
    where
      pkh :
          (flags : Bool)
          → Emits
              (25 + bit (flags && false))
              (emit services wsh leftover (with_key token_pkh key) depth flags exchange)
      pkh flags = Ensures->>= (fits.pubkey key exchange) (λ (pubkey, exchange') l. success (
          omega (
            arith,
            fits.hash160 pubkey,
            length-append (services.hash160 pubkey) (0x88 ∷ op_v_bytes flags 0xac),
            length-op_v_bytes flags 0xac,
          )))
  key-Sized token_wpkh key flags b depth exchange = failure

  pub hash-Sized :
      (token : HashToken) (h : List ℕ)
      → hash_length token ≤ length h
      → (flags : Bool) (depth : ℕ) (exchange : Exchange)
      → Emits
          (size_of (hash_info token) flags)
          (emit services wsh leftover (with_hash token h) depth flags exchange)
  unfolding emit hash_info has_verify hash_of
  hash-Sized token_sha256 h fits_h flags =
      generic-Sized (with_hash token_sha256 h) [] (λ i f. 0)
        (op 0x82 ∷ op 1 ∷ op 32 ∷ op 0x88 ∷ op 0xa8 ∷ push_hash32 ∷ op_v 0x87 ∷ []) flags _
        (tt, (tt, (tt, (tt, (tt, ((λ h' e. ground arith), (tt, tt))))))) (ground arith)
  hash-Sized token_hash256 h fits_h flags =
      generic-Sized (with_hash token_hash256 h) [] (λ i f. 0)
        (op 0x82 ∷ op 1 ∷ op 32 ∷ op 0x88 ∷ op 0xaa ∷ push_hash32 ∷ op_v 0x87 ∷ []) flags _
        (tt, (tt, (tt, (tt, (tt, ((λ h' e. ground arith), (tt, tt))))))) (ground arith)
  hash-Sized token_ripemd160 h fits_h flags =
      generic-Sized (with_hash token_ripemd160 h) [] (λ i f. 0)
        (op 0x82 ∷ op 1 ∷ op 32 ∷ op 0x88 ∷ op 0xa6 ∷ push_hash20 ∷ op_v 0x87 ∷ []) flags _
        (tt, (tt, (tt, (tt, (tt, ((λ h' e. ground arith), (tt, tt))))))) (ground arith)
  hash-Sized token_hash160 h fits_h flags =
      generic-Sized (with_hash token_hash160 h) [] (λ i f. 0)
        (op 0x82 ∷ op 1 ∷ op 32 ∷ op 0x88 ∷ op 0xa9 ∷ push_hash20 ∷ op_v 0x87 ∷ []) flags _
        (tt, (tt, (tt, (tt, (tt, ((λ h' e. ground arith), (tt, tt))))))) (ground arith)
