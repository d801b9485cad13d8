-- ===== src/Sanity/Placeholders/Enumeration.antt =====
-- get_key_placeholder_by_index (src/handler/lib/policy.c) against the list of the placeholders.
use ledger_app_syscoin.Base.{
  ℕ, zero, suc, ◌-◌, ◌≤◌, ◌<◌, ◌≡◌, refl, ap, ◌∙◌, ltb, ltb→lt, ltb→le, Bool-cases, inl, inr,
  if◌then◌else◌, List, [], ◌∷◌, ◌++◌, length, length-append, get_or, arith,
}
use ledger_app_syscoin.Policy.{
  KeyPlaceholder, PolicyNode, constant, with_script, with_script2, andor, with_key, with_uint32,
  multisig, thresh, with_hash, tr, Scriptlist, nil, cons, Tree, null, leaf, branch,
}
use ledger_app_syscoin.Sanity.Placeholders.{
  next_script, first_key, get_key_placeholder_by_index, get_key_placeholder_in_scripts,
  get_key_placeholder_by_index_in_tree,
}

abbrev mutual
  -- The placeholders of a policy, from left to right.
  pub placeholders : PolicyNode → List KeyPlaceholder
  placeholders (constant token) = []
  placeholders (with_script token x) = placeholders x
  placeholders (with_script2 token x y) = placeholders x ++ placeholders y
  placeholders (andor x y z) = (placeholders x ++ placeholders y) ++ placeholders z
  placeholders (with_key token key) = key ∷ []
  placeholders (with_uint32 token n) = []
  placeholders (multisig token k keys) = keys
  placeholders (thresh k xs) = scriptlist_placeholders xs
  placeholders (with_hash token h) = []
  placeholders (tr key tree) = key ∷ tree_placeholders tree

  pub scriptlist_placeholders : Scriptlist → List KeyPlaceholder
  scriptlist_placeholders nil = []
  scriptlist_placeholders (cons x xs) = placeholders x ++ scriptlist_placeholders xs

  pub tree_placeholders : Tree → List KeyPlaceholder
  tree_placeholders null = []
  tree_placeholders (leaf x) = placeholders x
  tree_placeholders (branch x y) = tree_placeholders x ++ tree_placeholders y

-- The number of the placeholders, and the i-th one, or what was there before.
abbrev entry : List KeyPlaceholder → ℕ → KeyPlaceholder → ℕ × KeyPlaceholder
entry keys i out = (length keys, get_or keys i out)

get_or-append_left :
    (xs ys : List KeyPlaceholder) (i : ℕ) (d : KeyPlaceholder)
    → i < length xs
    → get_or (xs ++ ys) i d ≡ get_or xs i d
get_or-append_left [] ys i d h = absurd (omega arith)
get_or-append_left (x ∷ xs) ys zero d h = refl
get_or-append_left (x ∷ xs) ys (suc i) d h = get_or-append_left xs ys i d (omega arith)

get_or-append_right :
    (xs ys : List KeyPlaceholder) (i : ℕ) (d : KeyPlaceholder)
    → length xs ≤ i
    → get_or (xs ++ ys) i d ≡ get_or ys (i - length xs) d
get_or-append_right [] ys i d h = ap (λ j. get_or ys j d) {x = i} {y = i - 0} (omega arith)
get_or-append_right (x ∷ xs) ys zero d h = absurd (omega arith)
get_or-append_right (x ∷ xs) ys (suc i) d h =
    get_or-append_right xs ys i d (omega arith)
    ∙ ap (λ j. get_or ys j d) {x = i - length xs} {y = suc i - suc (length xs)} (omega arith)

get_or-outside :
    (xs : List KeyPlaceholder) (i : ℕ) (d : KeyPlaceholder) → length xs ≤ i → get_or xs i d ≡ d
get_or-outside [] i d h = refl
get_or-outside (x ∷ xs) zero d h = absurd (omega arith)
get_or-outside (x ∷ xs) (suc i) d h = get_or-outside xs i d (omega arith)

next_script-entry :
    (xs ys : List KeyPlaceholder) (i : ℕ) (d : KeyPlaceholder)
    (get : ℕ → KeyPlaceholder → ℕ × KeyPlaceholder)
    → ((j : ℕ) (e : KeyPlaceholder) → get j e ≡ entry ys j e)
    → next_script i (entry xs i d) get ≡ entry (xs ++ ys) i d
unfolding next_script
next_script-entry xs ys i d get h =
    rw (h (if ltb i (length xs) then 0 else i - length xs) (get_or xs i d))
      (elim (Bool-cases (ltb i (length xs))) [
        | inl found ↦
            rw (found, length-append xs ys, get_or-append_left xs ys i d (ltb→lt _ _ found)) refl
        | inr beyond ↦
            let past = ltb→le _ _ beyond in
            rw
              (
                beyond,
                length-append xs ys,
                get_or-append_right xs ys i d past,
                get_or-outside xs i d past,
              )
              refl
      ])

next_script-join :
    (xs ys : List KeyPlaceholder) (i : ℕ) (d : KeyPlaceholder) (r : ℕ × KeyPlaceholder)
    (get : ℕ → KeyPlaceholder → ℕ × KeyPlaceholder)
    → r ≡ entry xs i d
    → ((j : ℕ) (e : KeyPlaceholder) → get j e ≡ entry ys j e)
    → next_script i r get ≡ entry (xs ++ ys) i d
next_script-join xs ys i d r get e h =
    ap (λ r. next_script i r get) e ∙ next_script-entry xs ys i d get h

first_key-entry :
    (key : KeyPlaceholder) (i : ℕ) (d : KeyPlaceholder) → first_key key i d ≡ entry (key ∷ []) i d
unfolding first_key
first_key-entry key zero d = refl
first_key-entry key (suc i) d = refl

append_assoc : (xs ys zs : List KeyPlaceholder) → (xs ++ ys) ++ zs ≡ xs ++ (ys ++ zs)
append_assoc [] ys zs = refl
append_assoc (x ∷ xs) ys zs = ap (λ l. x ∷ l) (append_assoc xs ys zs)

append_nil : (xs : List KeyPlaceholder) → xs ≡ xs ++ []
append_nil [] = refl
append_nil (x ∷ xs) = ap (λ l. x ∷ l) (append_nil xs)

mutual
  unfolding get_key_placeholder_by_index

  in_policy :
      (p : PolicyNode) (i : ℕ) (out : KeyPlaceholder)
      → get_key_placeholder_by_index p i out
        ≡ (length (placeholders p), get_or (placeholders p) i out)
  in_policy (constant token) i d = refl
  in_policy (with_script token x) i d = in_policy x i d
  in_policy (with_script2 token x y) i d = rw (in_policy x i d) (
      next_script-entry (placeholders x) (placeholders y) i d (get_key_placeholder_by_index y)
        (in_policy y))
  in_policy (andor x y z) i d =
      next_script-join (placeholders x ++ placeholders y) (placeholders z) i d _
        (get_key_placeholder_by_index z)
        (next_script-join (placeholders x) (placeholders y) i d _ (get_key_placeholder_by_index y)
          (in_policy x i d) (in_policy y))
        (in_policy z)
  in_policy (with_key token key) i d = first_key-entry key i d
  in_policy (with_uint32 token n) i d = refl
  in_policy (multisig token k keys) i d = refl
  in_policy (thresh k xs) i d = in_scripts xs [] i d
  in_policy (with_hash token h) i d = refl
  in_policy (tr key tree) i d = rw (first_key-entry key i d) (
      next_script-entry (key ∷ []) (tree_placeholders tree) i d
        (get_key_placeholder_by_index_in_tree tree) (in_tree tree))

  in_scripts :
      (xs : Scriptlist) (before : List KeyPlaceholder) (i : ℕ) (d : KeyPlaceholder)
      → get_key_placeholder_in_scripts xs i (entry before i d)
        ≡ entry (before ++ scriptlist_placeholders xs) i d
  in_scripts nil before i d = ap (λ l. entry l i d) (append_nil before)
  in_scripts (cons x xs) before i d =
      rw
        (next_script-entry before (placeholders x) i d (get_key_placeholder_by_index x)
          (in_policy x))
        (in_scripts xs (before ++ placeholders x) i d
          ∙ ap (λ l. entry l i d)
              (append_assoc before (placeholders x) (scriptlist_placeholders xs)))

  in_tree :
      (t : Tree) (i : ℕ) (d : KeyPlaceholder)
      → get_key_placeholder_by_index_in_tree t i d ≡ entry (tree_placeholders t) i d
  in_tree null i d = refl
  in_tree (leaf x) i d = in_policy x i d
  in_tree (branch x y) i d = rw (in_tree x i d) (
      next_script-entry (tree_placeholders x) (tree_placeholders y) i d
        (get_key_placeholder_by_index_in_tree y) (in_tree y))

-- The result of get_key_placeholder_by_index is the number of the placeholders of the policy, and its
-- output is the i-th one from the left, or unchanged if there is none.
pub get_key_placeholder_by_index-entry :
    (p : PolicyNode) (i : ℕ) (out : KeyPlaceholder)
    → get_key_placeholder_by_index p i out
      ≡ (length (placeholders p), get_or (placeholders p) i out)
get_key_placeholder_by_index-entry p i out = in_policy p i out
