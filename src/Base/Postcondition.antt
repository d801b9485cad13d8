-- ===== src/Base/Postcondition.antt =====
-- A postcondition of fallible code: it holds of the result, if there is one.
use mathlib.Core.Path.{◌≡◌, refl, subst}
use mathlib.Core.Option.{Option, none, some}
use mathlib.Core.Bool.{Bool, true, false}
use ledger_app_syscoin.Base.Tests.{◌>>=◌, ◌>>◌, guard}

pub data Ensures {ℓ κ} {A : Type ℓ} (P : A → Type κ) : Option A → Type (ℓ ⊔ κ) where
  failure : Ensures P none
  success : {a : A} → P a → Ensures P (some a)

pub Ensures->>= {ℓ κ μ ν} :
    {A : Type ℓ} {B : Type κ} {P : A → Type μ} {Q : B → Type ν} {m : Option A} {f : A → Option B}
    → Ensures P m
    → ((a : A) → P a → Ensures Q (f a))
    → Ensures Q (m >>= f)
Ensures->>= failure k = failure
Ensures->>= (success h) k = k _ h

pub Ensures-some {ℓ κ} :
    {A : Type ℓ} {P : A → Type κ} {m : Option A} {a : A} → Ensures P m → m ≡ some a → P a
Ensures-some failure e = cc
Ensures-some {P} (success h) e = subst P (cc) h

-- A hypothesis of the whole run may stand in the postcondition.
pub Ensures-under {ℓ κ μ} :
    {A : Type ℓ} {F : Type κ} {P : F → A → Type μ} (m : Option A)
    → ((f : F) → Ensures (P f) m)
    → Ensures (λ a. (f : F) → P f a) m
Ensures-under none h = failure
Ensures-under (some a) h = success (λ f. Ensures-some (h f) refl)

pub Ensures-mono {ℓ κ μ} :
    {A : Type ℓ} {P : A → Type κ} {Q : A → Type μ} {m : Option A}
    → ((a : A) → P a → Q a)
    → Ensures P m
    → Ensures Q m
Ensures-mono f failure = failure
Ensures-mono f (success h) = success (f _ h)

-- A step of a run, with the equation that says what it gave.
pub Ensures-each {ℓ κ μ} :
    {A : Type ℓ} {B : Type κ} {Q : B → Type μ} {f : A → Option B} (m : Option A)
    → ((a : A) → m ≡ some a → Ensures Q (f a))
    → Ensures Q (m >>= f)
Ensures-each none k = failure
Ensures-each (some a) k = k a refl

pub Ensures-test {κ μ} :
    {B : Type κ} {Q : B → Type μ} {m : Option B} (test : Bool)
    → (test ≡ true → Ensures Q m)
    → Ensures Q (guard test >> m)
Ensures-test false k = failure
Ensures-test true k = k refl

-- What holds of every result.
pub Ensures-result {ℓ κ} :
    {A : Type ℓ} {Q : A → Type κ} (m : Option A) → ((a : A) → m ≡ some a → Q a) → Ensures Q m
Ensures-result none k = failure
Ensures-result (some a) k = success (k a refl)
