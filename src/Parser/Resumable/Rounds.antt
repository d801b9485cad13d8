-- ===== src/Parser/Resumable/Rounds.antt =====
-- A loop in a step can be interrupted if its body can, and keeps count of its rounds.
use ledger_app_syscoin.Base.{ℕ, zero, suc, ◌≡◌, refl, List, ◌++◌}
use ledger_app_syscoin.Parser.{Buffers, joined}
use ledger_app_syscoin.Parser.Run.{Outcome, completed, incomplete, failed, Step, then_run, rounds}
use ledger_app_syscoin.Parser.Resumable.{
  Alike, Resumed, completed_more, failed_more, incomplete_more, completed_alike, Resumable,
  Alike-then,
}

-- After a round, `n` are left; an incomplete round counts as none.
pub data Counted {S : Type 0} (count : S → ℕ) (n : ℕ) : Outcome S → Type 0 where
  one_less : {s : S} {b : Buffers} → count s ≡ n → Counted count n (completed s b)
  unchanged : {s : S} {b : Buffers} → count s ≡ suc n → Counted count n (incomplete s b)
  given_up : {s : S} {b : Buffers} → Counted count n (failed s b)

module _ {S : Type 0} (count : S → ℕ) (body : Step S) (body_resumable : Resumable body)
    (counted : (n : ℕ) (s : S) (b : Buffers) → count s ≡ suc n → Counted count n (body s b)) where
  rounds-Alike :
      (n : ℕ) (s : S) (b c : Buffers)
      → joined b ≡ joined c
      → Alike (rounds n body s b) (rounds n body s c)
  unfolding rounds
  rounds-Alike zero s b c e = completed_alike e
  rounds-Alike (suc n) s b c e =
      Alike-then (rounds n body) (body_resumable.alike s b c e) (rounds-Alike n)

  then-Resumed :
      (more : List ℕ) (n : ℕ) {o o' : Outcome S}
      → Counted count n o
      → Resumed body more o o'
      → ((s : S) (b c : Buffers)
          → count s ≡ n
          → joined c ≡ joined b ++ more
          → Resumed (λ s b. rounds (count s) body s b) more (rounds n body s b) (rounds n body s c))
      → Resumed
          (λ s b. rounds (count s) body s b)
          more
          (then_run o (rounds n body))
          (then_run o' (rounds n body))
  unfolding rounds
  then-Resumed more n (one_less m) (completed_more e) k = k _ _ _ m e
  then-Resumed more n given_up (failed_more e) k = failed_more e
  then-Resumed more n (unchanged m) (incomplete_more {s} h) k =
      incomplete_more (λ c e. rw m (Alike-then (rounds n body) (h c e) (rounds-Alike n)))

  rounds-Resumed :
      (more : List ℕ) (n : ℕ) (s : S) (b c : Buffers)
      → count s ≡ n
      → joined c ≡ joined b ++ more
      → Resumed (λ s b. rounds (count s) body s b) more (rounds n body s b) (rounds n body s c)
  unfolding rounds
  rounds-Resumed more zero s b c m e = completed_more e
  rounds-Resumed more (suc n) s b c m e =
      then-Resumed more n (counted n s b m) (body_resumable.resumed more s b c e)
        (rounds-Resumed more n)

  pub rounds-Resumable : Resumable (λ s b. rounds (count s) body s b)
  rounds-Resumable = record {
    alike = λ s b c e. rounds-Alike (count s) s b c e;
    resumed = λ more s b c e. rounds-Resumed more (count s) s b c refl e;
  }
