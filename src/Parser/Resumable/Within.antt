-- ===== src/Parser/Resumable/Within.antt =====
-- A step on a part of the state can be interrupted if the step can.
use ledger_app_syscoin.Base.{ℕ, ◌≡◌, List}
use ledger_app_syscoin.Parser.Run.{Outcome, Step, within}
use ledger_app_syscoin.Parser.Resumable.{
  Alike, completed_alike, incomplete_alike, failed_alike, Resumed, completed_more, failed_more,
  incomplete_more, Resumable,
}

module _ {P T : Type 0} (get : P → T) (put : P → T → P) (step : P → Step T)
    (get-put : (p : P) (t : T) → get (put p t) ≡ t)
    (put-put : (p : P) (t : T) → put (put p t) ≡ put p)
    (step-put : (p : P) (t : T) → step (put p t) ≡ step p)
    (resumable : (p : P) → Resumable (step p)) where
  within-Alike :
      (p : P) {o o' : Outcome T} → Alike o o' → Alike (within (put p) o) (within (put p) o')
  within-Alike p (completed_alike e) = completed_alike e
  within-Alike p (incomplete_alike e) = incomplete_alike e
  within-Alike p (failed_alike e) = failed_alike e

  within-Resumed :
      (more : List ℕ) (p : P) {o o' : Outcome T}
      → Resumed (step p) more o o'
      → Resumed
          (λ p b. within (put p) (step p (get p) b))
          more
          (within (put p) o)
          (within (put p) o')
  within-Resumed more p (completed_more e) = completed_more e
  within-Resumed more p (failed_more e) = failed_more e
  within-Resumed more p (incomplete_more {s} h) =
      incomplete_more (λ c e. rw (get-put p s, put-put p s, step-put p s) (within-Alike p (h c e)))

  pub within-Resumable : Resumable (λ p b. within (put p) (step p (get p) b))
  within-Resumable = record {
    alike = λ p b c e. within-Alike p ((resumable p).alike (get p) b c e);
    resumed = λ more p b c e. within-Resumed more p ((resumable p).resumed more (get p) b c e);
  }
