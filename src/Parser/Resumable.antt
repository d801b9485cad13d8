-- ===== src/Parser/Resumable.antt =====
-- Steps of src/common/parser.c that can be interrupted: run again with more data, a step that was
-- incomplete does what it would have done with all the data at once.
pub mod Steps
pub mod Rounds
pub mod Within
pub mod Start
use ledger_app_syscoin.Base.{
  ℕ, zero, suc, ◌-◌, ◌≡◌, refl, sym, ap, ◌∙◌, Bool, true, false, Option, none, some, List, [], ◌∷◌,
  ◌++◌, drop,
}
use ledger_app_syscoin.Parser.{Buffers, Reader, joined}
use ledger_app_syscoin.Parser.Reader.{Agree, nothing, just, Extended, starved, read, Lawful}
use ledger_app_syscoin.Parser.Run.{
  Outcome, completed, incomplete, failed, Step, finish, then_run, read_with, after_step, run_steps,
  parser_run, rounds,
}

-- The same result, and the same bytes left.
pub data Alike {S : Type 0} : Outcome S → Outcome S → Type 0 where
  completed_alike :
      {s : S} {b c : Buffers} → joined b ≡ joined c → Alike (completed s b) (completed s c)
  incomplete_alike :
      {s : S} {b c : Buffers} → joined b ≡ joined c → Alike (incomplete s b) (incomplete s c)
  failed_alike : {s : S} {b c : Buffers} → joined b ≡ joined c → Alike (failed s b) (failed s c)

-- What the step gives with `more` behind the data.
pub data Resumed {S : Type 0} (step : Step S) (more : List ℕ) : Outcome S → Outcome S → Type 0 where
  completed_more :
      {s : S} {b c : Buffers}
      → joined c ≡ joined b ++ more
      → Resumed step more (completed s b) (completed s c)
  failed_more :
      {s : S} {b c : Buffers}
      → joined c ≡ joined b ++ more
      → Resumed step more (failed s b) (failed s c)
  incomplete_more :
      {s : S} {b : Buffers} {o : Outcome S}
      → ((c : Buffers) → joined c ≡ joined b ++ more → Alike (step s c) o)
      → Resumed step more (incomplete s b) o

pub record Resumable {S : Type 0} (step : Step S) : Type 0 where
  pub alike : (s : S) (b c : Buffers) → joined b ≡ joined c → Alike (step s b) (step s c)
  pub resumed :
      (more : List ℕ) (s : S) (b c : Buffers)
      → joined c ≡ joined b ++ more
      → Resumed step more (step s b) (step s c)

pub data AllResumable {S : Type 0} : List (Step S) → Type 0 where
  no_step : AllResumable []
  and_step :
      {step : Step S} {steps : List (Step S)}
      → Resumable step
      → AllResumable steps
      → AllResumable (step ∷ steps)

module _ {S : Type 0} where
  finish-Alike :
      (r : Bool × S) (b c : Buffers) → joined b ≡ joined c → Alike (finish r b) (finish r c)
  finish-Alike (true, s) b c e = completed_alike e
  finish-Alike (false, s) b c e = failed_alike e

  finish-Resumed :
      {step : Step S} {more : List ℕ} (r : Bool × S) (b c : Buffers)
      → joined c ≡ joined b ++ more
      → Resumed step more (finish r b) (finish r c)
  finish-Resumed (true, s) b c e = completed_more e
  finish-Resumed (false, s) b c e = failed_more e

  read-Alike :
      {A : Type 0} {r r' : Option (A × Buffers)} (s : S) (b c : Buffers) (update : A → S → Bool × S)
      → joined b ≡ joined c
      → Agree r r'
      → Alike (read_with r s b update) (read_with r' s c update)
  read-Alike s b c update e nothing = incomplete_alike e
  read-Alike s b c update e (just e') = finish-Alike _ _ _ e'

  read-Resumed :
      {A : Type 0} {step : Step S} {more : List ℕ} {r r' : Option (A × Buffers)} (s : S)
      (b c : Buffers) (update : A → S → Bool × S)
      → ((d : Buffers) → joined d ≡ joined b ++ more → Alike (step s d) (read_with r' s c update))
      → Extended more r r'
      → Resumed step more (read_with r s b update) (read_with r' s c update)
  read-Resumed s b c update k starved = incomplete_more k
  read-Resumed s b c update k (read e) = finish-Resumed _ _ _ e

  pub Resumable-read :
      {A : Type 0} (reader : S → Reader A) (update : A → S → Bool × S)
      → ((s : S) → Lawful (reader s))
      → Resumable (λ s b. read_with (reader s b) s b update)
  Resumable-read reader update l = record {
    alike = λ s b c e. read-Alike s b c update e ((l s).agree b c e);
    resumed = λ more s b c e.
        read-Resumed s b c update
          (λ d e'. read-Alike s d c update (e' ∙ sym e) ((l s).agree d c (e' ∙ sym e)))
          ((l s).extended more b c e);
  }

  pub Resumable-pure : (f : S → S) → Resumable (λ s b. completed (f s) b)
  Resumable-pure f = record {
    alike = λ s b c e. completed_alike e;
    resumed = λ more s b c e. completed_more e;
  }

  Alike-then :
      {o o' : Outcome S} (next : Step S)
      → Alike o o'
      → ((s : S) (b c : Buffers) → joined b ≡ joined c → Alike (next s b) (next s c))
      → Alike (then_run o next) (then_run o' next)
  Alike-then next (completed_alike e) k = k _ _ _ e
  Alike-then next (incomplete_alike e) k = incomplete_alike e
  Alike-then next (failed_alike e) k = failed_alike e

  Alike-after :
      {o o' : Outcome S} (cur : ℕ) (next : S → Buffers → Outcome (ℕ × S))
      → Alike o o'
      → ((s : S) (b c : Buffers) → joined b ≡ joined c → Alike (next s b) (next s c))
      → Alike (after_step cur o next) (after_step cur o' next)
  Alike-after cur next (completed_alike e) k = k _ _ _ e
  Alike-after cur next (incomplete_alike e) k = incomplete_alike e
  Alike-after cur next (failed_alike e) k = failed_alike e
