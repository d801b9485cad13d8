-- ===== src/Parser/Resumable/Start.antt =====
-- A step that begins with a part that is done only once, as a flag says.
use ledger_app_syscoin.Base.{
  ℕ, zero, suc, ◌≡◌, refl, if◌then◌else◌, Bool, true, false, Option, none, some, List, ◌++◌,
}
use ledger_app_syscoin.Parser.{Buffers, joined}
use ledger_app_syscoin.Parser.Run.{
  Outcome, completed, incomplete, failed, Step, then_run, read_with, rounds, unless,
}
use ledger_app_syscoin.Parser.Resumable.Rounds.{Counted, unchanged, given_up}
use ledger_app_syscoin.Parser.Resumable.{
  Alike, completed_alike, Resumed, completed_more, failed_more, incomplete_more, Resumable,
  Alike-then,
}

-- The state of the outcome has the property, unless the step failed.
pub data Holds {S : Type 0} (Property : S → Type 0) : Outcome S → Type 0 where
  holds_completed : {s : S} {b : Buffers} → Property s → Holds Property (completed s b)
  holds_incomplete : {s : S} {b : Buffers} → Property s → Holds Property (incomplete s b)
  holds_failed : {s : S} {b : Buffers} → Holds Property (failed s b)

-- What the outcome says of a flag that is set when the part is done.
pub data Sets {S : Type 0} (flag : S → Bool) : Outcome S → Type 0 where
  flag_set : {s : S} {b : Buffers} → flag s ≡ true → Sets flag (completed s b)
  flag_unset : {s : S} {b : Buffers} → flag s ≡ false → Sets flag (incomplete s b)

-- An interruption leaves the flag set.
pub data Keeps {S : Type 0} (flag : S → Bool) : Outcome S → Type 0 where
  flag_kept : {s : S} {b : Buffers} → flag s ≡ true → Keeps flag (incomplete s b)
  flag_over : {s : S} {b : Buffers} → Keeps flag (completed s b)
  flag_lost : {s : S} {b : Buffers} → Keeps flag (failed s b)

module _ {S : Type 0} (Property : S → Type 0) where
  pub Holds-then :
      {o : Outcome S} {next : Step S}
      → Holds Property o
      → ((s : S) (b : Buffers) → Property s → Holds Property (next s b))
      → Holds Property (then_run o next)
  Holds-then (holds_completed p) k = k _ _ p
  Holds-then (holds_incomplete p) k = holds_incomplete p
  Holds-then holds_failed k = holds_failed

  pub Holds-rounds :
      (n : ℕ) {body : Step S}
      → ((s : S) (b : Buffers) → Property s → Holds Property (body s b))
      → (s : S) (b : Buffers) → Property s
      → Holds Property (rounds n body s b)
  unfolding rounds
  Holds-rounds zero k s b p = holds_completed p
  Holds-rounds (suc n) k s b p = Holds-then (k s b p) (Holds-rounds n k)

  pub Holds-unless :
      (t : Bool) (step : Step S) (s : S) (b : Buffers)
      → Property s
      → Holds Property (step s b)
      → Holds Property (unless t step s b)
  Holds-unless true step s b p h = holds_completed p
  Holds-unless false step s b p h = h

  pub Holds-read :
      {A : Type 0} (r : Option (A × Buffers)) (s : S) (b : Buffers) (f : A → S → S)
      → Property s
      → ((a : A) → Property (f a s))
      → Holds Property (read_with r s b (λ a s. (true, f a s)))
  Holds-read none s b f p k = holds_incomplete p
  Holds-read (some (a, b')) s b f p k = holds_completed (k a)

pub Sets-read :
    {S A : Type 0} (flag : S → Bool) (r : Option (A × Buffers)) (s : S) (b : Buffers)
    (f : A → S → S)
    → flag s ≡ false
    → ((a : A) → flag (f a s) ≡ true)
    → Sets flag (read_with r s b (λ a s. (true, f a s)))
Sets-read flag none s b f e k = flag_unset e
Sets-read flag (some (a, b')) s b f e k = flag_set (k a)

pub Keeps-Holds :
    {S : Type 0} {flag : S → Bool} {o : Outcome S} → Holds (λ s. flag s ≡ true) o → Keeps flag o
Keeps-Holds (holds_completed p) = flag_over
Keeps-Holds (holds_incomplete p) = flag_kept p
Keeps-Holds holds_failed = flag_lost

pub Counted-then :
    {S : Type 0} {count : S → ℕ} {n : ℕ} {o : Outcome S} (next : Step S)
    → Holds (λ s. count s ≡ suc n) o
    → ((s : S) (b : Buffers) → count s ≡ suc n → Counted count n (next s b))
    → Counted count n (then_run o next)
Counted-then next (holds_completed p) k = k _ _ p
Counted-then next (holds_incomplete p) k = unchanged p
Counted-then next holds_failed k = given_up

module _ {S : Type 0} (f : S → S) where
  pub Keeps-then :
      {flag : S → Bool} {o : Outcome S}
      → Holds (λ s. flag s ≡ true) o
      → Keeps flag (then_run o (λ s b. completed (f s) b))
  Keeps-then (holds_completed p) = flag_over
  Keeps-then (holds_incomplete p) = flag_kept p
  Keeps-then holds_failed = flag_lost

  module _ {step : Step S} (r : Resumable step) where
    done-Resumed :
        {more : List ℕ} {o o' : Outcome S}
        → Resumed step more o o'
        → Resumed
            (λ s b. then_run (step s b) (λ s b. completed (f s) b))
            more
            (then_run o (λ s b. completed (f s) b))
            (then_run o' (λ s b. completed (f s) b))
    done-Resumed (completed_more e) = completed_more e
    done-Resumed (failed_more e) = failed_more e
    done-Resumed (incomplete_more h) =
        incomplete_more (λ c e. Alike-then _ (h c e) (λ s b c e. completed_alike e))

    pub done-Resumable : Resumable (λ s b. then_run (step s b) (λ s b. completed (f s) b))
    done-Resumable = record {
      alike = λ s b c e. Alike-then _ (r.alike s b c e) (λ s b c e. completed_alike e);
      resumed = λ more s b c e. done-Resumed (r.resumed more s b c e);
    }

module _ {S : Type 0} (flag : S → Bool) (start rest : Step S) (start_resumable : Resumable start)
    (rest_resumable : Resumable rest)
    (sets : (s : S) (b : Buffers) → flag s ≡ false → Sets flag (start s b))
    (keeps : (s : S) (b : Buffers) → flag s ≡ true → Keeps flag (rest s b)) where
  abbrev whole : Step S
  whole s b = then_run (unless (flag s) start s b) rest

  unless-Alike :
      (t : Bool) (s : S) (b c : Buffers)
      → joined b ≡ joined c
      → Alike (unless t start s b) (unless t start s c)
  unless-Alike true s b c e = completed_alike e
  unless-Alike false s b c e = start_resumable.alike s b c e

  rest-Resumed :
      (more : List ℕ) {o o' : Outcome S}
      → Keeps flag o
      → Resumed rest more o o'
      → Resumed whole more o o'
  rest-Resumed more k (completed_more e) = completed_more e
  rest-Resumed more k (failed_more e) = failed_more e
  rest-Resumed more (flag_kept e) (incomplete_more h) = incomplete_more (λ c e'. rw e (h c e'))

  start-Resumed :
      (more : List ℕ) {o o' : Outcome S}
      → Sets flag o
      → Resumed start more o o'
      → Resumed whole more (then_run o rest) (then_run o' rest)
  start-Resumed more (flag_set {s} {b} t) (completed_more {c = c} e) =
      rest-Resumed more (keeps s b t) (rest_resumable.resumed more s b c e)
  start-Resumed more (flag_unset t) (incomplete_more h) =
      incomplete_more (λ c e. rw t (Alike-then rest (h c e) rest_resumable.alike))

  whole-Resumed :
      (more : List ℕ) (s : S) (b c : Buffers)
      → joined c ≡ joined b ++ more
      → (t : Bool) → flag s ≡ t
      → Resumed whole more (then_run (unless t start s b) rest) (then_run (unless t start s c) rest)
  whole-Resumed more s b c e true t =
      rest-Resumed more (keeps s b t) (rest_resumable.resumed more s b c e)
  whole-Resumed more s b c e false t =
      start-Resumed more (sets s b t) (start_resumable.resumed more s b c e)

  pub start-Resumable : Resumable (λ s b. then_run (unless (flag s) start s b) rest)
  start-Resumable = record {
    alike = λ s b c e. Alike-then rest (unless-Alike (flag s) s b c e) rest_resumable.alike;
    resumed = λ more s b c e. whole-Resumed more s b c e (flag s) refl;
  }

-- A step that runs only if a flag is set, which an interruption keeps.
module _ {S : Type 0} (flag : S → Bool) (step : Step S) (resumable : Resumable step)
    (keeps : (s : S) (b : Buffers) → flag s ≡ true → Keeps flag (step s b)) where
  abbrev only : Bool → Step S
  only t s b = if t then step s b else completed s b

  only-Alike :
      (t : Bool) (s : S) (b c : Buffers) → joined b ≡ joined c → Alike (only t s b) (only t s c)
  only-Alike true s b c e = resumable.alike s b c e
  only-Alike false s b c e = completed_alike e

  flag-Resumed :
      (more : List ℕ) {o o' : Outcome S}
      → Keeps flag o
      → Resumed step more o o'
      → Resumed (λ s b. only (flag s) s b) more o o'
  flag-Resumed more k (completed_more e) = completed_more e
  flag-Resumed more k (failed_more e) = failed_more e
  flag-Resumed more (flag_kept e) (incomplete_more h) = incomplete_more (λ c e'. rw e (h c e'))

  only-Resumed :
      (more : List ℕ) (t : Bool) (s : S) (b c : Buffers)
      → flag s ≡ t
      → joined c ≡ joined b ++ more
      → Resumed (λ s b. only (flag s) s b) more (only t s b) (only t s c)
  only-Resumed more true s b c f e =
      flag-Resumed more (keeps s b f) (resumable.resumed more s b c e)
  only-Resumed more false s b c f e = completed_more e

  pub only-Resumable : Resumable (λ s b. if flag s then step s b else completed s b)
  only-Resumable = record {
    alike = λ s b c e. only-Alike (flag s) s b c e;
    resumed = λ more s b c e. only-Resumed more (flag s) s b c refl e;
  }
