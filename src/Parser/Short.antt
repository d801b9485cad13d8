-- ===== src/Parser/Short.antt =====
-- A step of src/common/parser.c that is incomplete leaves few bytes, unless its state is too big.
use ledger_app_syscoin.Base.{
  ℕ, zero, suc, ◌+◌, ◌≤◌, ◌≡◌, sym, ap, ◌==◌, leb, leb→lt, if◌then◌else◌, Bool, true, false, Option,
  none, some, ◌>>=◌, ◌>>◌, guard, List, [], ◌∷◌, length, length-drop, drop, get_or, arith,
}
use mathlib.Core.Path.{subst}
use ledger_app_syscoin.Wire.{read_u64_le}
use ledger_app_syscoin.Parser.{
  Buffers, joined, dbuffer_can_read, dbuffer_read_bytes, peek, varint_rest, read_prefixed,
  dbuffer_read_varint,
}
use ledger_app_syscoin.Parser.Resumable.Start.{
  Holds, holds_completed, holds_incomplete, holds_failed,
}
use ledger_app_syscoin.Parser.Reader.{
  ReadBytes, too_few, enough, dbuffer_read_bytes-ReadBytes, can_read-joined,
}
use ledger_app_syscoin.Parser.Run.{
  Outcome, completed, incomplete, failed, Step, finish, then_run, unless, read_with, after_step,
  run_steps, parser_run, rounds, within,
}

plus_zero : (n : ℕ) → n ≡ n + 0
plus_zero n = omega arith

plus_suc : (m n : ℕ) → suc m + n ≡ m + suc n
plus_suc m n = omega arith

zero_plus : (n : ℕ) → 0 + n ≡ n
zero_plus n = omega arith

pub data Short {S : Type 0} (big : S → Type 0) : Outcome S → Type 0 where
  few : {s : S} {b : Buffers} → length (joined b) ≤ 31 → Short big (incomplete s b)
  too_big : {s : S} {b : Buffers} → big s → Short big (incomplete s b)
  not_waiting : {s : S} {b : Buffers} → Short big (completed s b)
  given_up : {s : S} {b : Buffers} → Short big (failed s b)

-- A read fails only where there are few bytes.
pub data Left {A : Type 0} (b : Buffers) : Option (A × Buffers) → Type 0 where
  left_few : length (joined b) ≤ 31 → Left b none
  has_read : {r : A × Buffers} → Left b (some r)

-- The state of a completed outcome has the property.
pub data Leads {S : Type 0} (Property : S → Type 0) : Outcome S → Type 0 where
  leads : {s : S} {b : Buffers} → Property s → Leads Property (completed s b)
  leads_nowhere : {s : S} {b : Buffers} → Leads Property (incomplete s b)
  leads_off : {s : S} {b : Buffers} → Leads Property (failed s b)

pub Holds-Leads :
    {S : Type 0} {Property : S → Type 0} {o : Outcome S} → Holds Property o → Leads Property o
Holds-Leads (holds_completed p) = leads p
Holds-Leads (holds_incomplete p) = leads_nowhere
Holds-Leads holds_failed = leads_off

pub Leads-read :
    {S A : Type 0} (Property : S → Type 0) (r : Option (A × Buffers)) (s : S) (b : Buffers)
    (f : A → S → S)
    → ((a : A) → Property (f a s))
    → Leads Property (read_with r s b (λ a s. (true, f a s)))
Leads-read Property none s b f k = leads_nowhere
Leads-read Property (some (a, b')) s b f k = leads (k a)

-- The steps from the one with this number on; a state is big at the step that waits.
pub data AllShort {S : Type 0} (big : ℕ × S → Type 0) : ℕ → List (Step S) → Type 0 where
  no_step : {cur : ℕ} → AllShort big cur []
  and_step :
      {cur : ℕ} {step : Step S} {steps : List (Step S)}
      → ((s : S) (b : Buffers) → Short (λ s. big (cur, s)) (step s b))
      → AllShort big (suc cur) steps
      → AllShort big cur (step ∷ steps)

module _ {S : Type 0} (big : S → Type 0) where
  pub finish-Short : (r : Bool × S) (b : Buffers) → Short big (finish r b)
  finish-Short (true, s) b = not_waiting
  finish-Short (false, s) b = given_up

  pub read-Short :
      {A : Type 0} {r : Option (A × Buffers)} (s : S) (b : Buffers) (update : A → S → Bool × S)
      → Left b r
      → Short big (read_with r s b update)
  read-Short s b update (left_few h) = few h
  read-Short s b update (has_read {r}) = finish-Short (update r.0 s) r.1

  pub then-Short :
      {o : Outcome S} (next : Step S)
      → Short big o
      → ((s : S) (b : Buffers) → Short big (next s b))
      → Short big (then_run o next)
  then-Short next (few h) k = few h
  then-Short next (too_big h) k = too_big h
  then-Short next not_waiting k = k _ _
  then-Short next given_up k = given_up

  -- What the first step establishes may be used of the next.
  pub Leads-Short :
      {Property : S → Type 0} {o : Outcome S} (next : Step S)
      → Short big o
      → Leads Property o
      → ((s : S) (b : Buffers) → Property s → Short big (next s b))
      → Short big (then_run o next)
  Leads-Short next (few h) l k = few h
  Leads-Short next (too_big h) l k = too_big h
  Leads-Short next not_waiting (leads p) k = k _ _ p
  Leads-Short next given_up l k = given_up

  pub Holds-Short :
      {Property : S → Type 0} {o : Outcome S}
      → Short big o
      → Holds Property o
      → Short (λ s. big s × Property s) o
  Holds-Short (few h) p = few h
  Holds-Short (too_big h) (holds_incomplete p) = too_big (h, p)
  Holds-Short not_waiting p = not_waiting
  Holds-Short given_up p = given_up

  pub Leads-rounds-Short :
      (Property : S → Type 0) (n : ℕ) (body : Step S)
      → ((s : S) (b : Buffers) → Property s → Short big (body s b))
      → ((s : S) (b : Buffers) → Property s → Leads Property (body s b))
      → (s : S) (b : Buffers) → Property s
      → Short big (rounds n body s b)
  unfolding rounds
  Leads-rounds-Short Property zero body k l s b p = not_waiting
  Leads-rounds-Short Property (suc n) body k l s b p =
      Leads-Short (rounds n body) (k s b p) (l s b p) (Leads-rounds-Short Property n body k l)

  pub rounds-Short :
      (n : ℕ) (body : Step S)
      → ((s : S) (b : Buffers) → Short big (body s b))
      → (s : S) (b : Buffers) → Short big (rounds n body s b)
  unfolding rounds
  rounds-Short zero body k s b = not_waiting
  rounds-Short (suc n) body k s b = then-Short (rounds n body) (k s b) (rounds-Short n body k)

  pub unless-Short :
      (t : Bool) (step : Step S)
      → ((s : S) (b : Buffers) → Short big (step s b))
      → (s : S) (b : Buffers) → Short big (unless t step s b)
  unless-Short true step k s b = not_waiting
  unless-Short false step k s b = k s b

module _ {S : Type 0} (big : ℕ × S → Type 0) where
  after-Short :
      {o : Outcome S} (cur : ℕ) (next : S → Buffers → Outcome (ℕ × S))
      → Short (λ s. big (cur, s)) o
      → ((s : S) (b : Buffers) → Short big (next s b))
      → Short big (after_step cur o next)
  after-Short cur next (few h) k = few h
  after-Short cur next (too_big h) k = too_big h
  after-Short cur next not_waiting k = k _ _
  after-Short cur next given_up k = given_up

  run-Short :
      {steps : List (Step S)} (cur : ℕ)
      → AllShort big cur steps
      → (s : S) (b : Buffers) → Short big (run_steps steps cur s b)
  unfolding run_steps
  run-Short cur no_step s b = not_waiting
  run-Short cur (and_step {steps = steps} h all) s b =
      after-Short cur (run_steps steps (suc cur)) (h s b) (run-Short (suc cur) all)

  after-AllShort :
      (n cur : ℕ) {steps : List (Step S)}
      → AllShort big cur steps
      → AllShort big (cur + n) (drop n steps)
  after-AllShort zero cur {steps} all = subst (λ c. AllShort big c steps) (plus_zero cur) all
  after-AllShort (suc n) cur no_step = no_step
  after-AllShort (suc n) cur (and_step {steps = steps} h all) =
      subst (λ c. AllShort big c (drop n steps)) (plus_suc cur n) (after-AllShort n (suc cur) all)

  pub parser_run-Short :
      {steps : List (Step S)}
      → AllShort big 0 steps
      → (s : ℕ × S) (b : Buffers) → Short big (parser_run steps s b)
  unfolding parser_run
  parser_run-Short {steps} all (cur, s) b =
      run-Short cur
        (subst (λ c. AllShort big c (drop cur steps)) (zero_plus cur) (after-AllShort cur 0 all)) s
        b

pub Short-mono :
    {S : Type 0} {big big' : S → Type 0} {o : Outcome S}
    → ((s : S) → big s → big' s)
    → Short big o
    → Short big' o
Short-mono f (few h) = few h
Short-mono f (too_big {s} h) = too_big (f s h)
Short-mono f not_waiting = not_waiting
Short-mono f given_up = given_up

pub within-Short :
    {P T : Type 0} {big : T → Type 0} (big_whole : P → Type 0) (put : T → P)
    → ((t : T) → big t → big_whole (put t))
    → {o : Outcome T} → Short big o
    → Short big_whole (within put o)
within-Short big_whole put k (few h) = few h
within-Short big_whole put k (too_big {s} h) = too_big (k s h)
within-Short big_whole put k not_waiting = not_waiting
within-Short big_whole put k given_up = given_up

pub bytes-Left :
    {n : ℕ} {b : Buffers} {r : Option (List ℕ × Buffers)}
    → n ≤ 32
    → ReadBytes n (joined b) r
    → Left b r
bytes-Left h (too_few h') = left_few (omega arith)
bytes-Left h (enough h' t d) = has_read

pub read_bytes-Left : (n : ℕ) (b : Buffers) → n ≤ 32 → Left b (dbuffer_read_bytes n b)
read_bytes-Left n b h = bytes-Left h (dbuffer_read_bytes-ReadBytes n b)

rest_bound : (first_byte : ℕ) → varint_rest first_byte ≤ 8
unfolding varint_rest
rest_bound first_byte = ground arith

pub guard-Left :
    {A : Type 0} {n : ℕ} {b : Buffers} {r : Option (A × Buffers)} (t : Bool)
    → leb n (length (joined b)) ≡ t
    → n ≤ 9
    → Left b r
    → Left b (guard t >> r)
guard-Left true e h l = l
guard-Left {n = n} false e h l = let below = leb→lt n _ e in left_few (omega arith)

rest-Left :
    {len : ℕ} {b : Buffers} (b' : Buffers) {r : Option (List ℕ × Buffers)}
    → len ≤ 8
    → joined b' ≡ drop 1 (joined b)
    → ReadBytes len (joined b') r
    → Left {A = ℕ} b (r >>= λ (bytes, buffers''). some (read_u64_le bytes 0, buffers''))
rest-Left {b = b} b' h e (too_few h') =
    left_few (omega (arith, ap length e, length-drop 1 (joined b)))
rest-Left b' h e (enough h' t d) = has_read

test-Left :
    {len : ℕ} {b : Buffers} (b' : Buffers) (t : Bool) (first_byte : ℕ)
    → len ≤ 8
    → joined b' ≡ drop 1 (joined b)
    → Left {A = ℕ} b (
        if t
        then some (first_byte, b')
        else (dbuffer_read_bytes len b' >>= λ (bytes, buffers'').
            some (read_u64_le bytes 0, buffers'')))
test-Left b' true first_byte h e = has_read
test-Left {len} b' false first_byte h e = rest-Left b' h e (dbuffer_read_bytes-ReadBytes len b')

prefixed-Left :
    {len : ℕ} {b : Buffers} {r : Option (List ℕ × Buffers)}
    → len ≤ 8
    → ReadBytes 1 (joined b) r
    → Left {A = ℕ} b (
        r >>= λ (prefix, buffers').
        if leb (get_or prefix 0 0) 0xfc
        then some (get_or prefix 0 0, buffers')
        else (dbuffer_read_bytes len buffers' >>= λ (bytes, buffers'').
            some (read_u64_le bytes 0, buffers'')))
prefixed-Left h (too_few h') = left_few (omega arith)
prefixed-Left h (enough {bytes} {b = b'} h' t d) =
    test-Left b' (leb (get_or bytes 0 0) 0xfc) (get_or bytes 0 0) h d

pub read_varint-Left : (b : Buffers) → Left b (dbuffer_read_varint b)
unfolding dbuffer_read_varint read_prefixed
read_varint-Left b =
    let bound = rest_bound (peek b) in
    guard-Left (dbuffer_can_read 1 b) (sym (can_read-joined 1 b)) (omega arith) (
      guard-Left (dbuffer_can_read (1 + varint_rest (peek b)) b)
        (sym (can_read-joined (1 + varint_rest (peek b)) b)) (omega arith)
        (prefixed-Left bound (dbuffer_read_bytes-ReadBytes 1 b)))

two_reads :
    {b : Buffers} {r : Option (List ℕ × Buffers)}
    → ReadBytes 1 (joined b) r
    → Left {A = Option ℕ} b (
        r >>= λ (marker, buffers'). dbuffer_read_bytes 1 buffers' >>= λ (flag, buffers'').
        some (some (get_or flag 0 0), buffers''))
two_reads (too_few h) = left_few (omega arith)
two_reads {b} (enough {b = b'} h t d) = second (dbuffer_read_bytes-ReadBytes 1 b')
  where
    second :
        {r : Option (List ℕ × Buffers)}
        → ReadBytes 1 (joined b') r
        → Left {A = Option ℕ} b
            (r >>= λ (flag, buffers''). some (some (get_or flag 0 0), buffers''))
    second (too_few h') = left_few (omega (arith, ap length d, length-drop 1 (joined b)))
    second (enough h' t' d') = has_read

-- A read that peeks at the first byte, and goes on behind a marker of 2 bytes if that is 0.
pub marked-Left :
    (b : Buffers)
    → Left {A = Option ℕ} b (
        guard (dbuffer_can_read 1 b)
        >> (if peek b == 0
            then (guard (dbuffer_can_read 2 b)
                >> (dbuffer_read_bytes 1 b >>= λ (marker, buffers').
                    dbuffer_read_bytes 1 buffers' >>= λ (flag, buffers'').
                    some (some (get_or flag 0 0), buffers'')))
            else some (none, b)))
marked-Left b =
    guard-Left (dbuffer_can_read 1 b) (sym (can_read-joined 1 b)) (omega arith)
      (branch (peek b == 0))
  where
    branch :
        (t : Bool)
        → Left {A = Option ℕ} b (
            if t
            then (guard (dbuffer_can_read 2 b)
                >> (dbuffer_read_bytes 1 b >>= λ (marker, buffers').
                    dbuffer_read_bytes 1 buffers' >>= λ (flag, buffers'').
                    some (some (get_or flag 0 0), buffers'')))
            else some (none, b))
    branch true =
        guard-Left (dbuffer_can_read 2 b) (sym (can_read-joined 2 b)) (omega arith)
          (two_reads (dbuffer_read_bytes-ReadBytes 1 b))
    branch false = has_read
