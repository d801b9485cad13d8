-- ===== src/Parser/Reader.antt =====
-- The reads of src/common/parser.c see the two buffers as one sequence of bytes, and more data does
-- not change what they have read.
use ledger_app_syscoin.Base.{
  ℕ, zero, suc, ◌+◌, ◌-◌, ◌≡◌, ◌≤◌, ◌<◌, refl, sym, ap, ◌∙◌, Bool, true, false, leb, leb→le, le→leb,
  leb→lt, Option, none, some, ◌>>=◌, ◌>>◌, guard, if◌then◌else◌, List, [], ◌∷◌, ◌++◌, length,
  length-append, take, drop, get_or, arith,
}
use ledger_app_syscoin.Wire.{read_u64_le}
use ledger_app_syscoin.Parser.{
  Buffers, Reader, joined, dbuffer_can_read, dbuffer_get_length, dbuffer_read_bytes, peek,
  varint_rest, read_prefixed, dbuffer_read_varint,
}

-- The same result, and the same bytes left.
pub data Agree {A : Type 0} : Option (A × Buffers) → Option (A × Buffers) → Type 0 where
  nothing : Agree none none
  just : {a : A} {b c : Buffers} → joined b ≡ joined c → Agree (some (a, b)) (some (a, c))

-- With `more` behind the data: what was read stays so.
pub data Extended {A : Type 0} (more : List ℕ)
    : Option (A × Buffers) → Option (A × Buffers) → Type 0 where
  starved : {r : Option (A × Buffers)} → Extended more none r
  read :
      {a : A} {b c : Buffers}
      → joined c ≡ joined b ++ more
      → Extended more (some (a, b)) (some (a, c))

pub record Lawful {A : Type 0} (reader : Reader A) : Type 0 where
  pub agree : (b c : Buffers) → joined b ≡ joined c → Agree (reader b) (reader c)
  pub extended :
      (more : List ℕ) (b c : Buffers)
      → joined c ≡ joined b ++ more
      → Extended more (reader b) (reader c)

module _ {A B : Type 0} where
  Agree->>= :
      {r r' : Option (A × Buffers)} (f : A × Buffers → Option (B × Buffers))
      → Agree r r'
      → ((a : A) (b c : Buffers) → joined b ≡ joined c → Agree (f (a, b)) (f (a, c)))
      → Agree (r >>= f) (r' >>= f)
  Agree->>= f nothing k = nothing
  Agree->>= f (just e) k = k _ _ _ e

  Extended->>= :
      {more : List ℕ} {r r' : Option (A × Buffers)} (f : A × Buffers → Option (B × Buffers))
      → Extended more r r'
      → ((a : A) (b c : Buffers)
          → joined c ≡ joined b ++ more
          → Extended more (f (a, b)) (f (a, c)))
      → Extended more (r >>= f) (r' >>= f)
  Extended->>= f starved k = starved
  Extended->>= f (read e) k = k _ _ _ e

  pub Lawful->>= :
      {reader : Reader A} (f : A → Reader B)
      → Lawful reader
      → ((a : A) → Lawful (f a))
      → Lawful (λ b. reader b >>= λ (a, b'). f a b')
  Lawful->>= f l k = record {
    agree = λ b c e. Agree->>= (λ (a, b'). f a b') (l.agree b c e) (λ a. (k a).agree);
    extended = λ more b c e.
        Extended->>= (λ (a, b'). f a b') (l.extended more b c e) (λ a. (k a).extended more);
  }

pub Lawful-some : {A : Type 0} (a : A) → Lawful {A = A} (λ b. some (a, b))
Lawful-some a = record { agree = λ b c e. just e; extended = λ more b c e. read e }

module _ where
  length-joined : (b : Buffers) → dbuffer_get_length b ≡ length (joined b)
  unfolding dbuffer_get_length
  length-joined (first, second) = sym (length-append first second)

  read_within :
      (n m : ℕ) (first second : List ℕ)
      → n ≤ length first
      → m ≡ 0
      → (take n first ++ take m second ≡ take n (first ++ second))
        × (drop n first ++ drop m second ≡ drop n (first ++ second))
  read_within zero m first second h e = rw e (refl, refl)
  read_within (suc n) m [] second h e = absurd (omega arith)
  read_within (suc n) m (x ∷ first) second h e =
      let (t, d) = read_within n m first second (omega arith) e in (ap (λ xs. x ∷ xs) t, d)

  read_beyond :
      (n m : ℕ) (first second : List ℕ)
      → n ≡ length first + m
      → (take (length first) first ++ take m second ≡ take n (first ++ second))
        × (drop (length first) first ++ drop m second ≡ drop n (first ++ second))
  read_beyond n m [] second e = let e' = zero_add m n e in rw e' (refl, refl)
    where
      zero_add : (m n : ℕ) → n ≡ 0 + m → n ≡ m
      zero_add m n e = omega arith
  read_beyond zero m (x ∷ first) second e = absurd (omega arith)
  read_beyond (suc n) m (x ∷ first) second e =
      let (t, d) = read_beyond n m first second (omega arith) in (ap (λ xs. x ∷ xs) t, d)

-- What dbuffer_read_bytes gives on the bytes that are left.
pub data ReadBytes (n : ℕ) (xs : List ℕ) : Option (List ℕ × Buffers) → Type 0 where
  too_few : length xs < n → ReadBytes n xs none
  enough :
      {bytes : List ℕ} {b : Buffers}
      → n ≤ length xs
      → bytes ≡ take n xs
      → joined b ≡ drop n xs
      → ReadBytes n xs (some (bytes, b))

read_first :
    (n : ℕ) (first second : List ℕ) (b : Bool)
    → leb n (length first) ≡ b
    → n ≤ length first + length second
    → ReadBytes n (first ++ second) (
        some (
          take (if b then n else length first) first
              ++ take (n - (if b then n else length first)) second,
          (
            drop (if b then n else length first) first,
            drop (n - (if b then n else length first)) second,
          ),
        ))
read_first n first second true e h =
    let (t, d) = read_within n (n - n) first second (leb→le n _ e) (omega arith) in
    enough (omega (arith, length-append first second)) t d
read_first n first second false e h =
    let below = leb→lt n _ e in
    let (t, d) = read_beyond n (n - length first) first second (omega arith) in
    enough (omega (arith, length-append first second)) t d

read_any :
    (n : ℕ) (first second : List ℕ) (b : Bool)
    → leb n (length first + length second) ≡ b
    → ReadBytes n (first ++ second) (
        if b
        then some (
          take (if leb n (length first) then n else length first) first
              ++ take (n - (if leb n (length first) then n else length first)) second,
          (
            drop (if leb n (length first) then n else length first) first,
            drop (n - (if leb n (length first) then n else length first)) second,
          ),
        )
        else none)
read_any n first second true e = read_first n first second _ refl (leb→le n _ e)
read_any n first second false e =
    let below = leb→lt n _ e in too_few (omega (arith, length-append first second))

-- dbuffer_read_bytes reads from the two buffers as from one sequence of bytes: if there are enough, it
-- gives the first ones and leaves the others, and otherwise it fails.
pub dbuffer_read_bytes-ReadBytes :
    (n : ℕ) (b : Buffers) → ReadBytes n (joined b) (dbuffer_read_bytes n b)
unfolding dbuffer_read_bytes
dbuffer_read_bytes-ReadBytes n (first, second) = read_any n first second _ refl

take-append :
    (n : ℕ) (xs more : List ℕ)
    → n ≤ length xs
    → (take n (xs ++ more) ≡ take n xs) × (drop n (xs ++ more) ≡ drop n xs ++ more)
take-append zero xs more h = (refl, refl)
take-append (suc n) [] more h = absurd (omega arith)
take-append (suc n) (x ∷ xs) more h =
    let (t, d) = take-append n xs more (omega arith) in (ap (λ ys. x ∷ ys) t, d)

same_read :
    {n : ℕ} {xs : List ℕ} {r r' : Option (List ℕ × Buffers)}
    → ReadBytes n xs r
    → ReadBytes n xs r'
    → Agree r r'
same_read (too_few h) (too_few h') = nothing
same_read (too_few h) (enough h' t d) = absurd (omega arith)
same_read (enough h t d) (too_few h') = absurd (omega arith)
same_read (enough {b = b} h t d) (enough {b = c} h' t' d') = rw (t, t') (just (d ∙ sym d'))

more_read :
    {n : ℕ} {xs more : List ℕ} {r r' : Option (List ℕ × Buffers)}
    → ReadBytes n xs r
    → ReadBytes n (xs ++ more) r'
    → Extended more r r'
more_read (too_few h) read' = starved
more_read {n} {xs} {more} (enough h t d) (too_few h') =
    absurd (omega (arith, length-append xs more))
more_read {n} {xs} {more} (enough {b = b} h t d) (enough {b = c} h' t' d') =
    let (te, de) = take-append n xs more h in
    rw (t, t', te) (read (d' ∙ de ∙ ap (λ ys. ys ++ more) (sym d)))

pub dbuffer_read_bytes-Lawful : (n : ℕ) → Lawful (dbuffer_read_bytes n)
dbuffer_read_bytes-Lawful n = record {
  agree = λ b c e.
      same_read (dbuffer_read_bytes-ReadBytes n b) (rw e (dbuffer_read_bytes-ReadBytes n c));
  extended = λ more b c e.
      more_read (dbuffer_read_bytes-ReadBytes n b) (rw (sym e) (dbuffer_read_bytes-ReadBytes n c));
}

module _ {A : Type 0} where
  pub Agree-guard :
      {r r' : Option (A × Buffers)} (t t' : Bool)
      → t' ≡ t
      → Agree r r'
      → Agree (guard t >> r) (guard t' >> r')
  Agree-guard true t' e a = rw e a
  Agree-guard false t' e a = rw e nothing

  pub Extended-guard :
      {more : List ℕ} {r r' : Option (A × Buffers)} (t t' : Bool)
      → (t ≡ true → (t' ≡ true) × Extended more r r')
      → Extended more (guard t >> r) (guard t' >> r')
  Extended-guard {more} true t' k = let (e, x) = k refl in rw e x
  Extended-guard false t' k = starved

  Lawful-if :
      {r r' : Reader A} (t : Bool) → Lawful r → Lawful r' → Lawful (λ b. if t then r b else r' b)
  Lawful-if true l l' = l
  Lawful-if false l l' = l'

read_prefixed-Lawful : (len : ℕ) → Lawful (read_prefixed len)
unfolding read_prefixed
read_prefixed-Lawful len =
    Lawful->>=
      (λ prefix buffers'.
        if leb (get_or prefix 0 0) 0xfc
        then some (get_or prefix 0 0, buffers')
        else (dbuffer_read_bytes len buffers' >>= λ (bytes, buffers'').
            some (read_u64_le bytes 0, buffers'')))
      (dbuffer_read_bytes-Lawful 1)
      (λ prefix. Lawful-if (leb (get_or prefix 0 0) 0xfc) (Lawful-some _) (
        Lawful->>= (λ bytes buffers''. some (read_u64_le bytes 0, buffers''))
          (dbuffer_read_bytes-Lawful len) (λ bytes. Lawful-some _)))

pub can_read-joined : (n : ℕ) (b : Buffers) → dbuffer_can_read n b ≡ leb n (length (joined b))
unfolding dbuffer_can_read
can_read-joined n b = ap (leb n) (length-joined b)

peek-joined : (b : Buffers) → peek b ≡ get_or (joined b) 0 0
unfolding peek
peek-joined ([], second) = refl
peek-joined (x ∷ first, second) = refl

get_or-append : (xs more : List ℕ) → 1 ≤ length xs → get_or (xs ++ more) 0 0 ≡ get_or xs 0 0
get_or-append [] more h = absurd (omega arith)
get_or-append (x ∷ xs) more h = refl

pub can_read-same :
    (n : ℕ) (b c : Buffers) → joined b ≡ joined c → dbuffer_can_read n c ≡ dbuffer_can_read n b
can_read-same n b c e = rw (can_read-joined n c, can_read-joined n b, e) refl

pub can_read-more :
    (n : ℕ) (more : List ℕ) (b c : Buffers)
    → joined c ≡ joined b ++ more
    → dbuffer_can_read n b ≡ true
    → dbuffer_can_read n c ≡ true
can_read-more n more b c e h =
    let h' = leb→le n _ (sym (can_read-joined n b) ∙ h) in
    can_read-joined n c ∙ le→leb n _ (rw e (omega (arith, length-append (joined b) more)))

pub peek-more :
    (more : List ℕ) (b c : Buffers)
    → joined c ≡ joined b ++ more
    → dbuffer_can_read 1 b ≡ true
    → peek c ≡ peek b
peek-more more b c e h =
    peek-joined c
    ∙ ap (λ xs. get_or xs 0 0) e
    ∙ get_or-append (joined b) more (leb→le 1 _ (sym (can_read-joined 1 b) ∙ h))
    ∙ sym (peek-joined b)

pub peek-same : (b c : Buffers) → joined b ≡ joined c → peek c ≡ peek b
peek-same b c e = peek-joined c ∙ ap (λ xs. get_or xs 0 0) (sym e) ∙ sym (peek-joined b)

pub dbuffer_read_varint-Lawful : Lawful dbuffer_read_varint
unfolding dbuffer_read_varint
dbuffer_read_varint-Lawful = record {
  agree = λ b c e. Agree-guard _ _ (can_read-same 1 b c e) (
      rw (peek-same b c e) (
        Agree-guard _ _ (can_read-same _ b c e)
          ((read_prefixed-Lawful (varint_rest (peek b))).agree b c e)));
  extended = λ more b c e. Extended-guard _ _ (λ h. (
    can_read-more 1 more b c e h,
    rw (peek-more more b c e h) (
        Extended-guard _ _ (λ h'. (
          can_read-more _ more b c e h',
          (read_prefixed-Lawful (varint_rest (peek b))).extended more b c e,
        ))),
  ));
}
