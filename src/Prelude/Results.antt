-- ===== src/Prelude/Results.antt =====
-- Code that may throw, and code that reads and writes the database.
--
-- `Tx S A` is the body of a `$transaction` over a database state `S`: it returns a value and the
-- new state, or throws; a throw carries no state, since the transaction rolls back. `Action S A`
-- is a method that runs one transaction after another, so that the state comes back in any case.
use mathlib.Core.Path.{◌≡◌, refl}
use mathlib.Core.Bool.{Bool, true, false}
use mathlib.Core.Option.{Option, none, some}

pub data Result {ℓ κ} (E : Type κ) (A : Type ℓ) : Type (ℓ ⊔ κ) where
  ok : A → Result E A
  err : E → Result E A

abbrev pub Tx : Type 0 → Type 0 → Type 0 → Type 0
Tx S E A = S → Result E (A × S)

module _ {S E : Type 0} where
  abbrev pub pure : {A : Type 0} → A → Tx S E A
  pure a s = ok (a, s)

  abbrev pub throw : {A : Type 0} → E → Tx S E A
  throw e s = err e

  abbrev pub guard : Bool → E → Tx S E (Unit {0})
  guard true e = pure tt
  guard false e = throw e

  abbrev pub gets : {A : Type 0} → (S → A) → Tx S E A
  gets f s = ok (f s, s)

  abbrev pub modify : (S → S) → Tx S E (Unit {0})
  modify f s = ok (tt, f s)

  abbrev pub or_throw : {A : Type 0} → Option A → E → Tx S E A
  or_throw none e = throw e
  or_throw (some a) e = pure a

  infixl 5 ◌>>=◌ ◌>>◌
  abbrev pub ◌>>=◌ : {A B : Type 0} → Tx S E A → (A → Tx S E B) → Tx S E B
  ◌>>=◌ m f s = elim (m s) [ ok (a, s') ↦ f a s' | err e ↦ err e ]

  abbrev pub ◌>>◌ : {A B : Type 0} → Tx S E A → Tx S E B → Tx S E B
  m >> k = m >>= λ _. k

  -- `prisma.$transaction(body)`: the state is kept as it was if the body throws.
  abbrev pub commit : {A : Type 0} → Tx S E A → S → Result E A × S
  commit m s = elim (m s) [ ok (a, s') ↦ (ok a, s') | err e ↦ (err e, s) ]

  -- What a body that began in `s` guarantees about its value and its final state, if it returns.
  abbrev pub Returns : {A : Type 0} → Result E (A × S) → (A → S → Type 0) → Type 0
  Returns (ok (a, s)) Q = Q a s
  Returns (err e) Q = Unit

  pub same_result :
      {A : Type 0} (r : Result E (A × S)) (a b : A) (s t : S)
      → r ≡ ok (a, s)
      → r ≡ ok (b, t)
      → (b ≡ a) × (t ≡ s)
  same_result r a b s t x y = (cc, cc)

  -- Inversion of a chain that returned.
  pub bind_inv :
      {A B : Type 0} (m : Tx S E A) (f : A → Tx S E B) (s : S) (b : B) (s'' : S)
      → (m >>= f) s ≡ ok (b, s'')
      → (a : A) × (s' : S) × (m s ≡ ok (a, s')) × (f a s' ≡ ok (b, s''))
  bind_inv {A} {B} m f s b s'' e = go (m s) refl e
    where
      go :
          (r : Result E (A × S))
          → m s ≡ r
          → (elim r [ ok (a, s') ↦ f a s' | err x ↦ err x ]) ≡ ok (b, s'')
          → (a : A) × (s' : S) × (m s ≡ ok (a, s')) × (f a s' ≡ ok (b, s''))
      go (ok (a, s')) q e = (a, s', q, e)
      go (err x) q e = cc

  -- A transaction keeps what its body keeps when it returns.
  pub commit_keeps {κ} :
      {A : Type 0} (P : S → Type κ) (m : Tx S E A) (s : S)
      → P s
      → ((a : A) (s' : S) → m s ≡ ok (a, s') → P s')
      → P (commit m s).1
  commit_keeps {A} P m s h keep = go (m s) refl
    where
      go :
          (r : Result E (A × S))
          → m s ≡ r
          → P (elim r as (λ _. Result E A × S) [ ok (a, s') ↦ (ok a, s') | err x ↦ (err x, s) ]).1
      go (ok (a, s')) q = keep a s' q
      go (err x) q = h
