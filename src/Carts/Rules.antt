-- ===== src/Carts/Rules.antt =====
-- Rules for what keeps the lines of carts small.
use phone_cases_backend.Prelude.{
  ℕ, ◌≤◌, ◌≡◌, refl, Bool, true, false, not, Option, none, some, List, [], ◌∷◌, All, Bool-cases,
  inl, inr, if◌then◌else◌,
}
use phone_cases_backend.Prelude.Results.{
  Result, ok, err, Tx, guard, modify, or_throw, ◌>>=◌, ◌>>◌, bind_inv,
}
use phone_cases_backend.Prelude.Tables.{update_all}
use phone_cases_backend.Prelude.Sorting.{All-select}
use phone_cases_backend.Errors.{Error}
use phone_cases_backend.Carts.{
  Desk, Item, max_cart_item_quantity, write_item, remove_row, is_item, reading,
}

abbrev pub IsSmall : Item → Type 0
IsSmall i = i.quantity ≤ max_cart_item_quantity

-- No line of any cart has more units than a line may have.
abbrev pub AreSmall : Desk → Type 0
AreSmall s = All IsSmall s.items

-- A body that keeps the lines small.
abbrev pub Keeps : {A : Type 0} → Tx Desk Error A → Type 0
Keeps {A} m = (s s' : Desk) (a : A) → AreSmall s → m s ≡ ok (a, s') → AreSmall s'

abbrev pub Reads : {A : Type 0} → Tx Desk Error A → Type 0
Reads {A} m = (s s' : Desk) (a : A) → m s ≡ ok (a, s') → s' ≡ s

pub Reads-Keeps : {A : Type 0} (m : Tx Desk Error A) → Reads m → Keeps m
Reads-Keeps m reads s s' a v e = rw (reads s s' a e) v

pub bind-Keeps :
    {A B : Type 0} (m : Tx Desk Error A) (f : A → Tx Desk Error B)
    → Keeps m
    → ((a : A) → Keeps (f a))
    → Keeps (m >>= f)
bind-Keeps m f first rest s s' b v e =
    let (a, t, ran, then_) = bind_inv m f s b s' e in rest a t s' b (first s t a v ran) then_

pub guard-Reads : (b : Bool) (x : Error) → Reads (guard b x)
guard-Reads true x s s' a e = cc
guard-Reads false x s s' a e = cc

pub or_throw-Reads : {A : Type 0} (o : Option A) (x : Error) → Reads (or_throw o x)
or_throw-Reads none x s s' a e = cc
or_throw-Reads (some y) x s s' a e = cc

-- After a guard, its condition holds.
pub guarded-Keeps :
    {A : Type 0} (b : Bool) (x : Error) (m : Tx Desk Error A)
    → (b ≡ true → Keeps m)
    → Keeps (guard b x >> m)
guarded-Keeps b x m keeps s s' a v e =
    let (u, t, ran, then_) = bind_inv (guard b x) (λ _. m) s a s' e in
    let still = guard-Reads b x s t u ran in keeps (holds b t ran) t s' a (rw still v) then_
  where
    holds : (d : Bool) (t : Desk) → guard d x s ≡ ok (tt, t) → d ≡ true
    holds true t h = refl
    holds false t h = cc

pub reading-Reads : {A : Type 0} (check : Desk → Result Error A) → Reads (reading check)
reading-Reads {A} check s s' a e = go (check s) e
  where
    go :
        (r : Result Error A)
        → (elim r as (λ _. Result Error (A × Desk)) [ ok x ↦ ok (x, s) | err x ↦ err x ])
          ≡ ok (a, s')
        → s' ≡ s
    go (ok x) p = cc
    go (err x) p = cc

-- A check before a body.
pub after-Keeps :
    {A B : Type 0} (check : Desk → Result Error A) (f : A → Tx Desk Error B)
    → ((a : A) → Keeps (f a))
    → Keeps (reading check >>= f)
after-Keeps check f rest =
    bind-Keeps (reading check) f (Reads-Keeps (reading check) (reading-Reads check)) rest

pub modify-Keeps : (f : Desk → Desk) → ((s : Desk) → AreSmall s → AreSmall (f s)) → Keeps (modify f)
modify-Keeps f keeps s s' a v e = let after : s' ≡ f s = cc in rw after (keeps s v)

pub write-AreSmall :
    (id : ℕ) (f : Item → Item)
    → ((i : Item) → IsSmall i → IsSmall (f i))
    → (s : Desk) → AreSmall s
    → AreSmall (write_item id f s)
write-AreSmall id f keeps s v = go s.items v
  where
    go : (is : List Item) → All IsSmall is → All IsSmall (update_all (is_item id) f is)
    go [] w = tt
    go (i ∷ is) w = elim (Bool-cases (is_item id i)) [
      | inl hit ↦ rw hit (keeps i (w.0), go is (w.1))
      | inr miss ↦ rw miss (w.0, go is (w.1))
    ]

pub remove-AreSmall : (id : ℕ) (s : Desk) → AreSmall s → AreSmall (remove_row id s)
remove-AreSmall id s v = All-select IsSmall (λ i. not (is_item id i)) s.items v

pub unless-Keeps :
    (b : Desk → Bool) (x : Error) (f : Desk → Desk)
    → ((s : Desk) → AreSmall s → AreSmall (f s))
    → Keeps (λ s. if b s then err x else ok (tt {0}, f s))
unless-Keeps b x f keeps s s' a v e = go (b s) e
  where
    go :
        (d : Bool)
        → if◌then◌else◌ {A = Result Error (Unit {0} × Desk)} d (err x) (ok (tt, f s)) ≡ ok (a, s')
        → AreSmall s'
    go true p = cc
    go false p = let after : s' ≡ f s = cc in rw after (keeps s v)
