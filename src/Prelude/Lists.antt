-- ===== src/Prelude/Lists.antt =====
-- Tables as lists of rows: the queries and bulk statements that the services make.
use Prim.Native.Nat.{ℕ, suc, ◌+◌, ◌≤◌, max}
use mathlib.Core.Path.{◌≡◌, refl}
use mathlib.Core.Bool.{Bool, true, false}
use mathlib.Core.Option.{Option, none, some}
use mathlib.Core.List.{List, [], ◌∷◌, ◌++◌}
use native.Mathlib.Omega.{arith}
use threat_scope_xdr.Prelude.Tests.{if◌then◌else◌}

module _ {ℓ} {A : Type ℓ} where
  abbrev pub length : List A → ℕ
  length [] = 0
  length (x ∷ xs) = suc (length xs)

  -- `query.filter(p).all()`
  abbrev pub select : (A → Bool) → List A → List A
  select p [] = []
  select p (x ∷ xs) = let rest = select p xs in if p x then x ∷ rest else rest

  -- `query.filter(p).first()`
  abbrev pub first : (A → Bool) → List A → Option A
  first p [] = none
  first p (x ∷ xs) = let rest = first p xs in if p x then some x else rest

  -- `query.filter(p).count()`
  abbrev pub count_where : (A → Bool) → List A → ℕ
  count_where p [] = 0
  count_where p (x ∷ xs) = let rest = count_where p xs in if p x then suc rest else rest

  -- `query.filter(p).delete()`
  abbrev pub delete_where : (A → Bool) → List A → List A
  delete_where p [] = []
  delete_where p (x ∷ xs) = let rest = delete_where p xs in if p x then rest else x ∷ rest

  -- `query.filter(p).update(f)`
  abbrev pub update_where : (A → Bool) → (A → A) → List A → List A
  update_where p f [] = []
  update_where p f (x ∷ xs) = (if p x then f x else x) ∷ update_where p f xs

  abbrev pub any : (A → Bool) → List A → Bool
  any p [] = false
  any p (x ∷ xs) = let rest = any p xs in if p x then true else rest

  abbrev pub all : (A → Bool) → List A → Bool
  all p [] = true
  all p (x ∷ xs) = let rest = all p xs in if p x then rest else false

  abbrev pub All {κ} : (A → Type κ) → List A → Type κ
  All P [] = Unit
  All P (x ∷ xs) = P x × All P xs

  -- the largest key in use, plus one: how SQLite numbers a new row
  abbrev pub next_id : (A → ℕ) → List A → ℕ
  next_id key [] = 1
  next_id key (x ∷ xs) = max (suc (key x)) (next_id key xs)

module _ {ℓ} {A : Type ℓ} where
  pub count_where-append :
      (p : A → Bool) (xs ys : List A)
      → count_where p (xs ++ ys) ≡ count_where p xs + count_where p ys
  count_where-append p [] ys = omega arith
  count_where-append p (x ∷ xs) ys = ground (arith, count_where-append p xs ys)

  pub length-select : (p : A → Bool) (xs : List A) → length (select p xs) ≡ count_where p xs
  length-select p [] = refl
  length-select p (x ∷ xs) = ground (arith, length-select p xs)

  pub first-test : (p : A → Bool) (xs : List A) (x : A) → first p xs ≡ some x → p x ≡ true
  first-test p [] x h = cc
  first-test p (y ∷ xs) x h = ground (arith, first-test p xs x)

  pub count_where-delete_where :
      (p : A → Bool) (xs : List A) → count_where p (delete_where p xs) ≡ 0
  count_where-delete_where p [] = refl
  count_where-delete_where p (x ∷ xs) = ground (arith, count_where-delete_where p xs)

  -- rows that pass a stronger test are no more
  pub count_where_mono :
      (p q : A → Bool) (xs : List A)
      → ((x : A) → p x ≡ true → q x ≡ true)
      → count_where p xs ≤ count_where q xs
  count_where_mono p q [] h = omega arith
  count_where_mono p q (x ∷ xs) h = ground (arith, h x, count_where_mono p q xs h)

  -- a bulk update of rows that a query does not return leaves the query as it was
  pub first-update_where_ne :
      (p q : A → Bool) (f : A → A) (xs : List A)
      → ((x : A) → q x ≡ true → p x ≡ false)
      → ((x : A) → q x ≡ true → p (f x) ≡ false)
      → first p (update_where q f xs) ≡ first p xs
  first-update_where_ne p q f [] h k = refl
  first-update_where_ne p q f (x ∷ xs) h k =
      ground (arith, h x, k x, first-update_where_ne p q f xs h k)

  pub count_where-update_where_ne :
      (p q : A → Bool) (f : A → A) (xs : List A)
      → ((x : A) → q x ≡ true → p (f x) ≡ p x)
      → count_where p (update_where q f xs) ≡ count_where p xs
  count_where-update_where_ne p q f [] h = refl
  count_where-update_where_ne p q f (x ∷ xs) h =
      ground (arith, h x, count_where-update_where_ne p q f xs h)

module _ {ℓ} {A : Type ℓ} where
  pub any-append :
      (p : A → Bool) (xs ys : List A) → any p (xs ++ ys) ≡ (if any p xs then true else any p ys)
  any-append p [] ys = refl
  any-append p (x ∷ xs) ys = ground (arith, any-append p xs ys)

  pub any-delete_where :
      (p q : A → Bool) (xs : List A)
      → ((x : A) → p x ≡ true → q x ≡ false)
      → any p (delete_where q xs) ≡ any p xs
  any-delete_where p q [] h = refl
  any-delete_where p q (x ∷ xs) h = ground (arith, h x, any-delete_where p q xs h)

  pub any-delete_where_self :
      (p q : A → Bool) (xs : List A)
      → ((x : A) → p x ≡ true → q x ≡ true)
      → any p (delete_where q xs) ≡ false
  any-delete_where_self p q [] h = refl
  any-delete_where_self p q (x ∷ xs) h = ground (arith, h x, any-delete_where_self p q xs h)

  pub any-select :
      (p q r : A → Bool) (xs : List A)
      → ((x : A) → r x ≡ (if q x then p x else false))
      → any p (select q xs) ≡ any r xs
  any-select p q r [] h = refl
  any-select p q r (x ∷ xs) h = ground (arith, h x, any-select p q r xs h)

  pub any_mono :
      (p q : A → Bool) (xs : List A)
      → ((x : A) → p x ≡ true → q x ≡ true)
      → any p xs ≡ true
      → any q xs ≡ true
  any_mono p q [] h k = k
  any_mono p q (x ∷ xs) h k = ground (arith, h x, any_mono p q xs h)

  pub count_where_pos :
      (p q : A → Bool) (xs : List A) (x : A)
      → first p xs ≡ some x
      → q x ≡ true
      → 1 ≤ count_where q xs
  count_where_pos p q [] x h k = cc
  count_where_pos p q (y ∷ ys) x h k = ground (arith, count_where_pos p q ys x)

  pub length-append : (xs ys : List A) → length (xs ++ ys) ≡ length xs + length ys
  length-append [] ys = omega arith
  length-append (x ∷ xs) ys = omega (arith, length-append xs ys)

  -- the first row that passes a test of what an update keeps
  pub first-update_where :
      (p q : A → Bool) (f : A → A) (xs : List A) (x : A)
      → ((y : A) → q y ≡ true → p (f y) ≡ p y)
      → first p xs ≡ some x
      → first p (update_where q f xs) ≡ some (if q x then f x else x)
  first-update_where p q f [] x h k = cc
  first-update_where p q f (y ∷ ys) x h k = ground (arith, h y, first-update_where p q f ys x h)

  pub count_where-update_where_self :
      (q : A → Bool) (f : A → A) (xs : List A)
      → ((y : A) → q y ≡ true → q (f y) ≡ false)
      → count_where q (update_where q f xs) ≡ 0
  count_where-update_where_self q f [] h = refl
  count_where-update_where_self q f (y ∷ ys) h =
      ground (arith, h y, count_where-update_where_self q f ys h)
