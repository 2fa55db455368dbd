-- ===== src/Access/Keeps.antt =====
-- Invariants of service calls: a call keeps a predicate whether it returns or raises.
use threat_scope_xdr.Access.Store.{
  Tables, Db, Error, Result, ok, err, Exec, pure, raise, lift, gets, ◌>>=◌, modify, commit,
  raise_if, catch,
}
use threat_scope_xdr.Prelude.{Bool, true, false, if◌then◌else◌}

pub record Keeps {A : Type 0} (P : Db → Type 0) (m : Exec A) : Type 0 where
  pub at : (s : Db) → P s → P (m s).1

module _ {A : Type 0} {P : Db → Type 0} where
  pub Keeps-pure : (a : A) → Keeps P (pure a)
  Keeps-pure a = record { at = λ s h. h }

  pub Keeps-raise : (e : Error) → Keeps P (raise {A = A} e)
  Keeps-raise e = record { at = λ s h. h }

  pub Keeps-lift : (r : Result A) → Keeps P (lift r)
  Keeps-lift r = record { at = λ s h. h }

  pub Keeps-gets : (f : Tables → A) → Keeps P (gets f)
  Keeps-gets f = record { at = λ s h. h }

-- a write, a commit, a rollback
pub Keeps-modify :
    {P : Db → Type 0} (f : Tables → Tables)
    → ((s : Db) → P s → P (record s { live = f s.live }))
    → Keeps P (modify f)
Keeps-modify f h = record { at = h }

pub Keeps-commit :
    {P : Db → Type 0} → ((s : Db) → P s → P (record s { saved = s.live })) → Keeps P commit
Keeps-commit h = record { at = h }

pub Keeps-raise_if : {P : Db → Type 0} (b : Bool) (e : Error) → Keeps P (raise_if b e)
Keeps-raise_if true e = record { at = λ s h. h }
Keeps-raise_if false e = record { at = λ s h. h }

pub Keeps-if :
    {A : Type 0} {P : Db → Type 0} (b : Bool) (m n : Exec A)
    → Keeps P m
    → Keeps P n
    → Keeps P (if b then m else n)
Keeps-if true m n h k = h
Keeps-if false m n h k = k

module _ {A B : Type 0} {P : Db → Type 0} where
  after :
      (r : Result A) (f : A → Exec B) (s : Db)
      → P s
      → ((a : A) → Keeps P (f a))
      → P ((lift r >>= f) s).1
  after (ok a) f s h k = (k a).at s h
  after (err e) f s h k = h

  pub Keeps-bind :
      (m : Exec A) (f : A → Exec B) → Keeps P m → ((a : A) → Keeps P (f a)) → Keeps P (m >>= f)
  Keeps-bind m f h k = record { at = λ s p. after (m s).0 f (m s).1 (h.at s p) k }

module _ {A : Type 0} {P : Db → Type 0} where
  caught :
      (r : Result A) (g : Error → Exec A) (s : Db)
      → P s
      → ((e : Error) → Keeps P (g e))
      → P (catch (lift r) g s).1
  caught (ok a) g s h k = h
  caught (err e) g s h k = (k e).at s h

  pub Keeps-catch :
      (m : Exec A) (g : Error → Exec A)
      → Keeps P m
      → ((e : Error) → Keeps P (g e))
      → Keeps P (catch m g)
  Keeps-catch m g h k = record { at = λ s p. caught (m s).0 g (m s).1 (h.at s p) k }

pub ruleset keeps_rules = (
  Keeps-pure, Keeps-raise, Keeps-lift, Keeps-gets, Keeps-raise_if, Keeps-if, Keeps-bind,
  Keeps-modify, Keeps-commit, Keeps-catch,
)
