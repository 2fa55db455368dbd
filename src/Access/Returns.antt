-- ===== src/Access/Returns.antt =====
-- What a service call returns, whatever the database holds, if it returns.
use threat_scope_xdr.Prelude.{◌≡◌, refl, Bool, true, false, if◌then◌else◌}
use mathlib.Core.Path.{subst}
use threat_scope_xdr.Access.Store.{
  Db, Error, Result, ok, err, Exec, pure, raise, lift, ◌>>=◌, catch, bind_ok,
}

pub record Returns {A : Type 0} (Q : A → Type 0) (m : Exec A) : Type 0 where
  pub at : (s : Db) (a : A) → (m s).0 ≡ ok a → Q a

pub ok_injective : {A : Type 0} {a b : A} → ok a ≡ ok b → a ≡ b
ok_injective h = cc

module _ {A : Type 0} {Q : A → Type 0} where
  pub Returns-pure : (a : A) → Q a → Returns Q (pure a)
  Returns-pure a q = record { at = λ s b h. subst Q (ok_injective h) q }

  pub Returns-raise : (e : Error) → Returns Q (raise {A = A} e)
  Returns-raise e = record { at = λ s b h. absurd (cc h) }

  caught :
      (r : Result A) (m : Exec A) (g : Error → Exec A) (s : Db)
      → (m s).0 ≡ r
      → Returns Q m
      → ((e : Error) → Returns Q (g e))
      → (a : A) → (catch (lift r) g (m s).1).0 ≡ ok a
      → Q a
  caught (ok b) m g s e h k a c = h.at s a (cc (e, c))
  caught (err x) m g s e h k a c = (k x).at (m s).1 a c

  pub Returns-catch :
      (m : Exec A) (g : Error → Exec A)
      → Returns Q m
      → ((e : Error) → Returns Q (g e))
      → Returns Q (catch m g)
  Returns-catch m g h k = record { at = λ s a c. caught (m s).0 m g s refl h k a c }

  pub Returns-if :
      (b : Bool) (m n : Exec A) → Returns Q m → Returns Q n → Returns Q (if b then m else n)
  Returns-if true m n h k = h
  Returns-if false m n h k = k

-- the answer of the first call does not matter
pub Returns-bind :
    {A B : Type 0} {Q : B → Type 0} (m : Exec A) (f : A → Exec B)
    → ((a : A) → Returns Q (f a))
    → Returns Q (m >>= f)
Returns-bind m f h = record {
  at = λ s b e. let (a, _, last) = bind_ok m f s b e in (h a).at (m s).1 b last;
}

-- it does
pub Returns-bind_with :
    {A B : Type 0} {R : A → Type 0} {Q : B → Type 0} (m : Exec A) (f : A → Exec B)
    → Returns R m
    → ((a : A) → R a → Returns Q (f a))
    → Returns Q (m >>= f)
Returns-bind_with m f h k = record {
  at = λ s b e.
      let (a, first_part, last) = bind_ok m f s b e in
      (k a (h.at s a first_part)).at (m s).1 b last;
}

pub ruleset returns_rules = (Returns-pure, Returns-raise, Returns-catch, Returns-if, Returns-bind)
