-- ===== src/Exec/Rules.antt =====
-- Invariants of methods: one rule for each way to build a method.
use g04_final_project_d_25_c.Prelude.{
  Bool, true, false, List, [], ◌∷◌, Option, none, some, if◌then◌else◌,
}
use g04_final_project_d_25_c.Exec.Defs.{
  PyError, Result, ok, err, Exec, pure, raise, gets, catch, modify, ensure, when, require, ◌>>=◌,
  for_each, within, handled, continue,
}

-- `m` keeps `P`, whether it returns or raises.
pub record Keeps {ℓ κ μ} {S : Type ℓ} {A : Type κ} (P : S → Type μ) (m : Exec S A)
    : Type (ℓ ⊔ μ) where
  pub after : (s : S) → P s → P (m s).1

module _ {ℓ κ μ} {S : Type ℓ} {A : Type κ} {P : S → Type μ} where
  pub Keeps-pure : (a : A) → Keeps P (pure a)
  unfolding pure
  Keeps-pure a = record { after = λ before kept. kept }

  pub Keeps-raise : (c : PyError) → Keeps P (raise {A = A} c)
  unfolding raise
  Keeps-raise c = record { after = λ before kept. kept }

  pub Keeps-gets : (f : S → A) → Keeps P (gets f)
  unfolding gets
  Keeps-gets f = record { after = λ before kept. kept }

  pub Keeps-require : (o : Option A) (c : PyError) → Keeps P (require o c)
  unfolding require
  Keeps-require none c = Keeps-raise c
  Keeps-require (some a) c = Keeps-pure a

  pub Keeps-if : (b : Bool) (m n : Exec S A) → Keeps P m → Keeps P n → Keeps P (if b then m else n)
  Keeps-if true m n km kn = km
  Keeps-if false m n km kn = kn

  pub Keeps-catch :
      (m : Exec S A) (h : PyError → Exec S A)
      → Keeps P m
      → ((c : PyError) → Keeps P (h c))
      → Keeps P (catch m h)
  unfolding catch
  Keeps-catch m h km kh = record { after = λ s p. let (r, s') = m s in settle r s' (km.after s p) }
    where
      settle : (r : Result A) (s' : S) → P s' → P (handled r s' h).1
      settle (ok a) s' q = q
      settle (err c) s' q = (kh c).after s' q

module _ {ℓ μ} {S : Type ℓ} {P : S → Type μ} where
  pub Keeps-modify : (f : S → S) → ((s : S) → P s → P (f s)) → Keeps P (modify f)
  unfolding modify
  Keeps-modify f k = record { after = k }

  pub Keeps-ensure : (b : Bool) (c : PyError) → Keeps P (ensure b c)
  unfolding ensure
  Keeps-ensure true c = Keeps-pure tt
  Keeps-ensure false c = Keeps-raise c

  pub Keeps-when : (b : Bool) (m : Exec S (Unit {0})) → Keeps P m → Keeps P (when b m)
  unfolding when
  Keeps-when true m km = km
  Keeps-when false m km = Keeps-pure tt

module _ {ℓ κ ν μ} {S : Type ℓ} {A : Type κ} {B : Type ν} {P : S → Type μ} where
  pub Keeps-bind :
      (m : Exec S A) (next : A → Exec S B)
      → Keeps P m
      → ((a : A) → Keeps P (next a))
      → Keeps P (m >>= next)
  unfolding ◌>>=◌
  Keeps-bind m next km kf = record {
    after = λ s p. let (r, s') = m s in settle r s' (km.after s p);
  }
    where
      settle : (r : Result A) (s' : S) → P s' → P (continue r s' next).1
      settle (ok a) s' q = (kf a).after s' q
      settle (err c) s' q = q

module _ {ℓ κ μ} {S : Type ℓ} {A : Type κ} {P : S → Type μ} where
  pub Keeps-for_each :
      (xs : List A) (body : A → Exec S (Unit {0}))
      → ((x : A) → Keeps P (body x))
      → Keeps P (for_each xs body)
  unfolding for_each
  Keeps-for_each [] body k = Keeps-pure tt
  Keeps-for_each (x ∷ xs) body k =
      Keeps-bind (body x) (λ _. for_each xs body) (k x) (λ _. Keeps-for_each xs body k)

module _ {ℓ κ ν μ} {S : Type ℓ} {T : Type κ} {A : Type ν} {P : S → Type μ} where
  pub Keeps-within :
      (part : S → T) (back : T → S → S) (m : Exec T A)
      → ((s : S) → P s → P (back (m (part s)).1 s))
      → Keeps P (within part back m)
  unfolding within
  Keeps-within part back m k = record { after = k }

pub ruleset keeps_rules = (
  Keeps-pure, Keeps-raise, Keeps-gets, Keeps-require, Keeps-if, Keeps-catch, Keeps-ensure,
  Keeps-when, Keeps-bind, Keeps-for_each,
)
