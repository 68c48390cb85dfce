-- ===== src/Exec/Defs.antt =====
-- Methods that change an object and may raise. What was written before a raise stays written, so
-- the state comes back beside the exception too.
use g04_final_project_d_25_c.Prelude.{
  Bool, true, false, List, [], ◌∷◌, String, Option, none, some, if◌then◌else◌,
}

-- `value_error` carries the text that reaches the user; `internal_error` is every other exception.
pub data PyError : Type 0 where
  value_error : String → PyError
  internal_error : PyError

pub data Result {ℓ} (A : Type ℓ) : Type ℓ where
  ok : A → Result A
  err : PyError → Result A

abbrev pub Exec {ℓ κ} : Type ℓ → Type κ → Type (ℓ ⊔ κ)
Exec S A = S → Result A × S

module _ {ℓ κ} {S : Type ℓ} {A : Type κ} where
  unfoldable pub pure : A → Exec S A
  pure a s = (ok a, s)

  unfoldable pub raise : PyError → Exec S A
  raise c s = (err c, s)

  unfoldable pub gets : (S → A) → Exec S A
  gets f s = (ok (f s), s)

  -- `try: m` / `except Exception as exc: handler(exc)`
  abbrev pub handled : Result A → S → (PyError → Exec S A) → Result A × S
  handled (ok a) s h = (ok a, s)
  handled (err c) s h = h c s

  unfoldable pub catch : Exec S A → (PyError → Exec S A) → Exec S A
  unfolding pure raise gets
  catch m h s = let (r, s') = m s in handled r s' h

module _ {ℓ} {S : Type ℓ} where
  unfoldable pub modify : (S → S) → Exec S (Unit {0})
  modify f s = (ok tt, f s)

  -- `if not b: raise c`
  unfoldable pub ensure : Bool → PyError → Exec S (Unit {0})
  unfolding pure raise
  ensure true c = pure tt
  ensure false c = raise c

  -- `if b: m`
  unfoldable pub when : Bool → Exec S (Unit {0}) → Exec S (Unit {0})
  unfolding pure
  when b m = if b then m else pure tt

module _ {ℓ κ} {S : Type ℓ} {A : Type κ} where
  -- The value that an optional one holds, or an exception.
  unfoldable pub require : Option A → PyError → Exec S A
  unfolding pure raise
  require none c = raise c
  require (some a) c = pure a

module _ {ℓ κ μ} {S : Type ℓ} {A : Type κ} {B : Type μ} where
  abbrev pub continue : Result A → S → (A → Exec S B) → Result B × S
  continue (ok a) s f = f a s
  continue (err c) s f = (err c, s)

  infixl 10 ◌>>=◌ ◌>>◌
  -- Opening this opens the other actions too.
  unfoldable pub ◌>>=◌ : Exec S A → (A → Exec S B) → Exec S B
  unfolding pure raise gets modify ensure when require
  ◌>>=◌ m f s = let (r, s') = m s in continue r s' f

  abbrev pub ◌>>◌ : Exec S A → Exec S B → Exec S B
  m >> n = m >>= λ _. n

-- `for x in xs: body(x)`
module _ {ℓ κ} {S : Type ℓ} {A : Type κ} where
  unfoldable pub for_each : List A → (A → Exec S (Unit {0})) → Exec S (Unit {0})
  for_each [] body = pure tt
  for_each (x ∷ xs) body = do body x; for_each xs body

-- A method of a component, run on the component that a larger state holds.
module _ {ℓ κ μ} {S : Type ℓ} {T : Type κ} {A : Type μ} where
  unfoldable pub within : (S → T) → (T → S → S) → Exec T A → Exec S A
  within part back m s = let (r, t) = m (part s) in (r, back t s)
