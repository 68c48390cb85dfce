-- ===== src/Prelude/Lists.antt =====
-- Lists measured by native numbers, and the loops over rows and members that the program makes.
use Prim.Native.Nat.{ℕ, zero, suc, ◌+◌, ◌-◌, ◌≤◌, min}
use mathlib.Core.Path.{◌≡◌, refl, ap}
use mathlib.Core.Bool.{Bool, true, false, ◌&&◌, ◌||◌, not}
use mathlib.Core.List.{List, [], ◌∷◌, ◌++◌}
use mathlib.Core.Option.{Option, none, some}
use mathlib.Core.Logic.{inl, inr}
use native.Mathlib.Omega.{arith}
use g04_final_project_d_25_c.Prelude.Tests.{if◌then◌else◌, Eq, ◌==◌, Bool-cases}

abbrev pub Bytes : Type 0
Bytes = List ℕ

module _ {ℓ} {A : Type ℓ} where
  abbrev pub length : List A → ℕ
  length [] = 0
  length (x ∷ xs) = suc (length xs)

  abbrev pub take : ℕ → List A → List A
  take zero xs = []
  take (suc n) [] = []
  take (suc n) (x ∷ xs) = x ∷ take n xs

  abbrev pub drop : ℕ → List A → List A
  drop zero xs = xs
  drop (suc n) [] = []
  drop (suc n) (x ∷ xs) = drop n xs

  -- The first row that passes the test.
  abbrev pub find_row : (A → Bool) → List A → Option A
  find_row p [] = none
  find_row p (x ∷ xs) = if p x then some x else find_row p xs

  -- A list comprehension with a condition; `DELETE` keeps the rows that fail its test.
  abbrev pub keep_if : (A → Bool) → List A → List A
  keep_if p [] = []
  keep_if p (x ∷ xs) = if p x then x ∷ keep_if p xs else keep_if p xs

  abbrev pub update_rows : (A → Bool) → (A → A) → List A → List A
  update_rows p f [] = []
  update_rows p f (x ∷ xs) = (if p x then f x else x) ∷ update_rows p f xs

  abbrev pub any_row : (A → Bool) → List A → Bool
  any_row p [] = false
  any_row p (x ∷ xs) = p x || any_row p xs

  abbrev pub is_empty : List A → Bool
  is_empty [] = true
  is_empty (x ∷ xs) = false

  pub length-append : (xs ys : List A) → length (xs ++ ys) ≡ length xs + length ys
  length-append [] ys = omega arith
  length-append (x ∷ xs) ys = omega (arith, length-append xs ys)

  pub take-append-drop : (n : ℕ) (xs : List A) → take n xs ++ drop n xs ≡ xs
  take-append-drop zero xs = refl
  take-append-drop (suc n) [] = refl
  take-append-drop (suc n) (x ∷ xs) = ap (λ t. x ∷ t) (take-append-drop n xs)

  pub length-take : (n : ℕ) (xs : List A) → length (take n xs) ≡ min n (length xs)
  length-take zero xs = omega arith
  length-take (suc n) [] = omega arith
  length-take (suc n) (x ∷ xs) = omega (arith, length-take n xs)

  pub length-drop : (n : ℕ) (xs : List A) → length (drop n xs) ≡ length xs - n
  length-drop zero xs = omega arith
  length-drop (suc n) [] = omega arith
  length-drop (suc n) (x ∷ xs) = omega (arith, length-drop n xs)

  pub length-keep_if-le : (p : A → Bool) (xs : List A) → length (keep_if p xs) ≤ length xs
  length-keep_if-le p [] = omega arith
  length-keep_if-le p (x ∷ xs) = ground (arith, length-keep_if-le p xs)

module _ {ℓ} {A : Type ℓ} ⦃e : Eq A⦄ where
  -- `a in xs`
  abbrev pub contains : A → List A → Bool
  contains a [] = false
  contains a (x ∷ xs) = (x == a) || contains a xs

  -- `xs.discard(a)` of a set, held as the list of its members.
  abbrev pub discard : A → List A → List A
  discard a [] = []
  discard a (x ∷ xs) = if x == a then discard a xs else x ∷ discard a xs

  -- `xs.add(a)` of a set.
  abbrev pub add : A → List A → List A
  add a xs = if contains a xs then xs else xs ++ a ∷ []

  -- `xs.remove(a)` of a list: the first occurrence.
  abbrev pub remove_first : A → List A → List A
  remove_first a [] = []
  remove_first a (x ∷ xs) = if x == a then xs else x ∷ remove_first a xs

  pub contains-append :
      (a : A) (xs ys : List A) → contains a (xs ++ ys) ≡ (contains a xs || contains a ys)
  contains-append a [] ys = refl
  contains-append a (x ∷ xs) ys = ground (arith, contains-append a xs ys)

  pub contains-discard :
      (a b : A) (xs : List A) → contains b (discard a xs) ≡ (contains b xs && not (a == b))
  contains-discard a b [] = refl
  contains-discard a b (x ∷ xs) =
      ground (arith, contains-discard a b xs, e.same_iff x a, e.same_iff x b, e.same_iff a b)

  pub contains-add : (a b : A) (xs : List A) → contains b (add a xs) ≡ ((a == b) || contains b xs)
  contains-add a b xs = ground (arith, contains-append b xs (a ∷ []), e.same_iff a b)

  pub length-discard-le : (a : A) (xs : List A) → length (discard a xs) ≤ length xs
  length-discard-le a [] = omega arith
  length-discard-le a (x ∷ xs) = ground (arith, length-discard-le a xs)

  -- The members of a set are listed once each.
  abbrev pub IsNodup : List A → Type 0
  IsNodup [] = Unit
  IsNodup (x ∷ xs) = (contains x xs ≡ false) × IsNodup xs

  pub IsNodup-snoc :
      (a : A) (xs : List A) → contains a xs ≡ false → IsNodup xs → IsNodup (xs ++ a ∷ [])
  IsNodup-snoc a [] h n = (refl, tt)
  IsNodup-snoc a (x ∷ xs) h n = (
    ground (arith, contains-append x xs (a ∷ []), e.same_iff x a, e.same_iff a x),
    IsNodup-snoc a xs (ground arith) n.1,
  )

  pub IsNodup-discard : (a : A) (xs : List A) → IsNodup xs → IsNodup (discard a xs)
  IsNodup-discard a [] n = tt
  IsNodup-discard a (x ∷ xs) n = elim (Bool-cases (x == a)) [
    | inl same ↦ ground (arith, IsNodup-discard a xs n.1)
    | inr other ↦ ground (arith, IsNodup-discard a xs n.1, contains-discard a x xs)
  ]

  pub IsNodup-add : (a : A) (xs : List A) → IsNodup xs → IsNodup (add a xs)
  IsNodup-add a xs n = elim (Bool-cases (contains a xs)) [
    | inl old ↦ ground arith
    | inr new ↦ ground (arith, IsNodup-snoc a xs new n)
  ]

  pub length-add :
      (a : A) (xs : List A)
      → length (add a xs) ≡ (if contains a xs then length xs else length xs + 1)
  length-add a xs = ground (arith, length-append xs (a ∷ []))
