-- ===== src/Dict.antt =====
-- Python dictionaries: association lists in the order of insertion. Writing to a key that is there
-- keeps its place, as in Python.
pub mod Runs
use g04_final_project_d_25_c.Prelude.{
  ◌+◌, ◌≤◌, ◌≡◌, refl, ◌≢◌, Bool, Option, none, some, List, [], ◌∷◌, arith, if◌then◌else◌, Eq, ◌==◌,
  Bool-cases, beq_refl, inl, inr, is_some, length, contains,
}

abbrev pub Dict {ℓ κ} : Type ℓ → Type κ → Type (ℓ ⊔ κ)
Dict K V = List (K × V)

module _ {ℓ κ} {K : Type ℓ} {V : Type κ} where
  unfoldable pub keys : Dict K V → List K
  keys [] = []
  keys ((j, v) ∷ d) = j ∷ keys d

  unfoldable pub values : Dict K V → List V
  values [] = []
  values ((j, v) ∷ d) = v ∷ values d

  pub length-keys : (d : Dict K V) → length (keys d) ≡ length d
  unfolding keys
  length-keys [] = refl
  length-keys ((j, v) ∷ d) = ground (arith, length-keys d)

module _ {ℓ κ} {K : Type ℓ} {V : Type κ} ⦃e : Eq K⦄ where
  unfoldable pub get : K → Dict K V → Option V
  get k [] = none
  get k ((j, v) ∷ d) = if j == k then some v else get k d

  -- `d[k] = v`
  unfoldable pub put : K → V → Dict K V → Dict K V
  put k v [] = (k, v) ∷ []
  put k v ((j, w) ∷ d) = if j == k then (j, v) ∷ d else (j, w) ∷ put k v d

  -- `d.pop(k, None)`, for its effect on `d`
  unfoldable pub pop : K → Dict K V → Dict K V
  pop k [] = []
  pop k ((j, w) ∷ d) = if j == k then pop k d else (j, w) ∷ pop k d

  -- `k in d`
  abbrev pub has : K → Dict K V → Bool
  has k d = is_some (get k d)

  pub get-put :
      (k j : K) (v : V) (d : Dict K V) → get j (put k v d) ≡ (if k == j then some v else get j d)
  unfolding get put
  get-put k j v [] = refl
  get-put k j v ((i, w) ∷ d) =
      ground (arith, e.same_iff k j, e.same_iff i k, e.same_iff i j, get-put k j v d)

  pub get-pop : (k j : K) (d : Dict K V) → get j (pop k d) ≡ (if k == j then none else get j d)
  unfolding get pop
  get-pop k j [] = ground arith
  get-pop k j ((i, w) ∷ d) =
      ground (arith, e.same_iff k j, e.same_iff i k, e.same_iff i j, get-pop k j d)

  pub get-put_self : (k : K) (v : V) (d : Dict K V) → get k (put k v d) ≡ some v
  get-put_self k v d = ground (arith, get-put k k v d, beq_refl k)

  pub get-put_ne : (k j : K) (v : V) (d : Dict K V) → k ≢ j → get j (put k v d) ≡ get j d
  get-put_ne k j v d h = ground (arith, get-put k j v d, e.same_iff k j)

  pub get-pop_self : (k : K) (d : Dict K V) → get k (pop k d) ≡ none
  get-pop_self k d = ground (arith, get-pop k k d, beq_refl k)

  pub get-pop_ne : (k j : K) (d : Dict K V) → k ≢ j → get j (pop k d) ≡ get j d
  get-pop_ne k j d h = ground (arith, get-pop k j d, e.same_iff k j)

  pub length-put :
      (k : K) (v : V) (d : Dict K V)
      → length (put k v d) ≡ (if has k d then length d else length d + 1)
  unfolding get put
  length-put k v [] = refl
  length-put k v ((j, w) ∷ d) = elim (Bool-cases (j == k)) [
    | inl same ↦ ground arith
    | inr other ↦ ground (arith, length-put k v d)
  ]

  -- The last value written under a key counts.
  pub put-put : (k : K) (v w : V) (d : Dict K V) → put k v (put k w d) ≡ put k v d
  unfolding put
  put-put k v w [] = rw (beq_refl k) refl
  put-put k v w ((j, x) ∷ d) = elim (Bool-cases (j == k)) [
    | inl same ↦ rw (same, same) refl
    | inr other ↦ rw (other, other, put-put k v w d) refl
  ]

  pub length-pop-le : (k : K) (d : Dict K V) → length (pop k d) ≤ length d
  unfolding pop
  length-pop-le k [] = ground arith
  length-pop-le k ((j, w) ∷ d) = ground (arith, length-pop-le k d)

  -- Removing the first key makes the dictionary shorter.
  pub length-pop_head : (k : K) (v : V) (d : Dict K V) → length (pop k ((k, v) ∷ d)) ≤ length d
  unfolding pop
  length-pop_head k v d = ground (arith, length-pop-le k d, beq_refl k)

  pub contains-keys : (k : K) (d : Dict K V) → contains k (keys d) ≡ has k d
  unfolding keys get
  contains-keys k [] = refl
  contains-keys k ((j, v) ∷ d) = ground (arith, contains-keys k d)
