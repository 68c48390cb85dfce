-- ===== src/Database/Sorted.antt =====
-- Sorting loses nothing and makes nothing up.
use g04_final_project_d_25_c.Prelude.{
  ◌||◌, String, List, [], ◌∷◌, ◌≡◌, refl, Eq, ◌==◌, Bool-cases, inl, inr, arith, contains,
}
use g04_final_project_d_25_c.Database.{sort_by, insert_sorted, text_le}

module _ {ℓ} {A : Type ℓ} ⦃e : Eq A⦄ (key : A → String) where
  contains-insert_sorted :
      (a x : A) (ys : List A) → contains a (insert_sorted key x ys) ≡ ((x == a) || contains a ys)
  contains-insert_sorted a x [] = refl
  contains-insert_sorted a x (y ∷ ys) = elim (Bool-cases (text_le (key x) (key y))) [
    | inl le ↦ rw (le) refl
    | inr gt ↦ rw (gt) (ground (arith, contains-insert_sorted a x ys))
  ]

  pub contains-sort_by : (a : A) (xs : List A) → contains a (sort_by key xs) ≡ contains a xs
  unfolding sort_by
  contains-sort_by a [] = refl
  contains-sort_by a (x ∷ xs) =
      ground (arith, contains-insert_sorted a x (sort_by key xs), contains-sort_by a xs)
