-- ===== src/Dict/Runs.antt =====
-- Dictionaries from sequence numbers: a run of consecutive ones, and the dictionary that a list of
-- arrivals builds up.
use g04_final_project_d_25_c.Prelude.{
  ℕ, suc, ◌<◌, ◌≡◌, refl, ap, sym, ◌∙◌, false, some, List, [], ◌∷◌, ◌++◌, arith, ◌==◌, ℕ_eq,
  contains, Bool-cases, inl, inr,
}
use g04_final_project_d_25_c.Dict.{Dict, keys, get, put, pop, get-pop_ne}

-- The values under `i`, `i + 1` and so on are those of the list.
abbrev pub HoldsRun {ℓ} : {V : Type ℓ} → ℕ → List V → Dict ℕ V → Type ℓ
HoldsRun i [] d = Unit
HoldsRun i (v ∷ vs) d = (get i d ≡ some v) × HoldsRun (suc i) vs d

module _ {ℓ} {V : Type ℓ} where
  -- Taking away an earlier key leaves a run.
  pub HoldsRun-pop :
      (k i : ℕ) (vs : List V) (d : Dict ℕ V) → k < i → HoldsRun i vs d → HoldsRun i vs (pop k d)
  HoldsRun-pop k i [] d lt h = tt
  HoldsRun-pop k i (v ∷ vs) d lt h =
      (get-pop_ne k i d (λ e. omega arith) ∙ h.0, HoldsRun-pop k (suc i) vs d (omega arith) h.1)

  -- A key that is new is written at the end.
  pub put-snoc :
      (k : ℕ) (v : V) (d : Dict ℕ V) → contains k (keys d) ≡ false → put k v d ≡ d ++ (k, v) ∷ []
  unfolding keys put
  put-snoc k v [] h = refl
  put-snoc k v ((j, w) ∷ d) h = elim (Bool-cases (j == k)) [
    | inl same ↦ ground arith
    | inr other ↦ rw (other, put-snoc k v d (ground arith)) refl
  ]

  pub keys-append : (c d : Dict ℕ V) → keys (c ++ d) ≡ keys c ++ keys d
  unfolding keys
  keys-append [] d = refl
  keys-append ((j, v) ∷ c) d = ap (λ l. j ∷ l) (keys-append c d)

  -- Keys that are new to the dictionary, and differ from each other.
  abbrev pub AreNew : Dict ℕ V → Dict ℕ V → Type 0
  AreNew [] d = Unit
  AreNew ((k, v) ∷ arrivals) d = (contains k (keys d) ≡ false) × AreNew arrivals (d ++ (k, v) ∷ [])

  pub append_one : (d e : Dict ℕ V) (x : ℕ × V) → (d ++ x ∷ []) ++ e ≡ d ++ x ∷ e
  append_one [] e x = refl
  append_one (y ∷ d) e x = ap (λ l. y ∷ l) (append_one d e x)

  pub append_nil : (d : Dict ℕ V) → d ++ [] ≡ d
  append_nil [] = refl
  append_nil (y ∷ d) = ap (λ l. y ∷ l) (append_nil d)

  -- A loop that writes one arrival after the other, as the client of a dictionary has it.
  abbrev pub put_all : Dict ℕ V → Dict ℕ V → Dict ℕ V
  put_all [] d = d
  put_all ((k, v) ∷ arrivals) d = put_all arrivals (put k v d)

  pub put_all-append :
      (arrivals d : Dict ℕ V) → AreNew arrivals d → put_all arrivals d ≡ d ++ arrivals
  put_all-append [] d h = sym (append_nil d)
  put_all-append ((k, v) ∷ arrivals) d h =
      rw (put-snoc k v d h.0)
        (put_all-append arrivals (d ++ (k, v) ∷ []) h.1 ∙ append_one d arrivals (k, v))
