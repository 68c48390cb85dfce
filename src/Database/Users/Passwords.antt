-- ===== src/Database/Users/Passwords.antt =====
-- database/db.py, set_user_password: the hash that is written is the one that is read.
use g04_final_project_d_25_c.Prelude.{
  ◌≡◌, refl, true, false, String, String_eq, ◌==◌, none, some, List, [], ◌∷◌, ◌++◌, Bool-cases,
  Option-cases, inl, inr, find_row, update_rows, beq_refl, arith,
}
use g04_final_project_d_25_c.Exec.{ok, ◌>>=◌}
use g04_final_project_d_25_c.Database.{Database, User}
use g04_final_project_d_25_c.Database.Users.{
  find_user_id, get_user_password_hash, set_user_password, user_by_name, id_or_next,
}

found-update_rows :
    (n h : String) (us : List User) (u : User)
    → find_row (λ v. v.username == n) us ≡ some u
    → find_row
        (λ v. v.username == n)
        (update_rows (λ v. v.username == n) (λ v. record v { password_hash = some h }) us)
      ≡ some (record u { password_hash = some h })
found-update_rows n h [] u e = ground arith
found-update_rows n h (v ∷ us) u e = elim (Bool-cases (v.username == n)) [
  | inl same ↦ ground arith
  | inr other ↦ ground (arith, found-update_rows n h us u)
]

found-snoc :
    (n : String) (us : List User) (v : User)
    → find_row (λ w. w.username == n) us ≡ none
    → (v.username == n) ≡ true
    → find_row (λ w. w.username == n) (us ++ v ∷ []) ≡ some v
found-snoc n [] v e k = rw k refl
found-snoc n (u ∷ us) v e k = elim (Bool-cases (u.username == n)) [
  | inl same ↦ ground arith
  | inr other ↦ rw other (found-snoc n us v (ground arith) k)
]

abbrev new_row : String → String → Database → User
new_row n h d = record {
  id = d.users.next_id;
  username = n;
  status = "OFFLINE";
  created_at = d.now;
  password_hash = some h;
}

pub get_user_password_hash-set_user_password :
    (n h : String) (d : Database)
    → (n == "") ≡ false
    → get_user_password_hash n (set_user_password n h d).1 ≡ some h
unfolding get_user_password_hash set_user_password find_user_id ◌>>=◌
get_user_password_hash-set_user_password n h d named = elim (Option-cases (user_by_name n d)) [
  | inl e ↦ rw (named, e, found-snoc n d.users.rows (new_row n h d) e (beq_refl n)) refl
  | inr (u, e) ↦ rw (named, e, found-update_rows n h d.users.rows u e) refl
]

pub set_user_password-ok :
    (n h : String) (d : Database)
    → (n == "") ≡ false
    → (set_user_password n h d).0 ≡ ok (id_or_next (find_user_id n d) d)
unfolding set_user_password ◌>>=◌
set_user_password-ok n h d named = rw named refl
