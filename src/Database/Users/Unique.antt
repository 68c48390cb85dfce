-- ===== src/Database/Users/Unique.antt =====
-- database/db.py, the table of users: every name is there once (`username TEXT UNIQUE`).
use g04_final_project_d_25_c.Prelude.{
  ◌≡◌, refl, ap, Bool, true, false, String, ◌==◌, String_eq, Option, none, some, List, [], ◌∷◌,
  ◌++◌, arith, Bool-cases, inl, inr, if◌then◌else◌, contains, IsNodup, IsNodup-snoc, find_row,
  update_rows,
}
use g04_final_project_d_25_c.Database.{Database, User}
use g04_final_project_d_25_c.Database.Users.{find_user_id, insert_user, update_users}

abbrev pub usernames : List User → List String
usernames [] = []
usernames (u ∷ us) = u.username ∷ usernames us

usernames-snoc :
    (us : List User) (v : User) → usernames (us ++ v ∷ []) ≡ usernames us ++ v.username ∷ []
usernames-snoc [] v = refl
usernames-snoc (u ∷ us) v = ap (λ l. u.username ∷ l) (usernames-snoc us v)

username-if :
    (b : Bool) (u v : User) → v.username ≡ u.username → (if b then v else u).username ≡ u.username
username-if true u v e = e
username-if false u v e = refl

usernames-update_rows :
    (p : User → Bool) (f : User → User) (us : List User)
    → ((u : User) → (f u).username ≡ u.username)
    → usernames (update_rows p f us) ≡ usernames us
usernames-update_rows p f [] h = refl
usernames-update_rows p f (u ∷ us) h =
    rw (username-if (p u) u (f u) (h u), usernames-update_rows p f us h) refl

contains-usernames :
    (n : String) (us : List User)
    → find_row (λ u. u.username == n) us ≡ none
    → contains n (usernames us) ≡ false
contains-usernames n [] h = refl
contains-usernames n (u ∷ us) h = elim (Bool-cases (u.username == n)) [
  | inl same ↦ ground arith
  | inr other ↦ rw other (contains-usernames n us (ground arith))
]

missing : (o : Option User) → (elim o [ none ↦ none | some u ↦ some u.id ]) ≡ none → o ≡ none
missing none h = refl
missing (some u) h = ground arith

abbrev pub HasUniqueNames : Database → Type 0
HasUniqueNames d = IsNodup (usernames d.users.rows)

pub insert_user-HasUniqueNames :
    (n v : String) (h : Option String) (d : Database)
    → find_user_id n d ≡ none
    → HasUniqueNames d
    → HasUniqueNames (insert_user n v h d)
unfolding find_user_id
insert_user-HasUniqueNames n v h d new k = rw (usernames-snoc d.users.rows _) (
    IsNodup-snoc n (usernames d.users.rows)
      (contains-usernames n d.users.rows
        (missing (find_row (λ u. u.username == n) d.users.rows) new))
      k)

pub update_users-HasUniqueNames :
    (p : User → Bool) (f : User → User) (d : Database)
    → ((u : User) → (f u).username ≡ u.username)
    → HasUniqueNames d
    → HasUniqueNames (update_users p f d)
update_users-HasUniqueNames p f d h k = rw (usernames-update_rows p f d.users.rows h) k
