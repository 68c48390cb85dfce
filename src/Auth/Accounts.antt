-- ===== src/Auth/Accounts.antt =====
-- server/auth.py: who may register, and who may sign in.
use g04_final_project_d_25_c.Prelude.{
  length, ◌≡◌, refl, Bool, true, false, not, String, String_eq, ◌==◌,
}
use g04_final_project_d_25_c.Exec.{Result, ok, err, value_error, pure, gets, ensure, ◌>>=◌, ◌>>◌}
use g04_final_project_d_25_c.Database.{Database}
use g04_final_project_d_25_c.Database.Users.{get_user_password_hash, set_user_password}
use g04_final_project_d_25_c.Database.Users.Passwords.{
  get_user_password_hash-set_user_password, set_user_password-ok,
}
use g04_final_project_d_25_c.Auth.Hashing.{
  AreBytes, encoded_hash, encoded-not_empty, verify_password-encoded,
}
use g04_final_project_d_25_c.Server.{Env}
use g04_final_project_d_25_c.Auth.{
  validate_username, validate_password, register, authenticate, stored_hash, matches_hash,
  has_account, hash_password, lift, iterations, hash_bytes,
}

-- What a sign-in that succeeds rests on.
abbrev pub IsProved : Env → String → Database → Result String × Database → Type 0
IsProved env password d (err e, d') = d' ≡ d
IsProved env password d (ok name, d') =
    (d' ≡ d)
    × (stored_hash (get_user_password_hash name d) ≡ true)
    × (matches_hash env password (get_user_password_hash name d) ≡ true)

checked :
    (env : Env) (name password : String) (d : Database) (p q r : Bool)
    → stored_hash (get_user_password_hash name d) ≡ q
    → matches_hash env password (get_user_password_hash name d) ≡ r
    → IsProved env password d (
        (do
          ensure p (value_error "Password is required.")
          stored ← gets (get_user_password_hash name)
          ensure (stored_hash stored) (value_error "Invalid username or password.")
          ensure (matches_hash env password stored) (value_error "Invalid username or password.")
          pure name)
          d)
unfolding ◌>>=◌ pure
checked env name password d false q r h k = refl
checked env name password d true false r h k = rw h refl
checked env name password d true true false h k = rw (h, k) refl
checked env name password d true true true h k = rw (h, k) (refl, h, k)

-- Signing in writes nothing; and where it succeeds, the account that it names has a stored hash, and
-- the password given checks against that hash.
pub authenticate-IsProved :
    (env : Env) (username password : String) (d : Database)
    → IsProved env password d (authenticate env username password d)
unfolding authenticate ◌>>=◌
authenticate-IsProved env username password d = by_name (validate_username username)
  where
    by_name :
        (v : Result String)
        → IsProved env password d (
            (do
              name ← lift v
              ensure (not (password == "")) (value_error "Password is required.")
              stored ← gets (get_user_password_hash name)
              ensure (stored_hash stored) (value_error "Invalid username or password.")
              ensure
                  (matches_hash env password stored)
                  (value_error "Invalid username or password.")
              pure name)
              d)
    by_name (err e) = refl
    by_name (ok name) =
        checked env name password d (not (password == ""))
          (stored_hash (get_user_password_hash name d))
          (matches_hash env password (get_user_password_hash name d)) refl refl

abbrev pub is_err : Result String → Bool
is_err (ok name) = false
is_err (err e) = true

-- A name that has a stored hash cannot be registered again: the attempt fails, and writes nothing.
pub register-taken :
    (env : Env) (username password name : String) (d : Database)
    → validate_username username ≡ ok name
    → has_account name d ≡ true
    → (is_err (register env username password d).0 ≡ true)
      × ((register env username password d).1 ≡ d)
unfolding register ◌>>=◌ has_account
register-taken env username password name d valid taken =
    rw valid (by_password (validate_password password))
  where
    by_password :
        (v : Result String)
        → (is_err
              ((do
                lift v
                existing ← gets (get_user_password_hash name)
                ensure (not (stored_hash existing)) (value_error "Username already registered.")
                hash ← lift (hash_password env password)
                set_user_password name hash
                pure name)
                d).0
            ≡ true)
          × (((do
            lift v
            existing ← gets (get_user_password_hash name)
            ensure (not (stored_hash existing)) (value_error "Username already registered.")
            hash ← lift (hash_password env password)
            set_user_password name hash
            pure name)
                d).1
              ≡ d)
    by_password (err e) = (refl, refl)
    by_password (ok p) = rw taken (refl, refl)

-- A registration with a valid name and password, for a name that has no stored hash yet, succeeds,
-- and then the same name and password sign in, where PBKDF2 gives the same digest again, of the
-- length that is asked for, and it and the salt are bytes.
pub register-authenticate :
    (env env' : Env) (username password name : String) (d : Database)
    → validate_username username ≡ ok name
    → validate_password password ≡ ok password
    → (name == "") ≡ false
    → (password == "") ≡ false
    → has_account name d ≡ false
    → AreBytes env.salt
    → AreBytes (env.pbkdf2 password env.salt iterations hash_bytes)
    → length (env.pbkdf2 password env.salt iterations hash_bytes) ≡ hash_bytes
    → env'.pbkdf2 password env.salt iterations hash_bytes
      ≡ env.pbkdf2 password env.salt iterations hash_bytes
    → ((register env username password d).0 ≡ ok name)
      × (authenticate env' username password (register env username password d).1
          ≡ (ok name, (register env username password d).1))
unfolding register authenticate has_account hash_password ◌>>=◌
register-authenticate env env' username password name d valid good named given free salt digest size
      same =
    rw (valid, good, free, given, set_user_password-ok name _ d named)
      (
        refl,
        rw
            (
              get_user_password_hash-set_user_password name
                  (encoded_hash env.salt (env.pbkdf2 password env.salt iterations hash_bytes)) d
                  named,
              encoded-not_empty env.salt (env.pbkdf2 password env.salt iterations hash_bytes) salt
                  digest,
              verify_password-encoded env' password env.salt
                  (env.pbkdf2 password env.salt iterations hash_bytes) salt digest size same,
            )
            refl,
      )
