-- ===== src/Auth.antt =====
-- server/auth.py: validation of names and passwords, password hashes, and accounts.
pub mod Hashing
pub mod Accounts
use Prim.Native.String.{count}
use g04_final_project_d_25_c.Prelude.{
  Bytes, ℕ, zero, suc, ◌+◌, ◌-◌, ◌*◌, ◌/◌, ◌%◌, ℤ, pos, negsuc, Bool, true, false, ◌&&◌, ◌||◌, not,
  Char, code, String, ◌==◌, String_eq, ℕ_eq, Option, none, some, List, [], ◌∷◌, length, leb, nat_eq,
  strip, join_text, if◌then◌else◌, is_some,
}
use g04_final_project_d_25_c.Exec.{
  Result, ok, err, Exec, PyError, value_error, internal_error, pure, raise, gets, ensure, ◌>>=◌,
  ◌>>◌,
}
use g04_final_project_d_25_c.Protocol.{Value, text, py_int}
use g04_final_project_d_25_c.Database.{Database}
use g04_final_project_d_25_c.Database.Users.{get_user_password_hash, set_user_password}
use g04_final_project_d_25_c.Server.{Env}

abbrev pub algo : String
algo = "pbkdf2_sha256"

abbrev pub iterations : ℕ
iterations = 100_000

abbrev pub hash_bytes : ℕ
hash_bytes = 32

abbrev pub hex_char : ℕ → Char
hex_char n =
    if n == 0
    then "0"
    else if n == 1
    then "1"
    else if n == 2
    then "2"
    else if n == 3
    then "3"
    else if n == 4
    then "4"
    else if n == 5
    then "5"
    else if n == 6
    then "6"
    else if n == 7
    then "7"
    else if n == 8
    then "8"
    else if n == 9
    then "9"
    else if n == 10
    then "a"
    else if n == 11
    then "b"
    else if n == 12
    then "c"
    else if n == 13
    then "d"
    else if n == 14
    then "e"
    else "f"

-- `bytes.hex()`
unfoldable pub hex : Bytes → String
hex [] = String.[]
hex (b ∷ bs) = String.◌∷◌ (hex_char (b / 16)) (String.◌∷◌ (hex_char (b % 16)) (hex bs))

abbrev pub hex_value : ℕ → Option ℕ
hex_value c =
    if leb b'0' c && leb c b'9'
    then some (c - b'0')
    else if leb b'a' c && leb c b'f'
    then some (c - b'a' + 10)
    else if leb b'A' c && leb c b'F'
    then some (c - b'A' + 10)
    else none

abbrev pub byte_of : Option ℕ → Option ℕ → Option Bytes → Option Bytes
byte_of none low rest = none
byte_of (some h) none rest = none
byte_of (some h) (some l) none = none
byte_of (some h) (some l) (some bs) = some ((h * 16 + l) ∷ bs)

-- ASCII whitespace, which `bytes.fromhex` skips between two bytes
abbrev pub hex_space : ℕ → Bool
hex_space c = leb 9 c && leb c 13 || nat_eq c 32

-- `bytes.fromhex(text)`
unfoldable pub from_hex : String → Option Bytes
from_hex String.[] = some []
from_hex (String.◌∷◌ c String.[]) = if hex_space (code c) then some [] else none
from_hex (String.◌∷◌ c (String.◌∷◌ d s)) =
    let skipped = from_hex (String.◌∷◌ d s) in
    let paired = byte_of (hex_value (code c)) (hex_value (code d)) (from_hex s) in
    if hex_space (code c) then skipped else paired

abbrev pub first_piece : Char → List String → List String
first_piece c [] = String.◌∷◌ c String.[] ∷ []
first_piece c (p ∷ ps) = String.◌∷◌ c p ∷ ps

-- `encoded.split("$")`
unfoldable pub split_dollar : String → List String
split_dollar String.[] = String.[] ∷ []
split_dollar (String.◌∷◌ c s) =
    if nat_eq (code c) b'$' then String.[] ∷ split_dollar s else first_piece c (split_dollar s)

unfoldable pub bytes_equal : Bytes → Bytes → Bool
bytes_equal [] [] = true
bytes_equal [] (y ∷ ys) = false
bytes_equal (x ∷ xs) [] = false
bytes_equal (x ∷ xs) (y ∷ ys) = nat_eq x y && bytes_equal xs ys

unfoldable pub hash_password : Env → String → Result String
unfolding hex join_text
hash_password env password =
    if password == ""
    then err (value_error "Password must be a non-empty string.")
    else ok (
        join_text (
          algo
          ∷ "$"
          ∷ "100000"
          ∷ "$"
          ∷ hex env.salt
          ∷ "$"
          ∷ hex (env.pbkdf2 password env.salt iterations hash_bytes)
          ∷ []))

-- `hmac.compare_digest` with the digest computed anew. For a count of iterations that is not positive,
-- which `hash_password` never writes, PBKDF2 raises; the model answers false.
unfoldable pub check_digest : Env → String → Option ℕ → Option Bytes → Option Bytes → Bool
unfolding bytes_equal
check_digest env password (some n) (some salt) (some expected) =
    bytes_equal (env.pbkdf2 password salt n (length expected)) expected
check_digest env password _ _ _ = false

abbrev pub whole : Result ℤ → Option ℕ
whole (ok (pos (suc n))) = some (suc n)
whole _ = none

unfoldable pub verify_pieces : Env → String → List String → Bool
unfolding check_digest from_hex py_int
verify_pieces env password (a ∷ n ∷ salt ∷ digest ∷ []) =
    a == algo
    && check_digest env password (whole (py_int (text n))) (from_hex salt) (from_hex digest)
verify_pieces env password _ = false

unfoldable pub verify_password : Env → String → String → Bool
unfolding verify_pieces split_dollar
verify_password env password encoded =
    not (encoded == "") && verify_pieces env password (split_dollar encoded)

abbrev pub name_char : ℕ → Bool
name_char c =
    leb b'A' c && leb c b'Z'
    || leb b'a' c && leb c b'z'
    || leb b'0' c && leb c b'9'
    || nat_eq c b'_'
    || nat_eq c b'-'
    || nat_eq c b'.'

abbrev pub name_chars : String → Bool
name_chars String.[] = true
name_chars (String.◌∷◌ c s) = name_char (code c) && name_chars s

-- The text before a line feed at its end; `$` in a pattern matches there too.
abbrev pub before_newline : String → String
before_newline String.[] = String.[]
before_newline (String.◌∷◌ c String.[]) =
    if nat_eq (code c) 10 then String.[] else String.◌∷◌ c String.[]
before_newline (String.◌∷◌ c (String.◌∷◌ d s)) = String.◌∷◌ c (before_newline (String.◌∷◌ d s))

-- A full match of `[A-Za-z0-9_\-\.]{3,32}`
abbrev pub is_name : String → Bool
is_name s = name_chars s && leb 3 (count s) && leb (count s) 32

-- `_USERNAME_RE.match(candidate)`
unfoldable pub username_matches : String → Bool
username_matches s = is_name s || is_name (before_newline s)

unfoldable pub validate_username : String → Result String
unfolding username_matches strip
validate_username username =
    if username_matches (strip username)
    then ok (strip username)
    else err (
        value_error
          "Username must be 3-32 characters and contain only letters, digits, '_', '-' or '.'")

unfoldable pub validate_password : String → Result String
unfolding strip
validate_password password =
    if not (leb 6 (count password) && leb (count password) 128)
    then err (value_error "Password must be between 6 and 128 characters.")
    else if not (strip password == password)
    then err (value_error "Password must not start or end with whitespace.")
    else ok password

-- A function that may raise, called by a method.
abbrev pub lift {κ} : {A : Type κ} → Result A → Exec Database A
lift (ok a) = pure a
lift (err c) = raise c

-- The truth value of a stored hash: NULL and the empty text are false.
abbrev pub stored_hash : Option String → Bool
stored_hash none = false
stored_hash (some h) = not (h == "")

abbrev pub matches_hash : Env → String → Option String → Bool
matches_hash env password none = false
matches_hash env password (some h) = verify_password env password h

unfoldable pub register : Env → String → String → Exec Database String
register env username password = do
  name ← lift (validate_username username)
  lift (validate_password password)
  existing ← gets (get_user_password_hash name)
  ensure (not (stored_hash existing)) (value_error "Username already registered.")
  hash ← lift (hash_password env password)
  set_user_password name hash
  pure name

unfoldable pub authenticate : Env → String → String → Exec Database String
authenticate env username password = do
  name ← lift (validate_username username)
  ensure (not (password == "")) (value_error "Password is required.")
  stored ← gets (get_user_password_hash name)
  ensure (stored_hash stored) (value_error "Invalid username or password.")
  ensure (matches_hash env password stored) (value_error "Invalid username or password.")
  pure name

unfoldable pub has_account : String → Database → Bool
has_account username db = stored_hash (get_user_password_hash username db)
