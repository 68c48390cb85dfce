-- ===== src/Auth/Hashing.antt =====
-- server/auth.py: a stored hash is read back as what was written.
use Prim.Native.String.{◌++◌ as append}
use g04_final_project_d_25_c.Prelude.{
  Bytes, ℕ, zero, suc, ◌+◌, ◌*◌, ◌/◌, ◌%◌, ◌<◌, ◌≡◌, refl, ap, ◌∙◌, sym, subst, Bool, true, false,
  Char, code, String, String_eq, ◌==◌, some, [], ◌∷◌, length, if◌then◌else◌, nat_eq, arith,
  join_text, Bool-cases, inl, inr,
}
use package.text.Mathlib.TextLemmas.{nil-append, cons-append, append-nil}
use g04_final_project_d_25_c.Protocol.{text, py_int}
use g04_final_project_d_25_c.Server.{Env}
use g04_final_project_d_25_c.Exec.{ok, err}
use g04_final_project_d_25_c.Auth.{
  hex, hex_char, hex_value, hex_space, from_hex, split_dollar, bytes_equal, algo, hash_bytes,
  iterations, hash_password, verify_password, verify_pieces, check_digest,
}

if_all :
    {A : Type 0} (P : A → Type 0) (b : Bool) (x y : A)
    → (b ≡ true → P x)
    → (b ≡ false → P y)
    → P (if b then x else y)
if_all P true x y h k = h refl
if_all P false x y h k = k refl

-- The digit, as a hexadecimal one, and not a dollar sign or a space.
abbrev IsDigit : ℕ → Char → Type 0
IsDigit n c =
    (hex_value (code c) ≡ some n) × (nat_eq (code c) b'$' ≡ false) × (hex_space (code c) ≡ false)

hex_char-IsDigit : (n : ℕ) → n < 16 → IsDigit n (hex_char n)
hex_char-IsDigit zero h = (refl, refl, refl)
hex_char-IsDigit (suc zero) h = (refl, refl, refl)
hex_char-IsDigit (suc (suc zero)) h = (refl, refl, refl)
hex_char-IsDigit (suc (suc (suc zero))) h = (refl, refl, refl)
hex_char-IsDigit (suc (suc (suc (suc zero)))) h = (refl, refl, refl)
hex_char-IsDigit (suc (suc (suc (suc (suc zero))))) h = (refl, refl, refl)
hex_char-IsDigit (suc (suc (suc (suc (suc (suc zero)))))) h = (refl, refl, refl)
hex_char-IsDigit (suc (suc (suc (suc (suc (suc (suc zero))))))) h = (refl, refl, refl)
hex_char-IsDigit (suc (suc (suc (suc (suc (suc (suc (suc zero)))))))) h = (refl, refl, refl)
hex_char-IsDigit (suc (suc (suc (suc (suc (suc (suc (suc (suc zero))))))))) h = (refl, refl, refl)
hex_char-IsDigit (suc (suc (suc (suc (suc (suc (suc (suc (suc (suc zero)))))))))) h =
    (refl, refl, refl)
hex_char-IsDigit (suc (suc (suc (suc (suc (suc (suc (suc (suc (suc (suc zero))))))))))) h =
    (refl, refl, refl)
hex_char-IsDigit (suc (suc (suc (suc (suc (suc (suc (suc (suc (suc (suc (suc zero)))))))))))) h =
    (refl, refl, refl)
hex_char-IsDigit (suc (suc (suc (suc (suc (suc (suc (suc (suc (suc (suc (suc (suc zero)))))))))))))
      h =
    (refl, refl, refl)
hex_char-IsDigit
      (suc (suc (suc (suc (suc (suc (suc (suc (suc (suc (suc (suc (suc (suc zero)))))))))))))) h =
    (refl, refl, refl)
hex_char-IsDigit
      (suc (suc (suc (suc (suc (suc (suc (suc (suc (suc (suc (suc (suc (suc (suc zero)))))))))))))))
      h =
    (refl, refl, refl)
hex_char-IsDigit
      (suc
        (suc (suc (suc (suc (suc (suc (suc (suc (suc (suc (suc (suc (suc (suc (suc n))))))))))))))))
      h =
    ground arith

abbrev pub AreBytes : Bytes → Type 0
AreBytes [] = Unit
AreBytes (b ∷ bs) = (b < 256) × AreBytes bs

low : (b : ℕ) → b % 16 < 16
low b = omega arith

high : (b : ℕ) → b < 256 → b / 16 < 16
high b h = omega arith

rebuilt : (b : ℕ) → b / 16 * 16 + b % 16 ≡ b
rebuilt b = omega arith

pub from_hex-hex : (bs : Bytes) → AreBytes bs → from_hex (hex bs) ≡ some bs
unfolding from_hex hex
from_hex-hex [] h = refl
from_hex-hex (b ∷ bs) h =
    let (v, d, s) = hex_char-IsDigit (b / 16) (high b h.0) in
    let (v', d', s') = hex_char-IsDigit (b % 16) (low b) in
    rw (s, v, v', from_hex-hex bs h.1, rebuilt b) refl

pub bytes_equal_refl : (bs : Bytes) → bytes_equal bs bs ≡ true
unfolding bytes_equal
bytes_equal_refl [] = refl
bytes_equal_refl (b ∷ bs) = ground (arith, bytes_equal_refl bs)

-- No character is a dollar sign.
abbrev no_dollar : String → Bool
no_dollar String.[] = true
no_dollar (String.◌∷◌ c s) = if nat_eq (code c) b'$' then false else no_dollar s

no_dollar-hex : (bs : Bytes) → AreBytes bs → no_dollar (hex bs) ≡ true
unfolding hex
no_dollar-hex [] h = refl
no_dollar-hex (b ∷ bs) h =
    let (v, d, s) = hex_char-IsDigit (b / 16) (high b h.0) in
    let (v', d', s') = hex_char-IsDigit (b % 16) (low b) in rw (d, d') (no_dollar-hex bs h.1)

if_true : (b c : Bool) → (if b then false else c) ≡ true → (b ≡ false) × (c ≡ true)
if_true true c h = ground arith
if_true false c h = (refl, h)

-- A piece ends where the dollar sign after it stands, or at the end of the text.
split_dollar-piece :
    (s rest : String)
    → no_dollar s ≡ true
    → split_dollar (append s (append "$" rest)) ≡ s ∷ split_dollar rest
unfolding split_dollar
split_dollar-piece String.[] rest h =
    rw (nil-append (append "$" rest), cons-append "$" "" rest, nil-append rest) refl
split_dollar-piece (String.◌∷◌ c s) rest h =
    let (d, k) = if_true (nat_eq (code c) b'$') (no_dollar s) h in
    rw (cons-append c s (append "$" rest), d, split_dollar-piece s rest k) refl

split_dollar-last : (s : String) → no_dollar s ≡ true → split_dollar s ≡ s ∷ []
unfolding split_dollar
split_dollar-last String.[] h = refl
split_dollar-last (String.◌∷◌ c s) h =
    let (d, k) = if_true (nat_eq (code c) b'$') (no_dollar s) h in
    rw (d, split_dollar-last s k) refl

-- The text that `hash_password` writes.
abbrev pub encoded_hash : Bytes → Bytes → String
encoded_hash salt digest =
    join_text (algo ∷ "$" ∷ "100000" ∷ "$" ∷ hex salt ∷ "$" ∷ hex digest ∷ [])

pub split_dollar-encoded_hash :
    (salt digest : Bytes)
    → AreBytes salt
    → AreBytes digest
    → split_dollar (encoded_hash salt digest) ≡ algo ∷ "100000" ∷ hex salt ∷ hex digest ∷ []
unfolding join_text
split_dollar-encoded_hash salt digest h k =
    split_dollar-piece algo _ refl
    ∙ ap (λ l. algo ∷ l) (split_dollar-piece "100000" _ refl)
    ∙ ap (λ l. algo ∷ "100000" ∷ l) (split_dollar-piece (hex salt) _ (no_dollar-hex salt h))
    ∙ ap (λ l. algo ∷ "100000" ∷ hex salt ∷ l)
        (ap split_dollar (append-nil (hex digest))
          ∙ split_dollar-last (hex digest) (no_dollar-hex digest k))

four_ne_one : (b c : Bool) (n m : ℕ) → n ≡ 4 → m ≡ 1 → n ≡ m → b ≡ c
four_ne_one b c n m i j h = ground arith

pub encoded-not_empty :
    (salt digest : Bytes)
    → AreBytes salt
    → AreBytes digest
    → (encoded_hash salt digest == "") ≡ false
unfolding split_dollar
encoded-not_empty salt digest h k = elim (Bool-cases (encoded_hash salt digest == "")) [
  | inl e ↦
      let pieces =
        sym (split_dollar-encoded_hash salt digest h k)
        ∙ ap split_dollar ((String_eq.same_iff (encoded_hash salt digest) "").0 e) in
      four_ne_one _ _ 4 1 refl refl (ap length pieces)
  | inr e ↦ e
]

pub verify_password-encoded :
    (env : Env) (password : String) (salt digest : Bytes)
    → AreBytes salt
    → AreBytes digest
    → length digest ≡ hash_bytes
    → env.pbkdf2 password salt iterations hash_bytes ≡ digest
    → verify_password env password (encoded_hash salt digest) ≡ true
unfolding verify_password verify_pieces check_digest py_int from_hex
verify_password-encoded env password salt digest h k size made =
    rw (encoded-not_empty salt digest h k, split_dollar-encoded_hash salt digest h k)
      (rw (from_hex-hex salt h, from_hex-hex digest k, size, made, bytes_equal_refl digest) refl)

value_of : {A : Type 0} (P : A → Type 0) (a b : A) → ok a ≡ ok b → P a → P b
value_of P a b e h = subst (λ r. elim r [ ok c ↦ P c | err c ↦ Unit {0} ]) e h

-- A password is checked against the hash that `hash_password` made of it, with the same PBKDF2: where
-- the salt and the digest are bytes and the digest has the length that was asked for, it is accepted.
pub verify_password-hash_password :
    (env env' : Env) (password encoded : String)
    → env'.pbkdf2 password env.salt iterations hash_bytes
      ≡ env.pbkdf2 password env.salt iterations hash_bytes
    → AreBytes env.salt
    → AreBytes (env.pbkdf2 password env.salt iterations hash_bytes)
    → length (env.pbkdf2 password env.salt iterations hash_bytes) ≡ hash_bytes
    → hash_password env password ≡ ok encoded
    → verify_password env' password encoded ≡ true
unfolding hash_password
verify_password-hash_password env env' password encoded same salt digest size h =
    elim (Bool-cases (password == "")) [
      | inl e ↦ ground arith
      | inr e ↦
          value_of (λ t. verify_password env' password t ≡ true)
            (encoded_hash env.salt (env.pbkdf2 password env.salt iterations hash_bytes)) encoded
            (sym (rw (e, hash_password) refl) ∙ h)
            (verify_password-encoded env' password env.salt
              (env.pbkdf2 password env.salt iterations hash_bytes) salt digest size same)
    ]
