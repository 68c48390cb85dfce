-- ===== src/Prelude/Letters.antt =====
-- `str.upper` and `str.lower`, as far as they meet ASCII: the letters of ASCII, and the few others
-- that turn into some. Any other character stays, where Python gives one that is not ASCII either.
use Prim.Native.Nat.{ℕ, zero, suc, ◌-◌}
use Prim.Native.Char.{Char, code}
use Prim.Native.String.{String, ◌++◌}
use mathlib.Core.Bool.{◌&&◌}
use g04_final_project_d_25_c.Prelude.Tests.{if◌then◌else◌, leb, nat_eq}

abbrev letter_at : ℕ → String → String
letter_at n String.[] = ""
letter_at zero (String.◌∷◌ c s) = String.◌∷◌ c ""
letter_at (suc n) (String.◌∷◌ c s) = letter_at n s

abbrev upper_char : Char → String
upper_char c =
    let n = code c in
    if leb b'a' n && leb n b'z'
    then letter_at (n - b'a') "ABCDEFGHIJKLMNOPQRSTUVWXYZ"
    else if nat_eq n 223
    then "SS"
    else if nat_eq n 305
    then "I"
    else if nat_eq n 383
    then "S"
    else if nat_eq n 64256
    then "FF"
    else if nat_eq n 64257
    then "FI"
    else if nat_eq n 64258
    then "FL"
    else if nat_eq n 64259
    then "FFI"
    else if nat_eq n 64260
    then "FFL"
    else if nat_eq n 64261
    then "ST"
    else if nat_eq n 64262
    then "ST"
    else String.◌∷◌ c ""

unfoldable pub upper : String → String
upper String.[] = ""
upper (String.◌∷◌ c s) = upper_char c ++ upper s

abbrev lower_char : Char → String
lower_char c =
    let n = code c in
    if leb b'A' n && leb n b'Z'
    then letter_at (n - b'A') "abcdefghijklmnopqrstuvwxyz"
    else if nat_eq n 8490
    then "k"
    else String.◌∷◌ c ""

unfoldable pub lower : String → String
lower String.[] = ""
lower (String.◌∷◌ c s) = lower_char c ++ lower s
