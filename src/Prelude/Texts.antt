-- ===== src/Prelude/Texts.antt =====
-- Texts: f-strings as the join of their pieces, `strip`, and the other string methods in use.
use Prim.Native.Nat.{ℕ}
use Prim.Native.Char.{code}
use Prim.Native.String.{String, ◌++◌}
use mathlib.Core.Bool.{Bool, true, ◌&&◌, ◌||◌}
use mathlib.Core.List.{List, [], ◌∷◌}
use g04_final_project_d_25_c.Prelude.Tests.{if◌then◌else◌, leb, nat_eq}

-- `f"…{x}…"`, by its pieces
unfoldable pub join_text : List String → String
join_text [] = ""
join_text (s ∷ ss) = s ++ join_text ss

-- `", ".join(names)`
unfoldable pub join_names : List String → String
join_names [] = ""
join_names (s ∷ []) = s
join_names (s ∷ t ∷ ss) = s ++ (", " ++ join_names (t ∷ ss))

-- `str.isspace` of one character
abbrev pub is_space : ℕ → Bool
is_space c =
    leb 9 c && leb c 13
    || leb 28 c && leb c 32
    || nat_eq c 133
    || nat_eq c 160
    || nat_eq c 5760
    || leb 8192 c && leb c 8202
    || nat_eq c 8232
    || nat_eq c 8233
    || nat_eq c 8239
    || nat_eq c 8287
    || nat_eq c 12288

abbrev pub all_space : String → Bool
all_space String.[] = true
all_space (String.◌∷◌ c s) = is_space (code c) && all_space s

abbrev pub lstrip : String → String
lstrip String.[] = String.[]
lstrip (String.◌∷◌ c s) = if is_space (code c) then lstrip s else String.◌∷◌ c s

abbrev pub rstrip : String → String
rstrip String.[] = String.[]
rstrip (String.◌∷◌ c s) =
    if is_space (code c) && all_space s then String.[] else String.◌∷◌ c (rstrip s)

unfoldable pub strip : String → String
strip s = rstrip (lstrip s)
