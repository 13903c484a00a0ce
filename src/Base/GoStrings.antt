-- ===== src/Base/GoStrings.antt =====
-- What the program uses of Go's package `strings`, and `len` of a string, which counts bytes of UTF-8.
use Prim.Native.Nat.{ℕ, ◌+◌}
use Prim.Native.Char.{Char, code}
use Prim.Native.String.{String, [], ◌∷◌, ◌++◌}
use mathlib.Core.Bool.{Bool, true, false, ◌&&◌, ◌||◌}
use mathlib.Core.List
use text.Mathlib.Text.{◌==◌}
use dbprobe.Base.Tests.{ltb, leb, nat_eq, if◌then◌else◌}

abbrev same_char : Char → Char → Bool
same_char c d = nat_eq (code c) (code d)

abbrev char_len : Char → ℕ
char_len c =
    if ltb (code c) 128
    then 1
    else if ltb (code c) 2048
    then 2
    else if ltb (code c) 65536
    then 3
    else 4

unfoldable pub byte_len : String → ℕ
byte_len [] = 0
byte_len (c ∷ s) = char_len c + byte_len s

-- `strings.HasPrefix(s, prefix)`
unfoldable pub has_prefix : String → String → Bool
has_prefix s [] = true
has_prefix [] (d ∷ prefix) = false
has_prefix (c ∷ s) (d ∷ prefix) = same_char c d && has_prefix s prefix

-- `strings.ToUpper(s) == "ON"`: no other letters have O or N as upper case
unfoldable pub upper_is_on : String → Bool
upper_is_on s = (s == "ON") || (s == "On") || (s == "oN") || (s == "on")

-- `unicode.IsSpace`
abbrev pub is_space : Char → Bool
is_space c =
    (leb 9 (code c) && leb (code c) 13)
    || nat_eq (code c) 32
    || nat_eq (code c) 133
    || nat_eq (code c) 160
    || nat_eq (code c) 5760
    || (leb 8192 (code c) && leb (code c) 8202)
    || nat_eq (code c) 8232
    || nat_eq (code c) 8233
    || nat_eq (code c) 8239
    || nat_eq (code c) 8287
    || nat_eq (code c) 12288

unfoldable pub trim_left : String → String
trim_left [] = []
trim_left (c ∷ s) = let rest = trim_left s in if is_space c then rest else c ∷ s

unfoldable pub trim_right : String → String
trim_right [] = []
trim_right (c ∷ s) = let rest = trim_right s in if is_space c && (rest == "") then [] else c ∷ rest

-- `strings.TrimSpace`
unfoldable pub trim_space : String → String
trim_space s = trim_right (trim_left s)

-- `strings.Split(text, "->")`, after the text that was read of the current part
unfoldable pub split_arrow : String → String → List.List String
split_arrow part [] = List.◌∷◌ part List.[]
split_arrow part (c ∷ []) = List.◌∷◌ (part ++ (c ∷ [])) List.[]
split_arrow part (c ∷ d ∷ s) =
    let cut = split_arrow "" s in
    let on = split_arrow (part ++ (c ∷ [])) (d ∷ s) in
    if nat_eq (code c) 45 && nat_eq (code d) 62 then List.◌∷◌ part cut else on
