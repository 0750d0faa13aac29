-- ===== src/Text.antt =====
-- Operations of `str` that the program uses, on native texts.
pub mod Words
use Prim.Native.Char.{Char, code}
use Prim.Native.String.{[], ◌∷◌, char_at}
use sigmacatch.Prelude.{
  Bool, Option, String, false, if◌then◌else◌, leb, none, refl, some, suc, true, ℕ, ◌&&◌, ◌-◌, ◌==◌,
  ◌||◌, ◌≡◌,
}

-- `char::to_ascii_lowercase`, `char::to_ascii_uppercase`
abbrev pub lower_char : Char → Char
lower_char c =
    if leb 65 (code c) && leb (code c) 90
    then char_at "abcdefghijklmnopqrstuvwxyz" (code c - 65)
    else c

abbrev pub upper_char : Char → Char
upper_char c =
    if leb 97 (code c) && leb (code c) 122
    then char_at "ABCDEFGHIJKLMNOPQRSTUVWXYZ" (code c - 97)
    else c

unfoldable pub to_ascii_lowercase : String → String
to_ascii_lowercase [] = []
to_ascii_lowercase (c ∷ s) = lower_char c ∷ to_ascii_lowercase s

unfoldable pub to_ascii_uppercase : String → String
to_ascii_uppercase [] = []
to_ascii_uppercase (c ∷ s) = upper_char c ∷ to_ascii_uppercase s

-- `char::is_whitespace`: Unicode's White_Space.
abbrev pub is_space : ℕ → Bool
is_space n =
    (leb 9 n && leb n 13)
    || (n == 32)
    || (n == 133)
    || (n == 160)
    || (n == 5760)
    || (leb 8192 n && leb n 8202)
    || (n == 8232)
    || (n == 8233)
    || (n == 8239)
    || (n == 8287)
    || (n == 12288)

abbrev pub is_whitespace : Char → Bool
is_whitespace c = is_space (code c)

unfoldable pub trim_start : String → String
trim_start [] = []
trim_start (c ∷ s) = if is_whitespace c then trim_start s else c ∷ s

-- A character before a text that was trimmed at its end.
abbrev pub unless_blank : Char → String → String
unless_blank c [] = if is_whitespace c then [] else c ∷ []
unless_blank c (d ∷ s) = c ∷ d ∷ s

unfoldable pub trim_end : String → String
trim_end [] = []
trim_end (c ∷ s) = unless_blank c (trim_end s)

unfoldable pub trim : String → String
unfolding trim_start trim_end
trim s = trim_end (trim_start s)

unfoldable pub chars : String → ℕ
chars [] = 0
chars (c ∷ s) = suc (chars s)

unfoldable pub without_char : ℕ → String → String
without_char n [] = []
without_char n (c ∷ s) = let rest = without_char n s in if code c == n then rest else c ∷ rest

-- `strip_prefix`, `strip_suffix` of a character
unfoldable pub strip_first : ℕ → String → Option String
strip_first n [] = none
strip_first n (c ∷ s) = if code c == n then some s else none

abbrev pub before : Char → Option String → Option String
before c none = none
before c (some s) = some (c ∷ s)

unfoldable pub strip_last : ℕ → String → Option String
strip_last n [] = none
strip_last n (c ∷ []) = if code c == n then some [] else none
strip_last n (c ∷ d ∷ s) = before c (strip_last n (d ∷ s))

unfoldable pub is_blank : String → Bool
is_blank [] = true
is_blank (c ∷ s) = false

text_tests :
    (to_ascii_lowercase "Sysmon-10" ≡ "sysmon-10")
    × (to_ascii_uppercase "ab-F0" ≡ "AB-F0")
    × (trim " a b \n" ≡ "a b")
    × (trim "  " ≡ "")
    × (strip_last b'}' "ab}" ≡ some "ab")
    × (strip_last b'}' "ab" ≡ none)
    × (without_char 32 "a b c" ≡ "abc")
unfolding to_ascii_lowercase to_ascii_uppercase trim strip_last without_char
text_tests = (refl, refl, refl, refl, refl, refl, refl)
