-- ===== src/Text/Words.antt =====
-- Splitting and reading of texts, as the standard library does it, for the eBPF collector and the git layer.
use Prim.Native.Char.{Char, code}
use Prim.Native.String.{[], ◌∷◌}
use sigmacatch.Text.{is_blank, is_whitespace, strip_last}
use sigmacatch.Event.Decimal.{parse_u64}
use sigmacatch.Prelude.{
  List, Option, String, if◌then◌else◌, leb, ltb, none, refl, some, ℕ, ◌&&◌, ◌*◌, ◌+◌, ◌-◌, ◌==◌,
  ◌^◌, ◌≡◌,
}

-- `split_whitespace`: the word that a text begins with, and the words behind it.
abbrev pub with_word : String → List String → List String
with_word w ws = if is_blank w then ws else List.◌∷◌ w ws

abbrev pub before_word : Char → String × List String → String × List String
before_word c (w, ws) = if is_whitespace c then ("", with_word w ws) else (c ∷ w, ws)

abbrev pub words_from : String → String × List String
words_from [] = ("", List.[])
words_from (c ∷ s) = before_word c (words_from s)

unfoldable pub split_whitespace : String → List String
split_whitespace s = let (w, ws) = words_from s in with_word w ws

-- `split` at a character: the first part and the others.
abbrev pub before_part : ℕ → Char → String × List String → String × List String
before_part n c (p, ps) = if code c == n then ("", List.◌∷◌ p ps) else (c ∷ p, ps)

abbrev pub parts_from : ℕ → String → String × List String
parts_from n [] = ("", List.[])
parts_from n (c ∷ s) = before_part n c (parts_from n s)

unfoldable pub split_at_char : ℕ → String → List String
split_at_char n s = let (p, ps) = parts_from n s in List.◌∷◌ p ps

-- `rsplit(…).next()`: what follows the last such character.
unfoldable pub last_part : String → List String → String
last_part p List.[] = p
last_part p (List.◌∷◌ q ps) = last_part q ps

unfoldable pub after_last : ℕ → String → String
unfolding last_part
after_last n s = let (p, ps) = parts_from n s in last_part p ps

-- `lines`: no empty line at the end, no carriage return at the end of one.
abbrev pub without_return : String → Option String → String
without_return l none = l
without_return l (some t) = t

abbrev pub line_list : List String → List String
unfolding strip_last
line_list List.[] = List.[]
line_list (List.◌∷◌ l List.[]) = if is_blank l then List.[] else List.◌∷◌ l List.[]
line_list (List.◌∷◌ l (List.◌∷◌ m ls)) =
    List.◌∷◌ (without_return l (strip_last 13 l)) (line_list (List.◌∷◌ m ls))

unfoldable pub text_lines : String → List String
unfolding split_at_char strip_last is_blank
text_lines s = line_list (split_at_char 10 s)

-- `strip_prefix`
unfoldable pub strip_text : String → String → Option String
strip_text [] s = some s
strip_text (c ∷ p) [] = none
strip_text (c ∷ p) (d ∷ s) = let rest = strip_text p s in if code c == code d then rest else none

-- `str::parse::<u32>`
abbrev pub below_u32 : Option ℕ → Option ℕ
below_u32 none = none
below_u32 (some n) = if ltb n (2 ^ 32) then some n else none

unfoldable pub parse_u32 : String → Option ℕ
unfolding parse_u64
parse_u32 s = below_u32 (parse_u64 s)

-- `u64::from_str_radix` with the radix 16
abbrev pub hex_value : ℕ → Option ℕ
hex_value d =
    if leb 48 d && leb d 57
    then some (d - 48)
    else (if leb 97 d && leb d 102
        then some (d - 87)
        else (if leb 65 d && leb d 70 then some (d - 55) else none))

abbrev pub hex_step : ℕ → Option ℕ → Option ℕ
hex_step n none = none
hex_step n (some d) = if ltb (n * 16 + d) (2 ^ 64) then some (n * 16 + d) else none

abbrev pub hex_digits : Option ℕ → String → Option ℕ
hex_digits none s = none
hex_digits (some n) [] = some n
hex_digits (some n) (c ∷ s) = hex_digits (hex_step n (hex_value (code c))) s

unfoldable pub parse_hex : String → Option ℕ
parse_hex [] = none
parse_hex (c ∷ []) = hex_digits (some 0) (c ∷ [])
parse_hex (c ∷ d ∷ s) =
    if code c == b'+' then hex_digits (some 0) (d ∷ s) else hex_digits (some 0) (c ∷ d ∷ s)

words_tests :
    (split_whitespace " a bc  d" ≡ List.◌∷◌ "a" (List.◌∷◌ "bc" (List.◌∷◌ "d" List.[])))
    × (split_at_char b':' "a::b" ≡ List.◌∷◌ "a" (List.◌∷◌ "" (List.◌∷◌ "b" List.[])))
    × (after_last b')' "1 (a) b) S 7" ≡ " S 7")
    × (text_lines "a\r\nb\n" ≡ List.◌∷◌ "a" (List.◌∷◌ "b" List.[]))
    × (parse_hex "ff0" ≡ some 4080)
    × (parse_hex "zz" ≡ none)
    × (parse_u32 "4294967296" ≡ none)
unfolding split_whitespace split_at_char after_last text_lines parse_hex parse_u32 is_blank
words_tests = (refl, refl, refl, refl, refl, refl, refl)
