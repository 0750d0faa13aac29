-- ===== src/Event/Xml/Scalars.antt =====
-- Texts of an event's XML as JSON values: `maybe_number`, `normalize_string` and
-- `normalize_eventdata_value` of sigmacatch/src/types.rs.
use Prim.Native.Char.{Char, code}
use Prim.Native.String.{[], ◌∷◌}
use sigmacatch.Json.{Json, number, negative, string}
use sigmacatch.Text.{strip_first, strip_last, to_ascii_uppercase, trim}
use sigmacatch.Event.Decimal.{parse_negative, parse_u64}
use sigmacatch.Prelude.{
  Bool, Option, String, if◌then◌else◌, leb, none, refl, some, str_eq, ℕ, ◌&&◌, ◌+◌, ◌==◌, ◌||◌, ◌≡◌,
}

-- An `i64` that has a sign: `-0` is the number 0.
abbrev pub signed : Option ℕ → Option Json
signed none = none
signed (some n) = some (if n == 0 then number 0 else negative n)

abbrev pub unsigned_or : Option ℕ → Option Json → Option Json
unsigned_or none o = o
unsigned_or (some n) o = some (number n)

unfoldable pub maybe_number : String → Option Json
unfolding parse_u64 parse_negative
maybe_number s = unsigned_or (parse_u64 s) (signed (parse_negative s))

abbrev pub is_hex : Char → Bool
is_hex c =
    let n = code c in (leb 48 n && leb n 57) || (leb 65 n && leb n 70) || (leb 97 n && leb n 102)

-- The loop of `looks_like_guid`, from byte `i` on.
unfoldable pub guid_from : ℕ → String → Bool
guid_from i [] = i == 36
guid_from i (c ∷ s) =
    (if (i == 8) || (i == 13) || (i == 18) || (i == 23) then code c == b'-' else is_hex c)
    && guid_from (i + 1) s

unfoldable pub looks_like_guid : String → Bool
unfolding guid_from
looks_like_guid s = guid_from 0 s

abbrev pub or_text : String → Option String → String
or_text s none = s
or_text s (some t) = t

abbrev pub strip_end : Option String → Option String
unfolding strip_last
strip_end none = none
strip_end (some s) = strip_last b'}' s

-- Without its braces, if it has both.
unfoldable pub without_braces : String → String
unfolding strip_first strip_last
without_braces t = or_text t (strip_end (strip_first b'{' t))

abbrev pub number_or : Option Json → Json → Json
number_or none j = j
number_or (some n) j = n

unfoldable pub normalize_string : String → Json
unfolding trim maybe_number without_braces looks_like_guid to_ascii_uppercase
normalize_string s =
    let t = trim s in
    let stripped = without_braces t in
    number_or (maybe_number t)
      (string (if looks_like_guid stripped then to_ascii_uppercase stripped else s))

-- `GUID_TYPED_FIELDS`
unfoldable pub is_guid_typed : String → Bool
is_guid_typed f =
    str_eq f "ProcessGuid"
    || str_eq f "ParentProcessGuid"
    || str_eq f "LogonGuid"
    || str_eq f "SourceProcessGUID"
    || str_eq f "TargetProcessGUID"
    || str_eq f "ImageGuid"
    || str_eq f "PipeGuid"

unfoldable pub normalize_eventdata_value : (name value : String) → Json
unfolding is_guid_typed trim maybe_number without_braces looks_like_guid to_ascii_uppercase
normalize_eventdata_value name value =
    let t = trim value in
    let stripped = without_braces t in
    number_or (maybe_number t) (
      string (
        if is_guid_typed name && looks_like_guid stripped
        then to_ascii_uppercase stripped
        else value))

scalar_tests :
    (maybe_number "12" ≡ some (number 12))
    × (maybe_number "-7" ≡ some (negative 7))
    × (maybe_number "-0" ≡ some (number 0))
    × (maybe_number "0x1" ≡ none)
    × (normalize_string "{5aa13a44-0000-0000-0000-00000000000f}"
        ≡ string "5AA13A44-0000-0000-0000-00000000000F")
    × (normalize_string "{5aa13a44}" ≡ string "{5aa13a44}")
    × (normalize_eventdata_value "Details" "{5aa13a44-0000-0000-0000-00000000000f}"
        ≡ string "{5aa13a44-0000-0000-0000-00000000000f}")
    × (normalize_eventdata_value "LogonGuid" " {5aa13a44-0000-0000-0000-00000000000f}"
        ≡ string "5AA13A44-0000-0000-0000-00000000000F")
unfolding normalize_string normalize_eventdata_value
scalar_tests = (refl, refl, refl, refl, refl, refl, refl, refl)
