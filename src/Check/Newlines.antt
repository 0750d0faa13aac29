-- ===== src/Check/Newlines.antt =====
-- The check of an auxiliary `.json` file, and the repair of its last newline.
pub mod Repair
use sigmacatch.Check.Indent.{trim_newlines}
use sigmacatch.Prelude.{
  Bool, List, Option, [], false, if◌then◌else◌, none, some, true, ℕ, ◌++◌, ◌==◌, ◌∷◌,
}

-- `bytes.last()`
abbrev pub last_byte : List ℕ → Option ℕ
last_byte [] = none
last_byte (b ∷ []) = some b
last_byte (b ∷ c ∷ bs) = last_byte (c ∷ bs)

-- `bytes[bytes.len() - 2]`, of two bytes or more
abbrev pub byte_before_last : List ℕ → Option ℕ
byte_before_last [] = none
byte_before_last (b ∷ []) = none
byte_before_last (b ∷ c ∷ []) = some b
byte_before_last (b ∷ c ∷ d ∷ bs) = byte_before_last (c ∷ d ∷ bs)

abbrev pub is_newline : Option ℕ → Bool
is_newline none = false
is_newline (some b) = b == 10

pub data Fault : Type 0 where
  unreadable empty_file missing_newline multiple_newlines empty_json invalid_json : Fault

unfoldable pub newline_fault : List ℕ → Option Fault
newline_fault bs =
    if is_newline (last_byte bs)
    then (if is_newline (byte_before_last bs) then some multiple_newlines else none)
    else some missing_newline

-- The values of a stream, each parsed or not.
abbrev pub all_parsed : List Bool → Option Fault
all_parsed [] = none
all_parsed (ok ∷ oks) = let rest = all_parsed oks in if ok then rest else some invalid_json

abbrev pub stream_fault : List Bool → Option Fault
stream_fault [] = some empty_json
stream_fault (ok ∷ oks) = all_parsed (ok ∷ oks)

abbrev pub or_stream : Option Fault → Option Fault → Option Fault
or_stream (some f) later = some f
or_stream none later = later

abbrev pub is_nil : List ℕ → Bool
is_nil [] = true
is_nil (b ∷ bs) = false

-- The bytes of a file that is there, if it can be read.
abbrev pub bytes_fault : (stream : List ℕ → List Bool) → Option (List ℕ) → Option Fault
unfolding newline_fault
bytes_fault stream none = some unreadable
bytes_fault stream (some bs) =
    if is_nil bs then some empty_file else or_stream (newline_fault bs) (stream_fault (stream bs))

-- `validate_json_auxiliary`, of a rule's file, if it is there, over the deserializer of a stream.
unfoldable pub validate_json_auxiliary :
    (stream : List ℕ → List Bool) → (file : Option (Option (List ℕ))) → Option Fault
unfolding newline_fault
validate_json_auxiliary stream none = none
validate_json_auxiliary stream (some file) = bytes_fault stream file

abbrev pub is_fault : Option Fault → Bool
is_fault none = false
is_fault (some f) = true

-- The file that `fix_json_newlines` leaves.
unfoldable pub fix_newlines : List ℕ → List ℕ
unfolding newline_fault trim_newlines
fix_newlines bs =
    if is_nil bs
    then bs
    else (if is_fault (newline_fault bs) then trim_newlines bs ++ 10 ∷ [] else bs)
