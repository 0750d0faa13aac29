-- ===== src/Ebpf/Proc.antt =====
-- What inputs/ebpf_event.rs and inputs/ebpf.rs read below `/proc` and in `/etc/passwd`.
use Prim.Native.Nat.{bit_and}
use Prim.Native.String.{◌++◌}
use sigmacatch.Text.{trim}
use sigmacatch.Event.Decimal.{u64_to_string}
use sigmacatch.Text.Words.{
  after_last, parse_hex, parse_u32, split_at_char, split_whitespace, strip_text, text_lines,
}
use sigmacatch.Prelude.{
  Bool, List, Option, String, [], false, if◌then◌else◌, none, not, refl, some, suc, true, zero, ℕ,
  ◌&&◌, ◌==◌, ◌^◌, ◌||◌, ◌∷◌, ◌≡◌,
}

-- What the system answers in the course of one call: the time as the two formats of the source
-- print it, a new random uuid, the links and files, and of a file its time of modification and digest.
pub record World : Type 0 where
  pub utc_time : String
  pub system_time : String
  pub uuid : String
  pub read_link : String → Option String
  pub read : String → Option (List ℕ)
  pub read_to_string : String → Option String
  pub mtime : String → Option ℕ
  pub sha256 : String → Option String

abbrev pub nth : List String → ℕ → Option String
nth [] i = none
nth (s ∷ ss) zero = some s
nth (s ∷ ss) (suc i) = nth ss i

abbrev pub parsed_u32 : Option String → Option ℕ
unfolding parse_u32
parsed_u32 none = none
parsed_u32 (some s) = parse_u32 s

abbrev pub in_proc : ℕ → String → String
unfolding u64_to_string
in_proc pid name = "/proc/" ++ (u64_to_string pid ++ ("/" ++ name))

-- The rest of the first line with the prefix.
abbrev pub or_later : Option String → Option String → Option String
or_later (some s) later = some s
or_later none later = later

unfoldable pub find_prefixed : String → List String → Option String
unfolding strip_text
find_prefixed p [] = none
find_prefixed p (l ∷ ls) = or_later (strip_text p l) (find_prefixed p ls)

abbrev pub second_word : Option String → Option ℕ
unfolding split_whitespace parse_u32
second_word none = none
second_word (some rest) = parsed_u32 (nth (split_whitespace rest) 1)

-- The effective user in a status file.
unfoldable pub euid_of : String → Option ℕ
unfolding find_prefixed text_lines split_whitespace parse_u32
euid_of status = second_word (find_prefixed "Uid:" (text_lines status))

abbrev pub euid_or : ℕ → Option ℕ → ℕ
euid_or d none = d
euid_or d (some n) = n

abbrev pub euid_of_file : Option String → Option ℕ
unfolding euid_of
euid_of_file none = none
euid_of_file (some s) = euid_of s

-- `read_euid`
unfoldable pub read_euid : World → ℕ
unfolding euid_of
read_euid w = euid_or 0 (euid_of_file (w.read_to_string "/proc/self/status"))

abbrev pub is_zero : Option ℕ → Bool
is_zero none = false
is_zero (some n) = n == 0

-- `is_root`
unfoldable pub is_root : String → Bool
unfolding euid_of
is_root status = is_zero (euid_of status)

abbrev pub hex_of : Option String → Option ℕ
unfolding parse_hex trim
hex_of none = none
hex_of (some rest) = parse_hex (trim rest)

-- `cap_eff`
unfoldable pub cap_eff : String → Option ℕ
unfolding find_prefixed text_lines parse_hex trim
cap_eff status = hex_of (find_prefixed "CapEff:" (text_lines status))

abbrev pub has_cap : ℕ → ℕ → Bool
has_cap caps i = not (bit_and caps (2 ^ i) == 0)

abbrev pub enough_caps : Option ℕ → Bool
enough_caps none = false
enough_caps (some caps) = has_cap caps 21 || (has_cap caps 39 && has_cap caps 38)

-- `privileges_from_status`
unfoldable pub privileges_from_status : String → Bool
unfolding is_root cap_eff
privileges_from_status status = if is_root status then true else enough_caps (cap_eff status)

abbrev pub privileges_of : Option String → Bool
unfolding privileges_from_status
privileges_of none = false
privileges_of (some status) = privileges_from_status status

-- `has_required_privileges`
unfoldable pub has_required_privileges : World → Bool
unfolding privileges_from_status
has_required_privileges w = privileges_of (w.read_to_string "/proc/self/status")

abbrev pub user_in : ℕ → Option String → Option ℕ → Option String → Option String
user_in uid none u later = later
user_in uid (some name) none later = later
user_in uid (some name) (some u) later = if u == uid then some name else later

unfoldable pub find_user : ℕ → List String → Option String
unfolding split_at_char parse_u32
find_user uid [] = none
find_user uid (l ∷ ls) =
    let parts = split_at_char b':' l in
    user_in uid (nth parts 0) (parsed_u32 (nth parts 2)) (find_user uid ls)

abbrev pub user_of : ℕ → Option String → Option String
unfolding find_user text_lines
user_of uid none = none
user_of uid (some passwd) = find_user uid (text_lines passwd)

-- `lookup_user`
unfoldable pub lookup_user : World → ℕ → Option String
unfolding find_user text_lines
lookup_user w uid = user_of uid (w.read_to_string "/etc/passwd")

abbrev pub parent_of : Option String → Option ℕ
unfolding after_last split_whitespace parse_u32
parent_of none = none
parent_of (some stat) = parsed_u32 (nth (split_whitespace (after_last b')' stat)) 1)

-- `read_ppid`
unfoldable pub read_ppid : World → ℕ → Option ℕ
unfolding after_last split_whitespace parse_u32 u64_to_string
read_ppid w pid = parent_of (w.read_to_string (in_proc pid "stat"))

-- `read_cwd`
unfoldable pub read_cwd : World → ℕ → Option String
unfolding u64_to_string
read_cwd w pid = w.read_link (in_proc pid "cwd")

abbrev pub session_of : Option String → Option ℕ
unfolding parse_u32 trim
session_of none = none
session_of (some s) = parse_u32 (trim s)

-- `read_session_id`
unfoldable pub read_session_id : World → ℕ → Option ℕ
unfolding parse_u32 trim u64_to_string
read_session_id w pid = session_of (w.read_to_string (in_proc pid "sessionid"))

proc_tests :
    (privileges_from_status "Uid:\t0\t0\t0\t0\n" ≡ true)
    × (privileges_from_status "Uid:\t1000\t1000\t1000\t1000\nCapEff:\t0000000000200000\n" ≡ true)
    × (privileges_from_status "Uid:\t1000\t1000\t1000\t1000\nCapEff:\t0000008000000000\n" ≡ false)
    × (privileges_from_status "Uid:\t1000\t1000\t1000\t1000\nCapEff:\t000000c000000000\n" ≡ true)
    × (privileges_from_status "CapEff:\tzz\nUid:\t1000\t1000\n" ≡ false)
    × (find_user 7 ("root:x:0:0" ∷ "a:x" ∷ "u:x:7:9" ∷ []) ≡ some "u")
unfolding privileges_from_status find_user
proc_tests = (refl, refl, refl, refl, refl, refl)
