-- ===== src/Repo/Branch.antt =====
-- `validate_branch_name` of repo/branch.rs, on names as code points.
pub mod Laws
pub mod Examples
use sigmacatch.Auditd.RawFields.{split_on}
use sigmacatch.Prelude.{
  Bool, List, Option, [], false, has, if◌then◌else◌, none, some, true, ℕ, ◌&&◌, ◌==◌, ◌||◌, ◌∷◌,
}

abbrev pub Name : Type 0
Name = List ℕ

-- The reasons of `RepoError::InvalidRef`.
pub data InvalidRef : Type 0 where
  empty_name : InvalidRef
  invalid_character : ℕ → InvalidRef
  slash_placement : InvalidRef
  invalid_component : InvalidRef
  lock_component : InvalidRef

-- NUL, newline, return, and `\~^:?*[`
abbrev pub forbidden : List ℕ
forbidden = 0 ∷ 10 ∷ 13 ∷ 92 ∷ 126 ∷ 94 ∷ 58 ∷ 63 ∷ 42 ∷ 91 ∷ []

-- `for c in [...] { if name.contains(c) ... }`
unfoldable pub first_forbidden : List ℕ → Name → Option InvalidRef
first_forbidden [] name = none
first_forbidden (c ∷ cs) name =
    let rest = first_forbidden cs name in if has c name then some (invalid_character c) else rest

abbrev pub starts_with_slash : Name → Bool
starts_with_slash [] = false
starts_with_slash (c ∷ cs) = c == b'/'

abbrev pub ends_with_slash : Name → Bool
ends_with_slash [] = false
ends_with_slash (c ∷ []) = c == b'/'
ends_with_slash (c ∷ d ∷ cs) = ends_with_slash (d ∷ cs)

-- `name.contains("//")`
abbrev pub has_double_slash : Name → Bool
has_double_slash [] = false
has_double_slash (c ∷ cs) = ((c == b'/') && starts_with_slash cs) || has_double_slash cs

abbrev pub names_equal : Name → Name → Bool
names_equal [] [] = true
names_equal (a ∷ s) (b ∷ t) = (a == b) && names_equal s t
names_equal _ _ = false

-- `.lock`
abbrev pub lock : Name
lock = 46 ∷ 108 ∷ 111 ∷ 99 ∷ 107 ∷ []

-- `str::ends_with`
abbrev pub ends_with : Name → Name → Bool
ends_with s [] = names_equal s []
ends_with s (c ∷ cs) = names_equal s (c ∷ cs) || ends_with s cs

abbrev pub is_dots : Name → Bool
is_dots component =
    names_equal component []
    || (names_equal component (46 ∷ []) || names_equal component (46 ∷ 46 ∷ []))

-- `for component in name.split('/')`
unfoldable pub first_invalid : List Name → Option InvalidRef
first_invalid [] = none
first_invalid (component ∷ components) =
    let rest = first_invalid components in
    if is_dots component
    then some invalid_component
    else (if ends_with lock component then some lock_component else rest)

abbrev pub or_else : Option InvalidRef → Option InvalidRef → Option InvalidRef
or_else none o = o
or_else (some e) o = some e

abbrev pub has_bad_slashes : Name → Bool
has_bad_slashes name = starts_with_slash name || (ends_with_slash name || has_double_slash name)

-- `validate_branch_name`: the first error, or `none` for `Ok`.
unfoldable pub validate_branch_name : Name → Option InvalidRef
unfolding first_forbidden first_invalid split_on
validate_branch_name [] = some empty_name
validate_branch_name (c ∷ cs) =
    let name = c ∷ cs in
    let slashes = if has_bad_slashes name then some slash_placement else none in
    or_else (first_forbidden forbidden name) (or_else slashes (first_invalid (split_on b'/' name)))
