-- ===== src/Repo/Branch/Laws.antt =====
-- Which branch names are accepted.
use sigmacatch.Auditd.RawFields.{grow_first, split_on}
use sigmacatch.Repo.Branch.{
  InvalidRef, Name, ends_with, ends_with_slash, first_forbidden, first_invalid, forbidden,
  has_bad_slashes, has_double_slash, is_dots, lock, or_else, validate_branch_name,
}
use sigmacatch.Prelude.{
  Bool, Bool-cases, List, Option, [], arith, false, has, inl, inr, none, not, refl, some, true, ℕ,
  ◌&&◌, ◌==◌, ◌||◌, ◌∷◌, ◌≡◌,
}

abbrev pub is_ok : Option InvalidRef → Bool
is_ok none = true
is_ok (some e) = false

-- A component that a reference may have.
abbrev pub component_ok : Name → Bool
component_ok component = not (is_dots component) && not (ends_with lock component)

abbrev pub all_ok : List Name → Bool
all_ok [] = true
all_ok (component ∷ components) = component_ok component && all_ok components

abbrev pub any_forbidden : List ℕ → Name → Bool
any_forbidden [] name = false
any_forbidden (c ∷ cs) name = has c name || any_forbidden cs name

first_forbidden_lem :
    (cs : List ℕ) (name : Name) → is_ok (first_forbidden cs name) ≡ not (any_forbidden cs name)
unfolding first_forbidden
first_forbidden_lem [] name = refl
first_forbidden_lem (c ∷ cs) name = elim (Bool-cases (has c name)) [
  | inl t ↦ rw t refl
  | inr f ↦ rw f (first_forbidden_lem cs name)
]

first_invalid_lem : (ls : List Name) → is_ok (first_invalid ls) ≡ all_ok ls
unfolding first_invalid
first_invalid_lem [] = refl
first_invalid_lem (l ∷ ls) = elim (Bool-cases (is_dots l)) [
  | inl t ↦ rw t refl
  | inr f ↦ elim (Bool-cases (ends_with lock l)) [
    | inl k ↦ rw (f, k) refl
    | inr n ↦ rw (f, n) (first_invalid_lem ls)
  ]
]

is_ok-or_else : (o p : Option InvalidRef) → is_ok (or_else o p) ≡ (is_ok o && is_ok p)
is_ok-or_else none p = refl
is_ok-or_else (some e) p = refl

-- Some piece is empty: of all pieces, and of those behind the first.
abbrev any_empty : List Name → Bool
any_empty [] = false
any_empty ([] ∷ ls) = true
any_empty ((c ∷ cs) ∷ ls) = any_empty ls

abbrev later_empty : List Name → Bool
later_empty [] = false
later_empty (l ∷ ls) = any_empty ls

later-any : (ls : List Name) → later_empty ls ≡ true → any_empty ls ≡ true
later-any [] h = absurd (cc)
later-any ([] ∷ ls) h = refl
later-any ((c ∷ cs) ∷ ls) h = h

grown-later :
    (c : ℕ) (ls : List Name) → later_empty ls ≡ true → later_empty (grow_first c ls) ≡ true
grown-later c [] h = absurd (cc)
grown-later c (l ∷ ls) h = h

all_ok-any_empty : (ls : List Name) → any_empty ls ≡ true → all_ok ls ≡ false
all_ok-any_empty [] h = absurd (cc)
all_ok-any_empty ([] ∷ ls) h = refl
all_ok-any_empty ((c ∷ cs) ∷ ls) h = rw (all_ok-any_empty ls h) (ground arith)

slashes-later :
    (name : Name)
    → (ends_with_slash name || has_double_slash name) ≡ true
    → later_empty (split_on b'/' name) ≡ true
unfolding split_on
slashes-later [] h = absurd (cc)
slashes-later (c ∷ []) h = elim (Bool-cases (c == b'/')) [
  | inl t ↦ rw t refl
  | inr f ↦ absurd (cc (rw f at h))
]
slashes-later (c ∷ d ∷ cs) h = elim (Bool-cases (c == b'/')) [
  | inl t ↦ elim (Bool-cases (d == b'/')) [
    | inl u ↦ rw (t, u) refl
    | inr v ↦ rw t (later-any (split_on b'/' (d ∷ cs)) (slashes-later (d ∷ cs) (ground arith)))
  ]
  | inr f ↦ rw f (grown-later c (split_on b'/' (d ∷ cs)) (slashes-later (d ∷ cs) (rw f at h)))
]

slashes-bad : (name : Name) → has_bad_slashes name ≡ true → all_ok (split_on b'/' name) ≡ false
unfolding split_on
slashes-bad [] h = absurd (cc)
slashes-bad (c ∷ cs) h = elim (Bool-cases (c == b'/')) [
  | inl t ↦ rw t refl
  | inr f ↦
      all_ok-any_empty (split_on b'/' (c ∷ cs))
        (later-any (split_on b'/' (c ∷ cs)) (slashes-later (c ∷ cs) (ground arith)))
]

-- A name is accepted exactly if it has no forbidden character and each of its components is neither
-- empty nor `.` nor `..` and does not end in `.lock`.
pub validate_branch_name_lem :
    (name : Name)
    → is_ok (validate_branch_name name)
      ≡ (not (any_forbidden forbidden name) && all_ok (split_on b'/' name))
unfolding validate_branch_name split_on
validate_branch_name_lem [] = refl
validate_branch_name_lem (c ∷ cs) = elim (Bool-cases (has_bad_slashes (c ∷ cs))) [
  | inl bad ↦ rw (bad, is_ok-or_else, first_forbidden_lem, slashes-bad (c ∷ cs) bad) (ground arith)
  | inr fine ↦ rw (fine, is_ok-or_else, first_forbidden_lem, first_invalid_lem) refl
]
