-- ===== src/Repo/Branch/Examples.antt =====
-- Concrete branch names.
use sigmacatch.Auditd.RawFields.{split_on}
use sigmacatch.Repo.Branch.{Name, forbidden, validate_branch_name}
use sigmacatch.Repo.Branch.Laws.{all_ok, any_forbidden, is_ok, validate_branch_name_lem}
use sigmacatch.Prelude.{[], false, not, refl, ◌&&◌, ◌∷◌, ◌≡◌}

-- `a/..`
abbrev dotted : Name
dotted = 97 ∷ 47 ∷ 46 ∷ 46 ∷ []

validate_example :
    is_ok (validate_branch_name dotted)
    ≡ (not (any_forbidden forbidden dotted) && all_ok (split_on b'/' dotted))
validate_example = validate_branch_name_lem dotted

validate_test : is_ok (validate_branch_name dotted) ≡ false
unfolding validate_branch_name
validate_test = refl
