-- ===== src/Repo/Refs.antt =====
-- sigmacatch/src/repo/plumbing/refs.rs and `current_branch_name` of porcelain.rs. The references are
-- kept by grit-lib.
pub mod Laws
use Prim.Native.Char.{code}
use Prim.Native.String.{◌++◌ as text_append}
use sigmacatch.Text.{trim}
use sigmacatch.Text.Words.{strip_text, text_lines}
use sigmacatch.Repo.Trees.{Oid}
use sigmacatch.Prelude.{
  Bool, List, Option, String, [], false, if◌then◌else◌, inl, inr, none, some, str_eq, true, ◌==◌,
  ◌∷◌, ◌⊎◌,
}

-- What the program uses of grit-lib's references; `none` is an error, or a name that is not resolved.
pub record RefOps : Type 1 where
  pub Refs : Type 0
  pub resolve_ref : String → Refs → Option Oid
  pub read_symbolic_ref : String → Refs → Option (Option String)
  pub write_ref : String → Oid → Refs → Option Refs
  pub write_symbolic_ref : String → String → Refs → Option Refs

-- `read_remote_url_from_config`: what `config` holds, or nothing when it cannot be read.
pub data UrlError : Type 0 where
  no_config : UrlError
  no_remote : UrlError

abbrev pub starts_section : String → Bool
starts_section String.[] = false
starts_section (String.◌∷◌ c s) = code c == b'['

abbrev pub url_or : Bool → Option String → Option String → Option String
url_or false url later = later
url_or true none later = later
url_or true (some url) later = some url

unfoldable pub find_url : String → Bool → List String → Option String
unfolding trim strip_text
find_url target in_remote [] = none
find_url target in_remote (l ∷ ls) =
    let t = trim l in
    let later = find_url target (if starts_section t then str_eq t target else in_remote) ls in
    if starts_section t then later else url_or in_remote (strip_text "url = " t) later

abbrev pub url_result : Option String → String ⊎ UrlError
url_result none = inr no_remote
url_result (some url) = inl url

abbrev pub url_in : String → Option String → String ⊎ UrlError
unfolding find_url text_lines
url_in remote none = inr no_config
url_in remote (some content) =
    let target = text_append "[remote \"" (text_append remote "\"]") in
    url_result (find_url target false (text_lines content))

unfoldable pub read_remote_url_from_config : (config : Option String) → String → String ⊎ UrlError
unfolding find_url text_lines
read_remote_url_from_config config remote = url_in remote config

-- `default_branch`, or `main` and `master`
abbrev pub candidates : Option String → List String
candidates none = "main" ∷ "master" ∷ []
candidates (some b) = b ∷ []

abbrev pub remote_ref : String → String
remote_ref b = text_append "refs/remotes/origin/" b

abbrev pub local_ref : String → String
local_ref b = text_append "refs/heads/" b

abbrev pub or_same {ℓ} : {A : Type ℓ} → A → Option A → A
or_same a none = a
or_same a (some b) = b

-- `strip_prefix("refs/heads/").unwrap_or(&target)`
abbrev pub branch_of : String → String
unfolding strip_text
branch_of target = or_same target (strip_text "refs/heads/" target)

module _ (ops : RefOps) where
  open ops use {Refs, resolve_ref, read_symbolic_ref, write_ref, write_symbolic_ref}

  -- `set_head_after_fetch`: a failed write leaves what was written before.
  abbrev pub local_written : String → Oid → Refs → Option Refs → Refs
  local_written b oid refs none = refs
  local_written b oid refs (some refs') = or_same refs' (write_ref (local_ref b) oid refs')

  abbrev pub head_or : String → Option Oid → Refs → Refs → Refs
  head_or b none refs later = later
  head_or b (some oid) refs later =
      local_written b oid refs (write_symbolic_ref "HEAD" (local_ref b) refs)

  unfoldable pub set_head : List String → Refs → Refs
  set_head [] refs = refs
  set_head (b ∷ bs) refs = head_or b (resolve_ref (remote_ref b) refs) refs (set_head bs refs)

  unfoldable pub set_head_after_fetch : (default_branch : Option String) → Refs → Refs
  unfolding set_head
  set_head_after_fetch default_branch refs = set_head (candidates default_branch) refs

  -- `fast_forward_branch`: `none` is an error, which leaves the references as they are.
  abbrev pub forward_to : String → Option Oid → Refs → Option Refs
  forward_to b none refs = some refs
  forward_to b (some oid) refs = write_ref (local_ref b) oid refs

  abbrev pub forward : Option (Option String) → Refs → Option Refs
  unfolding strip_text
  forward none refs = none
  forward (some none) refs = some refs
  forward (some (some target)) refs =
      forward_to (branch_of target) (resolve_ref (remote_ref (branch_of target)) refs) refs

  unfoldable pub fast_forward_branch : Refs → Option Refs
  unfolding strip_text
  fast_forward_branch refs = forward (read_symbolic_ref "HEAD" refs) refs

  -- `current_branch_name`
  abbrev pub name_of_target : Option String → Option String
  unfolding strip_text
  name_of_target none = none
  name_of_target (some target) = strip_text "refs/heads/" target

  abbrev pub named_head : Option (Option String) → Option (Option String)
  unfolding strip_text
  named_head none = none
  named_head (some t) = some (name_of_target t)

  unfoldable pub current_branch_name : Refs → Option (Option String)
  unfolding strip_text
  current_branch_name refs = named_head (read_symbolic_ref "HEAD" refs)
