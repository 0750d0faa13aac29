-- ===== src/Regression/Generate/Store.antt =====
-- The store of files that the generation of regression data writes to.
use sigmacatch.Regression.State.{cur_dir, parent_dir, normal, Component, PathBuf, Uuid}
use sigmacatch.Prelude.{
  Bool, List, Option, [], false, if◌then◌else◌, none, not, some, str_eq, take, true, ℕ, ◌&&◌, ◌==◌,
  ◌∷◌,
}

abbrev pub Bytes : Type 0
Bytes = List ℕ

pub data Extension : Type 0 where
  evtx_ext : Extension
  log_ext : Extension
  json_ext : Extension

-- A file of a rule (`<rule_id>.<ext>`), `info.yml`, and the rule's own file, whose path is all of `dir`.
pub data FileName : Type 0 where
  rule_file : Uuid → Extension → FileName
  info_yml : FileName
  rule_yml : FileName

pub record FilePath : Type 0 where
  pub dir : PathBuf
  pub name : FileName

abbrev pub Files : Type 0
Files = FilePath → Option Bytes

abbrev pub same_component : Component → Component → Bool
same_component cur_dir cur_dir = true
same_component parent_dir parent_dir = true
same_component (normal a) (normal b) = str_eq a b
same_component _ _ = false

-- The first path is a prefix of the second.
abbrev pub is_below : PathBuf → PathBuf → Bool
is_below [] q = true
is_below (c ∷ p) [] = false
is_below (c ∷ p) (d ∷ q) = same_component c d && is_below p q

abbrev pub same_path : PathBuf → PathBuf → Bool
same_path p q = is_below p q && is_below q p

abbrev same_extension : Extension → Extension → Bool
same_extension evtx_ext evtx_ext = true
same_extension log_ext log_ext = true
same_extension json_ext json_ext = true
same_extension _ _ = false

abbrev pub same_name : FileName → FileName → Bool
same_name (rule_file i e) (rule_file j f) = (i == j) && same_extension e f
same_name info_yml info_yml = true
same_name rule_yml rule_yml = true
same_name _ _ = false

abbrev pub same_file : FilePath → FilePath → Bool
same_file p q = same_path p.dir q.dir && same_name p.name q.name

abbrev pub put : FilePath → Bytes → Files → Files
put p bs fs = λ q. if same_file p q then some bs else fs q

-- How a write to a file goes: all of it, not at all, or an error behind so many bytes.
pub data Write : Type 0 where
  done : Write
  refused : Write
  cut : ℕ → Write

-- `File::create` and `write_all`, and whether both succeeded
unfoldable pub write : Write → FilePath → Bytes → Files → Bool × Files
write done p bs fs = (true, put p bs fs)
write refused p bs fs = (false, fs)
write (cut n) p bs fs = (false, put p (take n bs) fs)

-- `remove_file`, if it succeeds
abbrev pub without : FilePath → Bool → Files → Files
without p removed fs = λ q. if same_file p q && removed then none else fs q

-- `remove_dir_all`: where it fails some files survive.
unfoldable pub remove_below : (survives : FilePath → Bool) → PathBuf → Files → Files
remove_below survives d fs = λ q. if is_below d q.dir && not (survives q) then none else fs q
