-- ===== src/Regression/State.antt =====
-- The write side of `SigmahqRegression` in regression/mod.rs, and its failure tracking. The entries
-- that were loaded at the start, which none of these operations reads or changes, are left out.
use sigmacatch.Prelude.{
  Bool, List, Option, String, [], false, find_entry, has, if◌then◌else◌, insert_entry, insert_key,
  leb, none, remove_entry, some, ℕ, ◌++◌, ◌+◌, ◌∷◌,
}

abbrev pub Uuid : Type 0
Uuid = ℕ

-- The parts of a path.
pub data Component : Type 0 where
  cur_dir : Component
  parent_dir : Component
  normal : String → Component

abbrev pub PathBuf : Type 0
PathBuf = List Component

-- `DataFormat`
pub data DataFormat : Type 0 where
  evtx : DataFormat
  log : DataFormat

-- `SigmahqRegression`
pub record SigmahqRegression : Type 0 where
  pub author : List ℕ
  pub output_path : Option PathBuf
  pub retired : List Uuid
  pub failed_cycles : List (Uuid × ℕ)
  pub failed_this_cycle : List Uuid
  pub blocked : List Uuid
  pub max_failed_cycles : ℕ
  pub format : DataFormat
  pub add_json_output : Bool

-- `new_from_path`, but for the entries; the default is 3 failed cycles
unfoldable pub new_from_path : PathBuf → SigmahqRegression
new_from_path regression_path = record {
  author = [];
  output_path = some regression_path;
  retired = [];
  failed_cycles = [];
  failed_this_cycle = [];
  blocked = [];
  max_failed_cycles = 3;
  format = evtx;
  add_json_output = false;
}

-- `set_max_failed_cycles`
unfoldable pub set_max_failed_cycles : ℕ → SigmahqRegression → SigmahqRegression
set_max_failed_cycles max s = record s { max_failed_cycles = if leb 1 max then max else 1 }

-- `take_blocked`: what was blocked, and the state without it
unfoldable pub take_blocked : SigmahqRegression → List Uuid × SigmahqRegression
take_blocked s = (s.blocked, record s { blocked = [] })

-- `begin_cycle`
unfoldable pub begin_cycle : SigmahqRegression → SigmahqRegression
begin_cycle s = record s { failed_this_cycle = [] }

abbrev pub or_zero : Option ℕ → ℕ
or_zero none = 0
or_zero (some n) = n

-- The part of `note_generation_failure` behind its early return, with the new count.
abbrev pub count_failure : Uuid → ℕ → SigmahqRegression → SigmahqRegression
count_failure id count s =
    let counted = insert_entry id count s.failed_cycles in
    if leb s.max_failed_cycles count
    then record s {
      failed_cycles = remove_entry id counted;
      retired = (insert_key id s.retired).0;
      blocked = s.blocked ++ id ∷ [];
    }
    else record s { failed_cycles = counted }

-- `note_generation_failure`: a rule that failed in this cycle is not counted again.
unfoldable pub note_generation_failure : Uuid → SigmahqRegression → SigmahqRegression
note_generation_failure id s =
    if has id s.failed_this_cycle
    then s
    else count_failure id (or_zero (find_entry id s.failed_cycles) + 1)
        (record s { failed_this_cycle = id ∷ s.failed_this_cycle })
