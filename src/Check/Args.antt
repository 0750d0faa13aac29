-- ===== src/Check/Args.antt =====
-- The options of `main` in regressiondata-check.rs.
use Prim.Native.Char.{code}
use sigmacatch.Prelude.{
  Bool, List, String, [], false, if◌then◌else◌, not, refl, str_eq, true, ◌==◌, ◌||◌, ◌∷◌, ◌≡◌,
}

pub record Options : Type 0 where
  pub json_output : Bool
  pub ignore_invalid : Bool
  pub fix : Bool
  pub sigma_path : String

-- What the arguments lead to: a run, the help, an exit with 1, or a return without a run.
pub data Command : Type 0 where
  run : Options → Command
  help : Command
  missing_value invalid_value : Command
  unknown : String → Command

abbrev pub is_path : String → Bool
is_path String.[] = false
is_path (String.◌∷◌ c s) = not (code c == b'-')

-- What one argument is, before those behind it.
pub data Arg : Type 0 where
  json ignore fix path help other : Arg

unfoldable pub arg_of : String → Arg
arg_of s =
    if str_eq s "--json"
    then Arg.json
    else (if str_eq s "--ignore"
        then Arg.ignore
        else (if str_eq s "--fix"
            then Arg.fix
            else (if str_eq s "--path"
                then Arg.path
                else (if str_eq s "--help" || str_eq s "-h" then Arg.help else Arg.other))))

-- The loop over the arguments.
unfoldable pub parse_args : List String → Options → Command
unfolding arg_of
parse_args [] o = run o
parse_args (a ∷ []) o = elim (arg_of a) [
  | Arg.json ↦ run (record o { json_output = true })
  | Arg.ignore ↦ run (record o { ignore_invalid = true })
  | Arg.fix ↦ run (record o { fix = true })
  | Arg.path ↦ missing_value
  | Arg.help ↦ help
  | Arg.other ↦ unknown a
]
parse_args (a ∷ (b ∷ rest)) o = elim (arg_of a) [
  | Arg.json ↦ parse_args (b ∷ rest) (record o { json_output = true })
  | Arg.ignore ↦ parse_args (b ∷ rest) (record o { ignore_invalid = true })
  | Arg.fix ↦ parse_args (b ∷ rest) (record o { fix = true })
  | Arg.path ↦ elim (is_path b) [
    | true ↦ parse_args rest (record o { sigma_path = b })
    | false ↦ invalid_value
  ]
  | Arg.help ↦ help
  | Arg.other ↦ unknown a
]

abbrev pub defaults : Options
defaults = record {
  json_output = false;
  ignore_invalid = false;
  fix = false;
  sigma_path = "./sigma";
}

parse_args_tests :
    (parse_args ("--path" ∷ ("d" ∷ ("--fix" ∷ []))) defaults
      ≡ run (record defaults { fix = true; sigma_path = "d" }))
    × (parse_args ("--path" ∷ []) defaults ≡ missing_value)
    × (parse_args ("--path" ∷ ("--fix" ∷ [])) defaults ≡ invalid_value)
    × (parse_args ("--json" ∷ ("-x" ∷ [])) defaults ≡ unknown "-x")
unfolding parse_args
parse_args_tests = (refl, refl, refl, refl)
