-- ===== src/Cli.antt =====
-- src/cli/main.c: the arguments of the program, and the names that it prints. The printing itself,
-- and the calls that open the report file, are not modelled.
pub mod CommandLine
use crimp.Common.{Bytes, List, Option, [], codes, if◌then◌else◌, none, some, str_eq, ◌∷◌}
use crimp.Detector.{Severity, low, medium, high, critical}

-- `severity_name`
unfoldable pub severity_name : Severity → Bytes
severity_name low = codes "LOW"
severity_name medium = codes "MEDIUM"
severity_name high = codes "HIGH"
severity_name critical = codes "CRITICAL"

-- The variables of the argument loop.
pub record Arguments : Type 0 where
  pub target : Option Bytes
  pub rules_dir : Option Bytes
  pub cve_dataset_path : Option Bytes

-- What `main` goes on with: a run on the target, or one of its messages with exit status 1.
pub data Command : Type 0 where
  run : Bytes → Option Bytes → Option Bytes → Command
  usage : Command
  no_rules_argument : Command
  no_dataset_argument : Command

-- The string that `strcmp` finds an argument to be.
pub data Flag : Type 0 where
  rules_flag dataset_flag positional : Flag

unfoldable pub flag_of : Bytes → Flag
flag_of arg =
    if str_eq arg (codes "--rules")
    then rules_flag
    else if str_eq arg (codes "--cve-dataset")
    then dataset_flag
    else positional

-- The test behind the loop.
abbrev pub command_of : Arguments → Option Bytes → Command
command_of a none = usage
command_of a (some target) = run target a.rules_dir a.cve_dataset_path

-- A positional argument: the first is the target, and a second ends the loop with `target = NULL`.
unfoldable pub take_target : Arguments → Option Bytes → Bytes → Option Arguments
take_target a none arg = some (record a { target = some arg })
take_target a (some target) arg = none

-- The argument loop of `main` and the test behind it.
unfoldable pub parse_arguments : List Bytes → Arguments → Command
parse_arguments [] a = command_of a a.target
parse_arguments (arg ∷ []) a = elim (flag_of arg) [
  | rules_flag ↦ no_rules_argument
  | dataset_flag ↦ no_dataset_argument
  | positional ↦ elim (take_target a a.target arg) [
    | none ↦ usage
    | some a' ↦ command_of a' a'.target
  ]
]
parse_arguments (arg ∷ value ∷ args) a = elim (flag_of arg) [
  | rules_flag ↦ parse_arguments args (record a { rules_dir = some value })
  | dataset_flag ↦ parse_arguments args (record a { cve_dataset_path = some value })
  | positional ↦ elim (take_target a a.target arg) [
    | none ↦ usage
    | some a' ↦ parse_arguments (value ∷ args) a'
  ]
]

-- The variables in front of the loop.
abbrev pub no_arguments : Arguments
no_arguments = record { target = none; rules_dir = none; cve_dataset_path = none }
