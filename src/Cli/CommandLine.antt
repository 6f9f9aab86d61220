-- ===== src/Cli/CommandLine.antt =====
-- Which command lines lead to a run.
use crimp.Common.{All, Bytes, List, Option, [], codes, none, refl, some, str_eq, ◌∙◌, ◌∷◌, ◌≡◌}
use crimp.Cli.{
  Arguments, Command, run, usage, positional, flag_of, take_target, command_of, parse_arguments,
  no_arguments,
}

-- A command line in pieces.
pub data Piece : Type 0 where
  rules : Bytes → Piece
  dataset : Bytes → Piece
  plain : Bytes → Piece

abbrev pub words : List Piece → List Bytes
words [] = []
words (rules dir ∷ ps) = codes "--rules" ∷ dir ∷ words ps
words (dataset path ∷ ps) = codes "--cve-dataset" ∷ path ∷ words ps
words (plain arg ∷ ps) = arg ∷ words ps

-- The last value of a repeated option counts.
abbrev pub last_rules : Option Bytes → List Piece → Option Bytes
last_rules dir [] = dir
last_rules dir (rules d ∷ ps) = last_rules (some d) ps
last_rules dir (dataset p ∷ ps) = last_rules dir ps
last_rules dir (plain a ∷ ps) = last_rules dir ps

abbrev pub last_dataset : Option Bytes → List Piece → Option Bytes
last_dataset path [] = path
last_dataset path (rules d ∷ ps) = last_dataset path ps
last_dataset path (dataset p ∷ ps) = last_dataset (some p) ps
last_dataset path (plain a ∷ ps) = last_dataset path ps

abbrev pub plain_words : List Piece → List Bytes
plain_words [] = []
plain_words (rules d ∷ ps) = plain_words ps
plain_words (dataset p ∷ ps) = plain_words ps
plain_words (plain a ∷ ps) = a ∷ plain_words ps

-- No plain word is spelled like an option.
abbrev pub IsPlain : Piece → Type 0
IsPlain (rules d) = Unit
IsPlain (dataset p) = Unit
IsPlain (plain a) = flag_of a ≡ positional

-- One target, with the options.
abbrev pub run_words : Option Bytes → List Bytes → Option Bytes → Option Bytes → Command
run_words (some t) [] dir path = run t dir path
run_words none (t ∷ []) dir path = run t dir path
run_words none [] dir path = usage
run_words none (t ∷ u ∷ ts) dir path = usage
run_words (some t) (u ∷ ts) dir path = usage

parse_rules :
    (dir : Bytes) (args : List Bytes) (a : Arguments)
    → parse_arguments (codes "--rules" ∷ dir ∷ args) a
      ≡ parse_arguments args (record a { rules_dir = some dir })
unfolding parse_arguments flag_of str_eq
parse_rules dir args a = refl

parse_dataset :
    (path : Bytes) (args : List Bytes) (a : Arguments)
    → parse_arguments (codes "--cve-dataset" ∷ path ∷ args) a
      ≡ parse_arguments args (record a { cve_dataset_path = some path })
unfolding parse_arguments flag_of str_eq
parse_dataset path args a = refl

parse_plain :
    (arg : Bytes) (args : List Bytes) (a : Arguments)
    → flag_of arg ≡ positional
    → parse_arguments (arg ∷ args) a
      ≡ elim (take_target a a.target arg) [ none ↦ usage | some a' ↦ parse_arguments args a' ]
unfolding parse_arguments
parse_plain arg [] a h = rw (h, parse_arguments)
parse_plain arg (value ∷ args) a h = rw (h, parse_arguments)

command_of_end :
    (a : Arguments) (t : Option Bytes)
    → command_of a t ≡ run_words t [] a.rules_dir a.cve_dataset_path
command_of_end a none = refl
command_of_end a (some target) = refl

run_target :
    (arg : Bytes) (ws : List Bytes) (dir path : Option Bytes)
    → run_words (some arg) ws dir path ≡ run_words none (arg ∷ ws) dir path
run_target arg [] dir path = refl
run_target arg (w ∷ ws) dir path = refl

plain_word :
    (arg : Bytes) (args ws : List Bytes) (a : Arguments) (t : Option Bytes)
    (dir path : Option Bytes)
    → parse_arguments args (record a { target = some arg }) ≡ run_words (some arg) ws dir path
    → Path Command
        (elim (take_target a t arg) [ none ↦ usage | some a' ↦ parse_arguments args a' ])
        (run_words t (arg ∷ ws) dir path)
unfolding take_target
plain_word arg args ws a none dir path e = e ∙ run_target arg ws dir path
plain_word arg args ws a (some target) dir path e = refl

parse_words :
    (ps : List Piece) (a : Arguments)
    → All IsPlain ps
    → parse_arguments (words ps) a
      ≡ run_words a.target
          (plain_words ps)
          (last_rules a.rules_dir ps)
          (last_dataset a.cve_dataset_path ps)
parse_words [] a h = unfold parse_arguments in command_of_end a a.target
parse_words (rules dir ∷ ps) a (_, h) =
    parse_rules dir (words ps) a ∙ parse_words ps (record a { rules_dir = some dir }) h
parse_words (dataset path ∷ ps) a (_, h) =
    parse_dataset path (words ps) a ∙ parse_words ps (record a { cve_dataset_path = some path }) h
parse_words (plain arg ∷ ps) a (p, h) =
    parse_plain arg (words ps) a p
    ∙ plain_word arg (words ps) (plain_words ps) a a.target (last_rules a.rules_dir ps)
        (last_dataset a.cve_dataset_path ps) (parse_words ps (record a { target = some arg }) h)

-- A command line of options, each with its value, and plain words, in any order, leads to a run
-- exactly if it has one plain word, the target. The last value of a repeated option counts.
pub parse_arguments-words :
    (ps : List Piece)
    → All IsPlain ps
    → parse_arguments (words ps) no_arguments
      ≡ run_words none (plain_words ps) (last_rules none ps) (last_dataset none ps)
parse_arguments-words ps h = parse_words ps no_arguments h
