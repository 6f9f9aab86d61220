-- ===== src/Rules/Merge.antt =====
-- `crimp_yaml_rules_load_file` of src/core/yaml_rules.c, whatever memory can be had.
use crimp.Common.{Bool, List, Option, [], false, some, true, ◌++◌, ◌≡◌, ◌≢◌, ◌⊎◌}
use crimp.FileSystem.{FileSystem}
use crimp.Rules.{Rule, RuleList}

-- The rules `defined` by a file went over into a list that held `items`: all of them with success; or,
-- with failure, none of them or the first of them without the others.
abbrev pub MovedInto : Option (List Rule) → List Rule → RuleList × Bool → Type 0
MovedInto defined items result =
    (moved : List Rule) × (result.0.items ≡ items ++ moved)
    × (((result.1 ≡ true) × (defined ≡ some moved))
        ⊎ ((result.1 ≡ false)
            × ((moved ≡ [])
                ⊎ ((left : List Rule) × (left ≢ []) × (defined ≡ some (moved ++ left))))))

-- The rules that went over and those that were left, of a list that was read.
abbrev MovesFirst : List Rule → List Rule → RuleList × Bool → Type 0
MovesFirst rs items result =
    (moved : List Rule) × (left : List Rule) × (rs ≡ moved ++ left)
    × (result.0.items ≡ items ++ moved)
    × (((result.1 ≡ true) × (left ≡ [])) ⊎ ((result.1 ≡ false) × (left ≢ [])))
