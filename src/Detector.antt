-- ===== src/Detector.antt =====
-- include/crimp/detector.h and src/core/finding.c: findings, and the list that they are added to.
pub mod Items
use crimp.Common.{Bytes, ℕ}
use crimp.ArrayList.{ArrayList, push}

pub data Severity : Type 0 where
  low medium high critical : Severity

pub record Finding : Type 0 where
  pub detector_name : Bytes
  pub description : Bytes
  pub severity : Severity

abbrev pub FindingList : Type 0
FindingList = ArrayList Finding

-- `INITIAL_CAPACITY`
abbrev pub initial_capacity : ℕ
initial_capacity = 16

-- The texts are copies, so a finding is a value.
unfoldable pub finding_list_add : FindingList → Bytes → Bytes → Severity → FindingList
finding_list_add list detector_name description severity =
    push initial_capacity
      (record { detector_name = detector_name; description = description; severity = severity })
      list
