-- ===== src/Detector/Items.antt =====
-- What `crimp_finding_list_add` does to a list.
use crimp.Common.{Bytes, [], arith, ◌++◌, ◌∷◌, ◌≡◌}
use crimp.ArrayList.{IsValid, push-items, push-IsValid}
use crimp.Detector.{Severity, Finding, FindingList, initial_capacity, finding_list_add}

abbrev pub finding : Bytes → Bytes → Severity → Finding
finding detector_name description severity = record {
  detector_name = detector_name;
  description = description;
  severity = severity;
}

pub finding_list_add-items :
    (list : FindingList) (detector_name description : Bytes) (severity : Severity)
    → (finding_list_add list detector_name description severity).items
      ≡ list.items ++ finding detector_name description severity ∷ []
unfolding finding_list_add
finding_list_add-items list detector_name description severity = push-items _ _ list

pub finding_list_add-IsValid :
    (list : FindingList) (detector_name description : Bytes) (severity : Severity)
    → IsValid initial_capacity list
    → IsValid initial_capacity (finding_list_add list detector_name description severity)
unfolding finding_list_add
finding_list_add-IsValid list detector_name description severity v =
    push-IsValid initial_capacity _ list (omega arith) v
