-- ===== src/Registry/Laws.antt =====
-- Laws of the table of src/core/registry.c.
use crimp.Common.{
  Bool-cases, Bytes, List, Option, Option-cases, [], arith, inl, inr, leb, length-append, none,
  refl, some, some_inj, subst, sym, take-all, ◌++◌, ◌+◌, ◌∙◌, ◌∷◌, ◌≡◌, ◌⊎◌,
}
use crimp.Detector.{FindingList}
use crimp.Registry.{
  Detector, Registry, max_detectors, registry_add, run_detectors, registry_run_all, IsValid,
}

-- An addition fails exactly when the table is full; else the detector stands behind the others, and
-- the registry stays well formed.
pub registry_add_lem :
    (reg : Registry) (det : Detector)
    → IsValid reg
    → ((registry_add reg det ≡ none) × (reg.count ≡ max_detectors))
      ⊎ ((reg' : Registry) × (registry_add reg det ≡ some reg')
          × (reg'.detectors ≡ reg.detectors ++ det ∷ [])
          × IsValid reg')
unfolding registry_add
registry_add_lem reg det v = elim (Bool-cases (leb max_detectors reg.count)) [
  | inl full ↦ inl (rw full, ground arith)
  | inr room ↦ inr (
    record reg { detectors = reg.detectors ++ det ∷ []; count = reg.count + 1 },
    rw room,
    refl,
    ground (arith, length-append reg.detectors (det ∷ [])),
  )
]

abbrev pub bind : Option FindingList → (FindingList → Option FindingList) → Option FindingList
bind none f = none
bind (some out) f = f out

run_detectors-append :
    (ds : List Detector) (det : Detector) (root_path : Bytes) (out : FindingList)
    → run_detectors (ds ++ det ∷ []) root_path out
      ≡ bind (run_detectors ds root_path out) (det.scan root_path)
unfolding run_detectors
run_detectors-append [] det root_path out = go (det.scan root_path out)
  where
    go :
        (o : Option FindingList)
        → Path (Option FindingList) (elim o [ none ↦ none | some r ↦ some r ]) o
    go none = refl
    go (some r) = refl
run_detectors-append (d ∷ ds) det root_path out = elim (Option-cases (d.scan root_path out)) [
  | inl bad ↦ rw (bad, run_detectors)
  | inr (r, good) ↦ rw (good, run_detectors) (run_detectors-append ds det root_path r)
]

registry_run_all_lem :
    (reg : Registry) (root_path : Bytes) (out : FindingList)
    → IsValid reg
    → registry_run_all reg root_path out ≡ run_detectors reg.detectors root_path out
unfolding registry_run_all
registry_run_all_lem reg root_path out v =
    rw (take-all reg.count reg.detectors (omega (arith, v.counted)))

-- A detector that was added last runs last, on the findings of the others.
pub registry_run_all-add :
    (reg reg' : Registry) (det : Detector) (root_path : Bytes) (out : FindingList)
    → IsValid reg
    → registry_add reg det ≡ some reg'
    → registry_run_all reg' root_path out
      ≡ bind (registry_run_all reg root_path out) (det.scan root_path)
registry_run_all-add reg reg' det root_path out v e = elim (registry_add_lem reg det v) [
  | inl (full, _) ↦ absurd (cc full)
  | inr (added, found, same, valid) ↦
      let one : added ≡ reg' = some_inj (sym found ∙ e) in
      subst
        (λ r.
          registry_run_all r root_path out
          ≡ bind (registry_run_all reg root_path out) (det.scan root_path))
        one
        (rw
          (
            registry_run_all_lem added root_path out valid,
            same,
            registry_run_all_lem reg root_path out v,
          )
          (run_detectors-append reg.detectors det root_path out))
]
