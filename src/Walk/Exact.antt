-- ===== src/Walk/Exact.antt =====
-- The paths that `crimp_walk_directory` of src/core/walk.c visits, against `Below`.
use crimp.Common.{
  All, All-append, Bool-cases, Bytes, In, In-append_left, In-append_right, List, Option,
  Option-cases, [], append-nil, append_assoc, at_head, false, in_tail, inl, inr, none, refl, some,
  some_inj, subst, suc, sym, zero, ℕ, ◌++◌, ◌↔◌, ◌∙◌, ◌∷◌, ◌≡◌,
}
use crimp.FileSystem.{FileSystem, FileKind, directory, regular, other}
use crimp.Walk.{entry_path, is_dot, walk_directory}
use crimp.Walk.Files.{
  kind_files, name_files, entry_files, files, visit_all, visit_found, walk_directory-files,
}
use crimp.Walk.Reach.{Below, file, deeper, both-some}

All-map :
    {A : Type 0} {P Q : A → Type 0} (f : (a : A) → P a → Q a) (xs : List A) → All P xs → All Q xs
All-map f [] h = tt
All-map f (x ∷ xs) (p, h) = (f x p, All-map f xs h)

All-In : {A : Type 0} (P : A → Type 0) (xs : List A) (a : A) → All P xs → In a xs → P a
All-In P [] a h i = elim i [ ]
All-In P (x ∷ xs) a (p, h) at_head = p
All-In P (x ∷ xs) a (p, h) (in_tail i) = All-In P xs a h i

module _ (fs : FileSystem) where
  name_files_sound :
      (below : Bytes → Option (List Bytes))
      → ((dir : Bytes) (ps : List Bytes) → below dir ≡ some ps → All (Below fs dir) ps)
      → (dir : Bytes) (names : List Bytes) (name : Bytes) (ps : List Bytes)
      → fs.opendir dir ≡ some names
      → In name names
      → name_files fs below dir name ≡ some ps
      → All (Below fs dir) ps
  name_files_sound below sound dir names name ps opened i e = elim (Bool-cases (is_dot name)) [
    | inl dot ↦ subst (All (Below fs dir)) (some_inj (rw dot at e)) tt
    | inr plain ↦ go plain (fs.stat (entry_path dir name)) refl (rw plain at e)
  ]
    where
      go :
          is_dot name ≡ false
          → (kind : Option FileKind) → fs.stat (entry_path dir name) ≡ kind
          → kind_files below (entry_path dir name) kind ≡ some ps
          → All (Below fs dir) ps
      go plain (some directory) k h =
          All-map (λ p b. deeper names name opened i plain k b) ps (sound _ ps h)
      go plain (some regular) k h =
          subst (All (Below fs dir)) (some_inj h) (file names name opened i plain refl k, tt)
      go plain (some other) k h = subst (All (Below fs dir)) (some_inj h) tt
      go plain none k h = subst (All (Below fs dir)) (some_inj h) tt

  entry_files_sound :
      (below : Bytes → Option (List Bytes))
      → ((dir : Bytes) (ps : List Bytes) → below dir ≡ some ps → All (Below fs dir) ps)
      → (dir : Bytes) (all : List Bytes) → fs.opendir dir ≡ some all
      → (names ps : List Bytes) → ((name : Bytes) → In name names → In name all)
      → entry_files fs below dir names ≡ some ps
      → All (Below fs dir) ps
  unfolding entry_files
  entry_files_sound below sound dir all opened [] ps within e =
      subst (All (Below fs dir)) (some_inj e) tt
  entry_files_sound below sound dir all opened (name ∷ names) ps within e =
      let (qs, rs, a, b, same) = both-some fs _ _ ps e in
      subst (All (Below fs dir)) (sym same) (
        All-append _ qs rs
          (name_files_sound below sound dir all name qs opened (within name at_head) a)
          (entry_files_sound below sound dir all opened names rs (λ n i. within n (in_tail i)) b))

  files_sound :
      (fuel : ℕ) (dir : Bytes) (ps : List Bytes)
      → files fs fuel dir ≡ some ps
      → All (Below fs dir) ps
  unfolding files
  files_sound zero dir ps e = absurd (cc)
  files_sound (suc fuel) dir ps e = elim (Option-cases (fs.opendir dir)) [
    | inl closed ↦ subst (All (Below fs dir)) (some_inj (rw (closed, files) at e)) tt
    | inr (names, opened) ↦
        entry_files_sound (files fs fuel) (files_sound fuel) dir names opened names ps (λ n i. i)
          (rw (opened, files) at e)
  ]

  entry_files_complete :
      (below : Bytes → Option (List Bytes)) (dir name path : Bytes) (names ps : List Bytes)
      → ((qs : List Bytes) → name_files fs below dir name ≡ some qs → In path qs)
      → In name names
      → entry_files fs below dir names ≡ some ps
      → In path ps
  unfolding entry_files
  entry_files_complete below dir name path [] ps here i e = elim i [ ]
  entry_files_complete below dir name path (_ ∷ names) ps here at_head e =
      let (qs, rs, a, b, same) = both-some fs _ _ ps e in
      subst (In path) (sym same) (In-append_left qs rs (here qs a))
  entry_files_complete below dir name path (n ∷ names) ps here (in_tail i) e =
      let (qs, rs, a, b, same) = both-some fs _ _ ps e in
      subst (In path) (sym same)
        (In-append_right qs rs (entry_files_complete below dir name path names rs here i b))

  opened_files :
      (fuel : ℕ) (dir : Bytes) (names ps : List Bytes)
      → fs.opendir dir ≡ some names
      → files fs (suc fuel) dir ≡ some ps
      → entry_files fs (files fs fuel) dir names ≡ some ps
  unfolding files
  opened_files fuel dir names ps opened e = rw (opened, files) at e

  files_complete :
      (fuel : ℕ) {dir path : Bytes} (ps : List Bytes)
      → Below fs dir path
      → files fs fuel dir ≡ some ps
      → In path ps
  files_complete zero ps b e = absurd (unfold files in cc)
  files_complete (suc fuel) {dir} {path} ps (file names name opened i plain same kind) e =
      entry_files_complete (files fs fuel) dir name path names ps
        (λ qs h. subst (In path) (some_inj (rw (plain, ← same, kind) at h)) at_head) i
        (opened_files fuel dir names ps opened e)
  files_complete (suc fuel) {dir} {path} ps (deeper names name opened i plain kind b) e =
      entry_files_complete (files fs fuel) dir name path names ps
        (λ qs h. files_complete fuel qs b (rw (plain, kind) at h)) i
        (opened_files fuel dir names ps opened e)

  -- The list of a walk that ends holds the regular files below its root, and nothing else.
  files_iff :
      (fuel : ℕ) (dir path : Bytes) (ps : List Bytes)
      → files fs fuel dir ≡ some ps
      → In path ps ↔ Below fs dir path
  files_iff fuel dir path ps e =
      (All-In (Below fs dir) ps path (files_sound fuel dir ps e), λ b. files_complete fuel ps b e)

visit_all-collect : (ps qs : List Bytes) → visit_all (λ p rs. rs ++ p ∷ []) ps qs ≡ qs ++ ps
visit_all-collect [] qs = sym (append-nil qs)
visit_all-collect (p ∷ ps) qs = visit_all-collect ps (qs ++ p ∷ []) ∙ append_assoc qs (p ∷ []) ps

pub walk_directory-Below :
    (fs : FileSystem) (fuel : ℕ) (dir path : Bytes) (visited : List Bytes)
    → walk_directory fs (λ p ps. ps ++ p ∷ []) fuel dir [] ≡ some visited
    → In path visited ↔ Below fs dir path
walk_directory-Below fs fuel dir path visited e =
    go (files fs fuel dir) refl
      (sym (walk_directory-files fs (λ p ps. ps ++ p ∷ []) fuel dir []) ∙ e)
  where
    go :
        (o : Option (List Bytes))
        → files fs fuel dir ≡ o
        → visit_found (λ p ps. ps ++ p ∷ []) o [] ≡ some visited
        → In path visited ↔ Below fs dir path
    go none same f = absurd (cc)
    go (some ps) same f =
        subst (λ vs. In path vs ↔ Below fs dir path) (sym (visit_all-collect ps []) ∙ some_inj f)
          (files_iff fs fuel dir path ps same)
