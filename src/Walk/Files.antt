-- ===== src/Walk/Files.antt =====
-- A walk of src/core/walk.c as a fold over a list of files.
use crimp.Common.{
  Bool-cases, Bytes, List, Option, Option-cases, [], ap, if◌then◌else◌, inl, inr, none, refl, some,
  some_inj, subst, suc, sym, zero, ℕ, ◌++◌, ◌∙◌, ◌∷◌, ◌≡◌,
}
use crimp.FileSystem.{FileSystem, FileKind, directory, regular, other}
use crimp.Walk.{entry_path, is_dot, visit_entry, visit_entries, walk_directory}

abbrev pub both : Option (List Bytes) → Option (List Bytes) → Option (List Bytes)
both none qs = none
both (some ps) none = none
both (some ps) (some qs) = some (ps ++ qs)

-- The files of one entry; `below` lists a directory.
abbrev pub kind_files :
    (Bytes → Option (List Bytes)) → Bytes → Option FileKind → Option (List Bytes)
kind_files below path (some directory) = below path
kind_files below path (some regular) = some (path ∷ [])
kind_files below path (some other) = some []
kind_files below path none = some []

module _ (fs : FileSystem) where
  abbrev pub name_files : (Bytes → Option (List Bytes)) → Bytes → Bytes → Option (List Bytes)
  name_files below dir name =
      if is_dot name
      then some []
      else kind_files below (entry_path dir name) (fs.stat (entry_path dir name))

  unfoldable pub entry_files :
      (Bytes → Option (List Bytes)) → Bytes → List Bytes → Option (List Bytes)
  entry_files below dir [] = some []
  entry_files below dir (name ∷ names) =
      both (name_files below dir name) (entry_files below dir names)

  -- All files below a directory, in the order of the walk.
  unfoldable pub files : ℕ → Bytes → Option (List Bytes)
  unfolding entry_files
  files zero dir = none
  files (suc fuel) dir = elim (fs.opendir dir) [
    | none ↦ some []
    | some names ↦ entry_files (files fuel) dir names
  ]

module _ {S : Type 0} (visit : Bytes → S → S) where
  -- Calls `visit` for every path, in order.
  abbrev pub visit_all : List Bytes → S → S
  visit_all [] s = s
  visit_all (p ∷ ps) s = visit_all ps (visit p s)

  abbrev pub visit_found : Option (List Bytes) → S → Option S
  visit_found none s = none
  visit_found (some ps) s = some (visit_all ps s)

  pub visit_all-append :
      (ps qs : List Bytes) (s : S) → visit_all (ps ++ qs) s ≡ visit_all qs (visit_all ps s)
  visit_all-append [] qs s = refl
  visit_all-append (p ∷ ps) qs s = visit_all-append ps qs (visit p s)

module _ {S : Type 0} (fs : FileSystem) (visit : Bytes → S → S) where
  visit_found-both :
      (a b : Option (List Bytes)) (s : S) (r : S → Option S)
      → ((t : S) → r t ≡ visit_found visit b t)
      → Path
          (Option S)
          (elim (visit_found visit a s) [ none ↦ none | some t ↦ r t ])
          (visit_found visit (both a b) s)
  visit_found-both none b s r same = refl
  visit_found-both (some ps) none s r same = same (visit_all visit ps s)
  visit_found-both (some ps) (some qs) s r same =
      same (visit_all visit ps s) ∙ ap some (sym (visit_all-append visit ps qs s))

  module _ (walk : Bytes → S → Option S) (below : Bytes → Option (List Bytes))
      (same : (path : Bytes) (s : S) → walk path s ≡ visit_found visit (below path) s) where
    visit_entry_lem :
        (path : Bytes) (kind : Option FileKind) (s : S)
        → visit_entry fs visit walk path kind s ≡ visit_found visit (kind_files below path kind) s
    unfolding visit_entry
    visit_entry_lem path (some directory) s = same path s
    visit_entry_lem path (some regular) s = refl
    visit_entry_lem path (some other) s = refl
    visit_entry_lem path none s = refl

    visit_name_lem :
        (dir name : Bytes) (s : S)
        → (if is_dot name
            then some s
            else visit_entry fs visit walk (entry_path dir name) (fs.stat (entry_path dir name)) s)
          ≡ visit_found visit (name_files fs below dir name) s
    visit_name_lem dir name s = elim (Bool-cases (is_dot name)) [
      | inl dot ↦ rw dot
      | inr plain ↦ rw plain (visit_entry_lem (entry_path dir name) _ s)
    ]

    visit_entries_lem :
        (dir : Bytes) (names : List Bytes) (s : S)
        → visit_entries fs visit walk dir names s
          ≡ visit_found visit (entry_files fs below dir names) s
    unfolding entry_files visit_entries
    visit_entries_lem dir [] s = refl
    visit_entries_lem dir (name ∷ names) s =
        ap (λ o. elim o [ none ↦ none | some t ↦ visit_entries fs visit walk dir names t ])
          (visit_name_lem dir name s)
        ∙ visit_found-both (name_files fs below dir name) (entry_files fs below dir names) s
            (visit_entries fs visit walk dir names) (visit_entries_lem dir names)

  -- Visiting the files one after the other is the whole effect of a walk.
  pub walk_directory-files :
      (fuel : ℕ) (dir : Bytes) (s : S)
      → walk_directory fs visit fuel dir s ≡ visit_found visit (files fs fuel dir) s
  unfolding walk_directory files
  walk_directory-files zero dir s = refl
  walk_directory-files (suc fuel) dir s = elim (Option-cases (fs.opendir dir)) [
    | inl closed ↦ rw (closed, walk_directory, files)
    | inr (names, opened) ↦
        rw (opened, walk_directory, files)
          (visit_entries_lem (walk_directory fs visit fuel) (files fs fuel)
            (walk_directory-files fuel) dir names s)
  ]

-- What every visit keeps holds after a walk.
pub walk_directory-invariant {κ} :
    {S : Type 0} (P : S → Type κ) (fs : FileSystem) (visit : Bytes → S → S)
    → ((path : Bytes) (s : S) → P s → P (visit path s))
    → (fuel : ℕ) (dir : Bytes) (s s' : S) → walk_directory fs visit fuel dir s ≡ some s'
    → P s
    → P s'
walk_directory-invariant {S} P fs visit keeps fuel dir s s' e h =
    go (files fs fuel dir) (sym (walk_directory-files fs visit fuel dir s) ∙ e)
  where
    all : (ps : List Bytes) (t : S) → P t → P (visit_all visit ps t)
    all [] t ht = ht
    all (p ∷ ps) t ht = all ps (visit p t) (keeps p t ht)

    go : (o : Option (List Bytes)) → visit_found visit o s ≡ some s' → P s'
    go none f = absurd (cc)
    go (some ps) f = subst P (some_inj f) (all ps s h)
