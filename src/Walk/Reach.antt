-- ===== src/Walk/Reach.antt =====
-- Which files a walk reaches, and when it ends.
use crimp.Common.{
  Bool-cases, Bytes, In, List, Option, Option-cases, [], arith, false, at_head, inl, inr, in_tail,
  none, refl, some, suc, zero, ℕ, ◌++◌, ◌<◌, ◌∷◌, ◌≡◌,
}
use crimp.FileSystem.{FileSystem, FileKind, directory, regular, other}
use crimp.Walk.{entry_path, is_dot, walk_directory}
use crimp.Walk.Files.{
  both, kind_files, name_files, entry_files, files, visit_all, walk_directory-files,
}

-- A file below a directory, for `stat` and `readdir`.
pub data Below (fs : FileSystem) : Bytes → Bytes → Type 0 where
  file :
      {dir path : Bytes} (names : List Bytes) (name : Bytes)
      → fs.opendir dir ≡ some names
      → In name names
      → is_dot name ≡ false
      → path ≡ entry_path dir name
      → fs.stat path ≡ some regular
      → Below fs dir path
  deeper :
      {dir path : Bytes} (names : List Bytes) (name : Bytes)
      → fs.opendir dir ≡ some names
      → In name names
      → is_dot name ≡ false
      → fs.stat (entry_path dir name) ≡ some directory
      → Below fs (entry_path dir name) path
      → Below fs dir path

-- Every directory lies above those that it holds.
abbrev pub IsRanked : FileSystem → (Bytes → ℕ) → Type 0
IsRanked fs rank =
    (dir : Bytes) (names : List Bytes)
    → fs.opendir dir ≡ some names
    → (name : Bytes) → In name names
    → is_dot name ≡ false
    → fs.stat (entry_path dir name) ≡ some directory
    → rank (entry_path dir name) < rank dir

module _ (fs : FileSystem) where
  name_files-total :
      (below : Bytes → Option (List Bytes)) (dir name : Bytes)
      → (is_dot name ≡ false
          → fs.stat (entry_path dir name) ≡ some directory
          → (ps : List Bytes) × (below (entry_path dir name) ≡ some ps))
      → (ps : List Bytes) × (name_files fs below dir name ≡ some ps)
  name_files-total below dir name total = elim (Bool-cases (is_dot name)) [
    | inl dot ↦ ([], rw dot)
    | inr plain ↦ rw plain (go (fs.stat (entry_path dir name)) (total plain))
  ]
    where
      go :
          (kind : Option FileKind)
          → (kind ≡ some directory → (ps : List Bytes) × (below (entry_path dir name) ≡ some ps))
          → (ps : List Bytes) × (kind_files below (entry_path dir name) kind ≡ some ps)
      go (some directory) t = t refl
      go (some regular) t = (entry_path dir name ∷ [], refl)
      go (some other) t = ([], refl)
      go none t = ([], refl)

  entry_files-total :
      (below : Bytes → Option (List Bytes)) (dir : Bytes) (names : List Bytes)
      → ((name : Bytes)
          → In name names
          → is_dot name ≡ false
          → fs.stat (entry_path dir name) ≡ some directory
          → (ps : List Bytes) × (below (entry_path dir name) ≡ some ps))
      → (ps : List Bytes) × (entry_files fs below dir names ≡ some ps)
  unfolding entry_files
  entry_files-total below dir [] total = ([], refl)
  entry_files-total below dir (name ∷ names) total =
      let (ps, p) = name_files-total below dir name (total name at_head) in
      let (qs, q) = entry_files-total below dir names (λ n i. total n (in_tail i)) in
      (ps ++ qs, rw (p, q))

  files-total :
      (rank : Bytes → ℕ)
      → IsRanked fs rank
      → (fuel : ℕ) (dir : Bytes) → rank dir < fuel
      → (ps : List Bytes) × (files fs fuel dir ≡ some ps)
  unfolding files
  files-total rank ranked zero dir h = absurd (omega arith)
  files-total rank ranked (suc fuel) dir h = elim (Option-cases (fs.opendir dir)) [
    | inl closed ↦ ([], rw (closed, files))
    | inr (names, opened) ↦
        rw (opened, files)
          (entry_files-total (files fs fuel) dir names (λ name i plain kind.
            let lower : rank (entry_path dir name) < rank dir =
              ranked dir names opened name i plain kind in
            files-total rank ranked fuel (entry_path dir name) (omega arith)))
  ]

  -- With more fuel than the depth of the directories a walk ends, whatever the visitor does.
  pub walk_directory-total :
      {S : Type 0} (visit : Bytes → S → S) (rank : Bytes → ℕ)
      → IsRanked fs rank
      → (fuel : ℕ) (dir : Bytes) (s : S) → rank dir < fuel
      → (ps : List Bytes) × (files fs fuel dir ≡ some ps)
        × (walk_directory fs visit fuel dir s ≡ some (visit_all visit ps s))
  walk_directory-total visit rank ranked fuel dir s h =
      let (ps, e) = files-total rank ranked fuel dir h in
      (ps, e, rw (walk_directory-files fs visit fuel dir s, e))

  pub both-some :
      (a b : Option (List Bytes)) (rs : List Bytes)
      → both a b ≡ some rs
      → (ps : List Bytes) × (qs : List Bytes) × (a ≡ some ps) × (b ≡ some qs) × (rs ≡ ps ++ qs)
  both-some none b rs e = absurd (cc)
  both-some (some ps) none rs e = absurd (cc)
  both-some (some ps) (some qs) rs e = (ps, qs, refl, refl, cc)
