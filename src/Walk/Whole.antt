-- ===== src/Walk/Whole.antt =====
-- The paths that `crimp_walk_directory` of src/core/walk.c visits where none is cut off.
use crimp.Common.{
  Bytes, In, List, [], arith, false, length, some, subst, sym, take-all, truncate, ℕ, ◌++◌, ◌<◌,
  ◌↔◌, ◌∙◌, ◌∷◌, ◌≡◌,
}
use crimp.FileSystem.{FileSystem, regular, directory, join}
use crimp.Walk.{entry_path, is_dot, walk_directory}
use crimp.Walk.Exact.{walk_directory-Below}
use crimp.Walk.Files.{visit_all}
use crimp.Walk.Reach.{Below, file, deeper, IsRanked, walk_directory-total}

-- A regular file below a directory, under its whole path.
pub data Beneath (fs : FileSystem) : Bytes → Bytes → Type 0 where
  held :
      {dir path : Bytes} (names : List Bytes) (name : Bytes)
      → fs.opendir dir ≡ some names
      → In name names
      → is_dot name ≡ false
      → path ≡ join dir name
      → fs.stat path ≡ some regular
      → Beneath fs dir path
  lower :
      {dir path : Bytes} (names : List Bytes) (name : Bytes)
      → fs.opendir dir ≡ some names
      → In name names
      → is_dot name ≡ false
      → fs.stat (join dir name) ≡ some directory
      → Beneath fs (join dir name) path
      → Beneath fs dir path

-- The root and the directories below it.
pub data Entered (fs : FileSystem) (root : Bytes) : Bytes → Type 0 where
  top : Entered fs root root
  down :
      {dir : Bytes} (names : List Bytes) (name : Bytes)
      → Entered fs root dir
      → fs.opendir dir ≡ some names
      → In name names
      → is_dot name ≡ false
      → fs.stat (join dir name) ≡ some directory
      → Entered fs root (join dir name)

-- Every path of the tree has fewer than 1024 bytes.
abbrev pub Fits : FileSystem → Bytes → Type 0
Fits fs root =
    (dir : Bytes)
    → Entered fs root dir
    → (names : List Bytes) → fs.opendir dir ≡ some names
    → (name : Bytes) → In name names
    → is_dot name ≡ false
    → length (join dir name) < 1024

entry_path_fits :
    (dir name : Bytes) → length (join dir name) < 1024 → entry_path dir name ≡ join dir name
unfolding truncate
entry_path_fits dir name h = take-all 1023 (join dir name) (omega arith)

module _ (fs : FileSystem) (root : Bytes) (fits : Fits fs root) where
  Below-Beneath : {dir path : Bytes} → Entered fs root dir → Below fs dir path → Beneath fs dir path
  Below-Beneath {dir} {path} at (file names name opened i plain same kind) =
      held names name opened i plain
        (same ∙ entry_path_fits dir name (fits dir at names opened name i plain)) kind
  Below-Beneath {dir} {path} at (deeper names name opened i plain kind b) =
      let whole = entry_path_fits dir name (fits dir at names opened name i plain) in
      let kind' = subst (λ p. fs.stat p ≡ some directory) whole kind in
      let under =
        Below-Beneath
          (subst (Entered fs root) (sym whole) (down names name at opened i plain kind')) b in
      lower names name opened i plain kind' (subst (λ p. Beneath fs p path) whole under)

  Beneath-Below : {dir path : Bytes} → Entered fs root dir → Beneath fs dir path → Below fs dir path
  Beneath-Below {dir} {path} at (held names name opened i plain same kind) =
      file names name opened i plain
        (same ∙ sym (entry_path_fits dir name (fits dir at names opened name i plain))) kind
  Beneath-Below {dir} {path} at (lower names name opened i plain kind b) =
      let whole = entry_path_fits dir name (fits dir at names opened name i plain) in
      let under = Beneath-Below (down names name at opened i plain kind) b in
      deeper names name opened i plain (subst (λ p. fs.stat p ≡ some directory) (sym whole) kind)
        (subst (λ p. Below fs p path) (sym whole) under)

-- In a tree of finite depth whose paths have fewer than 1024 bytes, with more fuel than its depth, a
-- walk ends, and it visits the regular files below its root, under their whole paths, and no other
-- path.
pub walk_directory_visits :
    (fs : FileSystem) (rank : Bytes → ℕ)
    → IsRanked fs rank
    → (fuel : ℕ) (root : Bytes) → rank root < fuel
    → Fits fs root
    → (visited : List Bytes) × (walk_directory fs (λ p ps. ps ++ p ∷ []) fuel root []
        ≡ some visited)
      × ((path : Bytes) → In path visited ↔ Beneath fs root path)
walk_directory_visits fs rank ranked fuel root deep fits =
    let (ps, found, e) =
      walk_directory-total fs (λ p ps. ps ++ p ∷ []) rank ranked fuel root [] deep in
    (
      visit_all (λ p ps. ps ++ p ∷ []) ps [],
      e,
      λ path.
          let (to, from) = walk_directory-Below fs fuel root path _ e in
          (
            λ i. Below-Beneath fs root fits top (to i),
            λ b. from (Beneath-Below fs root fits top b),
          ),
    )
