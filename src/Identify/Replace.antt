-- ===== src/Identify/Replace.antt =====
-- `crimp_fs_extract` of src/extract/identify.c, and the directory that it replaces.
use crimp.Common.{
  All, Bool, Bool-cases, Bytes, List, [], ap, false, inl, inr, leb, length, refl, some, true, ◌∷◌,
  ◌≡◌, ◌⊎◌,
}
use crimp.Disk.Paths.{Confined, op_path}
use crimp.Identify.Beside.{EndsInName, Under, Inside-not_Under, dir-not_Under}
use crimp.Identify.Dispatch.{extract_dispatch_ends}
use crimp.Disk.{History, Outside}
use crimp.Identify.{
  Libraries, extract_dispatch, Step, remove_tree, calls, rename, staged, tmp_of, fs_extract,
}

-- From a working directory, given by its names: a step that leaves a directory and all below it alone.
-- A tree that is removed lies neither above nor below the directory.
abbrev pub Avoids : List Bytes → Bytes → Step → Type 0
Avoids cwd dir (remove_tree path) = ¬ Under cwd dir path × ¬ Under cwd path dir
Avoids cwd dir (calls history) = All (λ op. ¬ Under cwd dir (op_path op)) history
Avoids cwd dir (rename from_path to_path) = ⊥

calls-Avoids :
    (cwd : List Bytes) (dir : Bytes)
    → EndsInName dir
    → (history : History) → Confined (tmp_of dir) history
    → All (λ op. ¬ Under cwd dir (op_path op)) history
calls-Avoids cwd dir named [] c = tt
calls-Avoids cwd dir named (op ∷ history) (i, c) =
    (Inside-not_Under cwd dir named (op_path op) i, calls-Avoids cwd dir named history c)

-- The two ends: a failure that left the directory alone, or a complete extraction, after which the
-- removal of the directory spares the temporary one and `rename` decides.
abbrev pub Replaces :
    List Bytes
    → Outside
    → (List Step → Bool)
    → Libraries
    → Bytes
    → Bytes
    → List Step × Bool
    → Type 0
Replaces cwd os renames lib f dir r =
    ((r.1 ≡ false) × All (Avoids cwd dir) r.0)
    ⊎ ((history : History) × (extract_dispatch os lib f (tmp_of dir) ≡ some (history, true))
        × (r.0
            ≡ remove_tree (tmp_of dir)
              ∷ calls history
              ∷ remove_tree dir
              ∷ rename (tmp_of dir) dir
              ∷ [])
        × All (Avoids cwd dir) (remove_tree (tmp_of dir) ∷ calls history ∷ [])
        × Avoids cwd (tmp_of dir) (remove_tree dir)
        × (r.1 ≡ renames (remove_tree (tmp_of dir) ∷ calls history ∷ remove_tree dir ∷ [])))

module _ (cwd : List Bytes) (os : Outside) (renames : List Step → Bool) (lib : Libraries)
    (f dir : Bytes) (named : EndsInName dir) where
  staged-Replaces :
      (d : History × Bool)
      → extract_dispatch os lib f (tmp_of dir) ≡ some d
      → Confined (tmp_of dir) d.0
      → (r : List Step × Bool) × (staged renames
            (tmp_of dir)
            dir
            (extract_dispatch os lib f (tmp_of dir))
          ≡ some r)
        × Replaces cwd os renames lib f dir r
  staged-Replaces (history, done) ran c =
      let apart = Inside-not_Under cwd dir named (tmp_of dir) ([], tt, refl) in
      let apart' = dir-not_Under cwd dir named in
      ends history done ran apart apart' (calls-Avoids cwd dir named history c)
    where
      ends :
          (history : History) (done : Bool)
          → extract_dispatch os lib f (tmp_of dir) ≡ some (history, done)
          → ¬ Under cwd dir (tmp_of dir)
          → ¬ Under cwd (tmp_of dir) dir
          → All (λ op. ¬ Under cwd dir (op_path op)) history
          → (r : List Step × Bool) × (staged renames
                (tmp_of dir)
                dir
                (extract_dispatch os lib f (tmp_of dir))
              ≡ some r)
            × Replaces cwd os renames lib f dir r
      ends history true ran apart apart' away = (
        _,
        ap (staged renames (tmp_of dir) dir) ran,
        inr (history, ran, refl, ((apart, apart'), (away, tt)), (apart', apart), refl),
      )
      ends history false ran apart apart' away = (
        _,
        ap (staged renames (tmp_of dir) dir) ran,
        inl (refl, ((apart, apart'), (away, ((apart, apart'), tt)))),
      )

  -- Where the last part of the directory's path is a name, a replacement ends; what follows is said of
  -- the places that paths lead to from any working directory, links aside. Either it fails, and no step
  -- touches the directory or what lies below it, nor removes a tree above it; or an extractor has
  -- succeeded in the temporary directory, up to there with the directory untouched, and then the
  -- directory is removed, which spares the temporary one, and `rename` gives the temporary one its
  -- name, which also decides about success. So a failed `rename` is the one failure that loses the
  -- directory.
  pub fs_extract-Replaces :
      (r : List Step × Bool) × (fs_extract os renames lib f dir ≡ some r)
      × Replaces cwd os renames lib f dir r
  unfolding fs_extract
  fs_extract-Replaces = elim (Bool-cases (leb 1280 (length (tmp_of dir)))) [
    | inl long ↦ rw (long, fs_extract) (_, refl, inl (refl, tt))
    | inr fits ↦
        let (d, ran, c) = extract_dispatch_ends os lib f (tmp_of dir) in
        rw (fits, fs_extract) (staged-Replaces d ran c)
  ]
