-- ===== src/FsUtil/Safe.antt =====
-- Where paths lead that are joined of names which `crimp_fs_path_component_is_safe` lets through.
use crimp.Common.{
  All, Bool, Bool-cases, Bytes, List, [], any, ap, arith, codes, cons_head, false, if◌then◌else◌,
  inl, inr, is_nil, refl, str_eq, true, ℕ, ◌++◌, ◌==◌, ◌||◌, ◌∙◌, ◌∷◌, ◌≡◌,
}
use crimp.FileSystem.{join}
use crimp.FsUtil.{is_refused, is_windows_reserved_name, path_component_is_safe}

abbrev pub is_slash : ℕ → Bool
is_slash c = c == b'/' || c == b'\\'

-- The parts of a path, on either platform.
unfoldable pub path_parts : Bytes → List Bytes
path_parts [] = [] ∷ []
path_parts (c ∷ p) = if is_slash c then [] ∷ path_parts p else cons_head c (path_parts p)

abbrev pub parent : List Bytes → List Bytes
parent [] = []
parent (d ∷ ds) = ds

-- One part of a path, from a directory that is given by its names, the innermost first.
abbrev pub enter : List Bytes → Bytes → List Bytes
enter dirs part =
    if is_nil part || str_eq part (codes ".")
    then dirs
    else if str_eq part (codes "..")
    then parent dirs
    else part ∷ dirs

abbrev pub resolve : List Bytes → List Bytes → List Bytes
resolve dirs [] = dirs
resolve dirs (part ∷ parts) = resolve (enter dirs part) parts

pub path_parts-cons : (p : Bytes) → (d : Bytes) × (ds : List Bytes) × (path_parts p ≡ d ∷ ds)
unfolding path_parts
path_parts-cons [] = ([], [], refl)
path_parts-cons (c ∷ p) = elim (Bool-cases (is_slash c)) [
  | inl slash ↦ ([], path_parts p, rw slash)
  | inr plain ↦ let (d, ds, e) = path_parts-cons p in (c ∷ d, ds, rw (plain, e))
]

path_parts-join :
    (dir name : Bytes) → path_parts (join dir name) ≡ path_parts dir ++ path_parts name
unfolding path_parts
path_parts-join [] name = refl
path_parts-join (c ∷ dir) name = elim (Bool-cases (is_slash c)) [
  | inl slash ↦ rw slash (ap (λ ps. [] ∷ ps) (path_parts-join dir name))
  | inr plain ↦
      let (d, ds, e) = path_parts-cons dir in
      rw plain (ap (cons_head c) (path_parts-join dir name) ∙ rw e)
]

pub resolve-append :
    (dirs xs ys : List Bytes) → resolve dirs (xs ++ ys) ≡ resolve (resolve dirs xs) ys
resolve-append dirs [] ys = refl
resolve-append dirs (x ∷ xs) ys = resolve-append (enter dirs x) xs ys

path_parts_plain : (name : Bytes) → any is_refused name ≡ false → path_parts name ≡ name ∷ []
unfolding path_parts
path_parts_plain [] h = refl
path_parts_plain (c ∷ name) h = ground (arith, path_parts_plain name)

safe_tests :
    (name : Bytes)
    → path_component_is_safe name ≡ true
    → (is_nil name ≡ false)
      × (str_eq name (codes ".") ≡ false)
      × (str_eq name (codes "..") ≡ false)
      × (any is_refused name ≡ false)
      × (is_windows_reserved_name name ≡ false)
unfolding path_component_is_safe
safe_tests [] h = absurd (cc)
safe_tests (c ∷ name) h = ground arith

-- Joined to any directory, a safe name is one step down: the path leads to the entry of that very
-- name in the directory, for either separator, and nowhere else.
pub resolve-join :
    (name dir : Bytes) (dirs : List Bytes)
    → path_component_is_safe name ≡ true
    → resolve dirs (path_parts (join dir name)) ≡ name ∷ resolve dirs (path_parts dir)
resolve-join name dir dirs h =
    let (filled, dot, dots, plain, _) = safe_tests name h in
    rw
      (
        path_parts-join dir name,
        path_parts_plain name plain,
        resolve-append dirs (path_parts dir) (name ∷ []),
      )
      (rw (filled, dot, dots))

-- The path of an entry below a directory, name by name.
abbrev pub join_all : Bytes → List Bytes → Bytes
join_all dir [] = dir
join_all dir (name ∷ names) = join_all (join dir name) names

abbrev pub AllSafe : List Bytes → Type 0
AllSafe = All (λ name. path_component_is_safe name ≡ true)

abbrev pub push_names : List Bytes → List Bytes → List Bytes
push_names [] dirs = dirs
push_names (name ∷ names) dirs = push_names names (name ∷ dirs)

-- A path that is joined of safe names stays below its directory, at the depth of the names.
pub resolve-join_all :
    (names : List Bytes) (dir : Bytes) (dirs : List Bytes)
    → AllSafe names
    → resolve dirs (path_parts (join_all dir names))
      ≡ push_names names (resolve dirs (path_parts dir))
resolve-join_all [] dir dirs h = refl
resolve-join_all (name ∷ names) dir dirs (safe, h) =
    resolve-join_all names (join dir name) dirs h
    ∙ ap (push_names names) (resolve-join name dir dirs safe)
