-- ===== src/Disk/Paths.antt =====
-- Paths of safe names below a directory, and histories that name no others.
use crimp.Common.{
  All, All-append, Bytes, List, [], append_assoc, if◌then◌else◌, is_nil, refl, sym, true, ◌++◌, ◌∷◌,
  ◌≡◌, ◌≢◌,
}
use crimp.Disk.{Operation, mkdir, create, write, discard, History}
use crimp.FileSystem.{join}
use crimp.FsUtil.{path_component_is_safe}
use crimp.FsUtil.Safe.{AllSafe, join_all}

abbrev pub op_path : Operation → Bytes
op_path (mkdir path) = path
op_path (create path) = path
op_path (write path block) = path
op_path (discard path) = path

-- A path of safe names below a directory, or the directory itself.
abbrev pub Inside : Bytes → Bytes → Type 0
Inside dir path = (names : List Bytes) × AllSafe names × (path ≡ join_all dir names)

abbrev pub Confined : Bytes → History → Type 0
Confined dir = All (λ op. Inside dir (op_path op))

pub safe_not_nil : (name : Bytes) → path_component_is_safe name ≡ true → name ≢ []
unfolding path_component_is_safe
safe_not_nil [] h e = absurd (cc)
safe_not_nil (c ∷ name) h e = cc

-- Where a path of the image stands on the disk.
abbrev pub place : Bytes → Bytes → Bytes
place dir [] = dir
place dir (c ∷ path) = join dir (c ∷ path)

join_all-snoc :
    (dir : Bytes) (names : List Bytes) (name : Bytes)
    → join_all dir (names ++ name ∷ []) ≡ join (join_all dir names) name
join_all-snoc dir [] name = refl
join_all-snoc dir (n ∷ names) name = join_all-snoc (join dir n) names name

pub Inside-join :
    (dir path name : Bytes)
    → Inside dir path
    → path_component_is_safe name ≡ true
    → Inside dir (join path name)
Inside-join dir path name (names, safe, e) h = (
  names ++ name ∷ [],
  All-append (λ n. path_component_is_safe n ≡ true) names (name ∷ []) safe (h, tt),
  rw e (sym (join_all-snoc dir names name)),
)

pub place-join :
    (dir parent name : Bytes)
    → name ≢ []
    → (place dir (if is_nil parent then name else join parent name) ≡ join (place dir parent) name)
      × (join dir (if is_nil parent then name else join parent name) ≡ join (place dir parent) name)
place-join dir [] [] h = absurd (h refl)
place-join dir [] (c ∷ name) h = (refl, refl)
place-join dir (c ∷ parent) name h =
    let e = sym (append_assoc dir (b'/' ∷ c ∷ parent) (b'/' ∷ name)) in (e, e)
