-- ===== src/Identify/Beside.antt =====
-- Where the temporary directory of src/extract/identify.c lies.
use crimp.Common.{
  Bool-cases, Bytes, List, [], ap, append_assoc, arith, codes, cons_head, false, inl, inr, is_nil,
  length, length-append, refl, str_eq, str_eq→eq, sym, ℕ, ◌++◌, ◌<◌, ◌∙◌, ◌∷◌, ◌≡◌, ◌≢◌,
}
use crimp.Disk.Paths.{Inside}
use crimp.FsUtil.Safe.{
  path_parts, is_slash, path_parts-cons, enter, resolve, resolve-append, push_names,
  resolve-join_all,
}
use crimp.Identify.{tmp_of}

abbrev pub init_of : List Bytes → List Bytes
init_of [] = []
init_of (d ∷ []) = []
init_of (d ∷ e ∷ es) = d ∷ init_of (e ∷ es)

abbrev pub last_of : List Bytes → Bytes
last_of [] = []
last_of (d ∷ []) = d
last_of (d ∷ e ∷ es) = last_of (e ∷ es)

-- The last part of a path names an entry: the path does not end in a slash, "." or "..".
abbrev pub EndsInName : Bytes → Type 0
EndsInName dir =
    (is_nil (last_of (path_parts dir)) ≡ false)
    × (str_eq (last_of (path_parts dir)) (codes ".") ≡ false)
    × (str_eq (last_of (path_parts dir)) (codes "..") ≡ false)

-- From a working directory, given by its names, a path leads to a directory or to a place below it.
abbrev pub Under : List Bytes → Bytes → Bytes → Type 0
Under cwd dir path =
    (names : List Bytes) × (resolve cwd (path_parts path) ≡ names ++ resolve cwd (path_parts dir))

split_last : (d : Bytes) (ds : List Bytes) → d ∷ ds ≡ init_of (d ∷ ds) ++ last_of (d ∷ ds) ∷ []
split_last d [] = refl
split_last d (e ∷ es) = ap (λ q. d ∷ q) (split_last e es)

-- A path that is made longer by a text without slashes has the same parts but the last.
path_parts-longer :
    (s : Bytes)
    → path_parts s ≡ s ∷ []
    → (p : Bytes)
    → path_parts (p ++ s) ≡ init_of (path_parts p) ++ (last_of (path_parts p) ++ s) ∷ []
unfolding path_parts
path_parts-longer s plain [] = plain
path_parts-longer s one (c ∷ p) =
    let (d, ds, e) = path_parts-cons p in
    elim (Bool-cases (is_slash c)) [
      | inl slash ↦ rw slash (ap (λ q. [] ∷ q) (path_parts-longer s one p) ∙ rw e refl)
      | inr plain ↦ rw plain (ap (cons_head c) (path_parts-longer s one p) ∙ rw e (headed c d ds))
    ]
  where
    headed :
        (c : ℕ) (d : Bytes) (ds : List Bytes)
        → cons_head c (init_of (d ∷ ds) ++ (last_of (d ∷ ds) ++ s) ∷ [])
          ≡ init_of ((c ∷ d) ∷ ds) ++ (last_of ((c ∷ d) ∷ ds) ++ s) ∷ []
    headed c d [] = refl
    headed c d (e ∷ es) = refl

path_parts-tmp_of :
    (p : Bytes)
    → path_parts (tmp_of p)
      ≡ init_of (path_parts p) ++ (last_of (path_parts p) ++ codes ".tmp") ∷ []
unfolding path_parts
path_parts-tmp_of p = path_parts-longer (codes ".tmp") refl p

enter_name :
    (dirs : List Bytes) (name : Bytes)
    → is_nil name ≡ false
    → str_eq name (codes ".") ≡ false
    → str_eq name (codes "..") ≡ false
    → enter dirs name ≡ name ∷ dirs
enter_name dirs name filled dot dots = rw (filled, dot, dots)

long_name : (name s other : Bytes) → length other < length s → str_eq (name ++ s) other ≡ false
long_name name s other short = elim (Bool-cases (str_eq (name ++ s) other)) [
  | inl same ↦
      let e = ap length (str_eq→eq (name ++ s) other same) in
      absurd (omega (arith, e, short, length-append name s))
  | inr differs ↦ differs
]

is_nil-longer : (name s : Bytes) → is_nil s ≡ false → is_nil (name ++ s) ≡ false
is_nil-longer [] s h = h
is_nil-longer (c ∷ name) s h = refl

last_of-append : (xs : List Bytes) (y : Bytes) → last_of (xs ++ y ∷ []) ≡ y
last_of-append [] y = refl
last_of-append (x ∷ []) y = refl
last_of-append (x ∷ x' ∷ xs) y = last_of-append (x' ∷ xs) y

-- The directory that src/cli/main.c extracts an image to has such a path, whatever the image's is.
pub extracted-EndsInName : (path : Bytes) → EndsInName (path ++ codes ".crimp-extracted")
unfolding path_parts
extracted-EndsInName path =
    let e =
      ap last_of (path_parts-longer (codes ".crimp-extracted") refl path)
      ∙ last_of-append (init_of (path_parts path)) _ in
    rw e (
      is_nil-longer (last_of (path_parts path)) (codes ".crimp-extracted") refl,
      long_name (last_of (path_parts path)) (codes ".crimp-extracted") (codes ".") (omega arith),
      long_name (last_of (path_parts path)) (codes ".crimp-extracted") (codes "..") (omega arith),
    )

-- Both paths lead to entries of one directory.
resolve-beside :
    (cwd : List Bytes) (dir : Bytes)
    → EndsInName dir
    → (resolve cwd (path_parts dir)
        ≡ last_of (path_parts dir) ∷ resolve cwd (init_of (path_parts dir)))
      × (resolve cwd (path_parts (tmp_of dir))
          ≡ (last_of (path_parts dir) ++ codes ".tmp") ∷ resolve cwd (init_of (path_parts dir)))
resolve-beside cwd dir (filled, dot, dots) =
    let (d, ds, e) = path_parts-cons dir in
    let parts : path_parts dir ≡ init_of (path_parts dir) ++ last_of (path_parts dir) ∷ [] =
      rw e (split_last d ds) in
    let name = last_of (path_parts dir) in
    let above = init_of (path_parts dir) in
    (
      ap (resolve cwd) parts
          ∙ resolve-append cwd above (name ∷ [])
          ∙ enter_name (resolve cwd above) name filled dot dots,
      ap (resolve cwd) (path_parts-tmp_of dir)
          ∙ resolve-append cwd above ((name ++ codes ".tmp") ∷ [])
          ∙ enter_name (resolve cwd above) (name ++ codes ".tmp")
              (is_nil-longer name (codes ".tmp") refl)
              (long_name name (codes ".tmp") (codes ".") (omega arith))
              (long_name name (codes ".tmp") (codes "..") (omega arith)),
    )

-- Two places below entries of one directory are the same only below the same entry.
same_entry : (xs ys dirs : List Bytes) (a b : Bytes) → xs ++ a ∷ dirs ≡ ys ++ b ∷ dirs → a ≡ b
same_entry [] [] dirs a b e = cc
same_entry [] (y ∷ ys) dirs a b e =
    let lengths = ap length e in absurd (omega (arith, lengths, length-append ys (b ∷ dirs)))
same_entry (x ∷ xs) [] dirs a b e =
    let lengths = ap length e in absurd (omega (arith, lengths, length-append xs (a ∷ dirs)))
same_entry (x ∷ xs) (y ∷ ys) dirs a b e = same_entry xs ys dirs a b (cc)

longer : (name : Bytes) → name ++ codes ".tmp" ≢ name
longer name e =
    let lengths = ap length e in absurd (omega (arith, lengths, length-append name (codes ".tmp")))

push_names_lem :
    (names dirs : List Bytes) → (front : List Bytes) × (push_names names dirs ≡ front ++ dirs)
push_names_lem [] dirs = ([], refl)
push_names_lem (name ∷ names) dirs =
    let (front, e) = push_names_lem names (name ∷ dirs) in
    (front ++ name ∷ [], e ∙ sym (append_assoc front (name ∷ []) dirs))

module _ (cwd : List Bytes) (dir : Bytes) (named : EndsInName dir) where
  -- What lies in the temporary directory does not lie in the other.
  pub Inside-not_Under : (path : Bytes) → Inside (tmp_of dir) path → ¬ Under cwd dir path
  Inside-not_Under path (names, safe, e) (front, there) =
      let (here, beside) = resolve-beside cwd dir named in
      let (deep, pushed) = push_names_lem names _ in
      absurd (
        longer _ (
          same_entry deep front _ _ _ (
            sym (
              ap (λ p. resolve cwd (path_parts p)) e
              ∙ resolve-join_all names (tmp_of dir) cwd safe
              ∙ ap (push_names names) beside
              ∙ pushed)
            ∙ there
            ∙ ap (λ q. front ++ q) here)))

  pub dir-not_Under : ¬ Under cwd (tmp_of dir) dir
  dir-not_Under (front, there) =
      let (here, beside) = resolve-beside cwd dir named in
      absurd (
        longer _ (sym (same_entry [] front _ _ _ (sym here ∙ there ∙ ap (λ q. front ++ q) beside))))
