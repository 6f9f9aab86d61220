-- ===== src/Identify/Dispatch.antt =====
-- `extract_dispatch` of src/extract/identify.c, over the three extractors.
use crimp.Common.{All-append, Bool, Bytes, Option, [], ap, false, some, true, ◌++◌, ◌∙◌, ◌≡◌}
use crimp.Disk.{History, Outside}
use crimp.Disk.Paths.{Inside, Confined, op_path}
use crimp.Entries.{State}
use crimp.Identify.{Libraries, since, with_before, or_next, extract_dispatch}
use crimp.Cramfs.Confined.{extract-Confined}
use crimp.Jffs2.Confined.{extract_ends_inside}
use crimp.Squashfs.Confined.{extract_stays_inside}

module _ (dir : Bytes) where
  -- A run ends, and its calls name paths inside the directory.
  abbrev RunEnds : Option (State × Bool) → Type 0
  RunEnds o = (r : State × Bool) × (o ≡ some r) × Confined dir r.0.history

  abbrev CallsEnd : Option (History × Bool) → Type 0
  CallsEnd o = (r : History × Bool) × (o ≡ some r) × Confined dir r.0

  with_before-CallsEnd :
      (before : History) (o : Option (State × Bool))
      → Confined dir before
      → RunEnds o
      → CallsEnd (with_before before o)
  with_before-CallsEnd before o c ((s, ok), ran, c') = (
    (s.history ++ before, ok),
    ap (with_before before) ran,
    All-append (λ op. Inside dir (op_path op)) s.history before c' c,
  )

  or_next-CallsEnd :
      (o : Option (History × Bool)) (next : History → Option (History × Bool))
      → CallsEnd o
      → ((before : History) → Confined dir before → CallsEnd (next before))
      → CallsEnd (or_next o next)
  or_next-CallsEnd o next ((history, true), ran, c) later =
      ((history, true), ap (λ t. or_next t next) ran, c)
  or_next-CallsEnd o next ((history, false), ran, c) later =
      let (r, ran', c') = later history c in (r, ap (λ t. or_next t next) ran ∙ ran', c')

-- Whatever the image holds and whatever the libraries and the system answer, the attempts of the three
-- extractors end, and all their calls name the directory or a path of safe names below it.
pub extract_dispatch_ends :
    (os : Outside) (lib : Libraries) (f dir : Bytes)
    → (r : History × Bool) × (extract_dispatch os lib f dir ≡ some r) × Confined dir r.0
unfolding extract_dispatch
extract_dispatch_ends os lib f dir =
    or_next-CallsEnd dir _ _
      (with_before-CallsEnd dir [] _ tt
        (extract_stays_inside (since os []) lib.uncompress lib.xz_decode f dir))
      (λ before c.
        or_next-CallsEnd dir _ _
          (with_before-CallsEnd dir before _ c
            (extract-Confined (since os before) lib.uncompress f dir))
          (λ before' c'.
            with_before-CallsEnd dir before' _ c'
              (extract_ends_inside (since os before') lib.memory lib.qsort lib.uncompress f dir)))
