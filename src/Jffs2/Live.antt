-- ===== src/Jffs2/Live.antt =====
-- The entries of a directory of src/extract/jffs2.c, against the dirents of the log.
use crimp.Common.{
  All, All-In, Bool-cases, In, In-All, In-split, In-trailing, List, [], arith, at_head, in_tail,
  inl, inr, leading, leading-All, length, length-trailing_le, ltb, suc, sym, trailing, true, zero,
  ℕ, ◌<◌, ◌==◌, ◌∙◌, ◌∷◌, ◌≡◌, ◌≢◌, ◌≤◌, ◌⊎◌,
}
use crimp.Jffs2.{Dirent}
use crimp.Jffs2.Bounds.{drop-dirent_lower_bound}
use crimp.Jffs2.Lookup.{same_run, live, live_loop, live_children}
use crimp.Jffs2.Names.{dirent_cmp_lem}
use crimp.Jffs2.Winner.{
  run, rest, winner, run-IsSame, rest-other, split_lem, winner-Latest, rest-Latest,
}
use crimp.Jffs2.Runs.{
  Precedes, IsSorted, Latest, DistinctNames, trailing-IsSorted, IsSorted-Ascending, last_or-In,
}

-- A latest dirent for the same name, which is listed unless it marks a deletion.
abbrev pub Covered : List Dirent → ℕ → List Dirent → Dirent → Type 0
Covered ds pino listed e =
    (w : Dirent) × Latest ds pino w × (w.name ≡ e.name) × ((w.ino ≡ 0) ⊎ In w listed)

-- What a directory lists of some dirents.
pub record Listing (ds : List Dirent) (pino : ℕ) (listed : List Dirent) : Type 0 where
  pub sound : (w : Dirent) → In w listed → Latest ds pino w × (w.ino ≢ 0)
  pub complete : (e : Dirent) → In e ds → e.pino ≡ pino → Covered ds pino listed e
  pub distinct : DistinctNames listed

nothing_listed :
    (pino : ℕ) (ds : List Dirent) → ((e : Dirent) → In e ds → e.pino ≢ pino) → Listing ds pino []
nothing_listed pino ds none_there = record {
  sound = λ w i. elim i [ ];
  complete = λ e i p. absurd (none_there e i p);
  distinct = tt;
}

module _ (pino : ℕ) (d : Dirent) (ds : List Dirent) (at : d.pino ≡ pino)
    (sorted : IsSorted (d ∷ ds)) (listed : List Dirent)
    (later : Listing (rest pino d ds) pino listed) where
  abbrev first : Dirent
  first = winner pino d ds

  later_differs : (e : Dirent) → In e listed → e.name ≢ first.name
  later_differs e i n =
      let ((j, p, _), _) = later.sound e i in
      rest-other pino d ds at sorted e j
        (p, n ∙ (run-IsSame pino d ds at sorted first (last_or-In d (run pino d ds))).1)

  covers_run :
      (out : List Dirent)
      → (first.ino ≡ 0) ⊎ In first out
      → ((w : Dirent) → In w listed → In w out)
      → (e : Dirent) → In e (d ∷ ds)
      → e.pino ≡ pino
      → Covered (d ∷ ds) pino out e
  covers_run out shown kept e i p = elim (split_lem pino d ds at sorted e i) [
    | inl j ↦ (
      first,
      winner-Latest pino d ds at sorted,
      (run-IsSame pino d ds at sorted first (last_or-In d (run pino d ds))).1
          ∙ sym (run-IsSame pino d ds at sorted e j).1,
      shown,
    )
    | inr j ↦
        let (w, latest, n, there) = later.complete e j p in
        (
          w,
          rest-Latest pino d ds at sorted w latest,
          n,
          elim there [ inl deleted ↦ inl deleted | inr k ↦ inr (kept w k) ],
        )
  ]

  later_sound : (w : Dirent) → In w listed → Latest (d ∷ ds) pino w × (w.ino ≢ 0)
  later_sound w i =
      let (latest, shown) = later.sound w i in (rest-Latest pino d ds at sorted w latest, shown)

  live_sound :
      first.ino ≢ 0 → (w : Dirent) → In w (first ∷ listed) → Latest (d ∷ ds) pino w × (w.ino ≢ 0)
  live_sound h w at_head = (winner-Latest pino d ds at sorted, h)
  live_sound h w (in_tail i) = later_sound w i

  live-Listing : Listing (d ∷ ds) pino (live first listed)
  live-Listing = elim (Bool-cases (first.ino == 0)) [
    | inl deleted ↦
        rw (deleted, live)
          (record {
            sound = later_sound;
            complete = covers_run listed (inl (ground (arith, deleted))) (λ w i. i);
            distinct = later.distinct;
          })
    | inr shown ↦
        rw (shown, live)
          (record {
            sound = live_sound (ground (arith, shown));
            complete = covers_run (first ∷ listed) (inr at_head) (λ w i. in_tail i);
            distinct = (In-All (λ e. e.name ≢ first.name) listed later_differs, later.distinct);
          })
  ]

beyond_lem :
    (pino : ℕ) (d : Dirent) (ds : List Dirent)
    → pino < d.pino
    → All (Precedes d) ds
    → (e : Dirent) → In e (d ∷ ds)
    → e.pino ≢ pino
beyond_lem pino d ds h after e at_head p = omega arith
beyond_lem pino d ds h after e (in_tail i) p =
    let (le, _, _) = dirent_cmp_lem d e (All-In (Precedes d) ds after e i) in omega arith

live_loop-Listing :
    (fuel pino : ℕ) (ds : List Dirent)
    → length ds ≤ fuel
    → IsSorted ds
    → All (λ e. pino ≤ e.pino) ds
    → Listing ds pino (live_loop fuel pino ds)
unfolding live_loop
live_loop-Listing zero pino [] h sorted least = nothing_listed pino [] (λ e i. elim i [ ])
live_loop-Listing zero pino (d ∷ ds) h sorted least = absurd (omega arith)
live_loop-Listing (suc fuel) pino [] h sorted least = nothing_listed pino [] (λ e i. elim i [ ])
live_loop-Listing (suc fuel) pino (d ∷ ds) h sorted (le, least) =
    elim (Bool-cases (d.pino == pino)) [
      | inr beyond ↦
          rw (beyond, live_loop)
            (nothing_listed pino (d ∷ ds)
              (beyond_lem pino d ds (ground (arith, beyond, le)) sorted.0))
      | inl here ↦
          rw (here, live_loop)
            (live-Listing pino d ds (ground (arith, here)) sorted _ (
              live_loop-Listing fuel pino (rest pino d ds)
                (omega (arith, length-trailing_le (same_run pino d) ds))
                (trailing-IsSorted (same_run pino d) ds sorted.1)
                (In-All (λ e. pino ≤ e.pino) (rest pino d ds)
                  (λ e i.
                    All-In (λ e. pino ≤ e.pino) ds least e
                      (In-trailing (same_run pino d) ds e i)))))
    ]

-- What is left of the array behind the smaller parents.
abbrev behind : ℕ → List Dirent → List Dirent
behind pino items = trailing (λ d. ltb d.pino pino) items

behind_least :
    (pino : ℕ) (items : List Dirent) → IsSorted items → All (λ e. pino ≤ e.pino) (behind pino items)
behind_least pino [] h = tt
behind_least pino (d ∷ ds) (a, h) = elim (Bool-cases (ltb d.pino pino)) [
  | inl below ↦ rw (below, trailing) (behind_least pino ds h)
  | inr above ↦
      let least : pino ≤ d.pino = ground (arith, above) in
      rw (above, trailing)
        (
          least,
          In-All (λ e. pino ≤ e.pino) ds
              (λ e i.
                let (le, _, _) = dirent_cmp_lem d e (All-In (Precedes d) ds a e i) in omega arith),
        )
]

module _ (scanned items : List Dirent) (sorted : IsSorted items)
    (kept : (e : Dirent) → In e scanned → In e items)
    (scanned_there : (e : Dirent) → In e items → In e scanned) (pino : ℕ) where
  In-behind : (e : Dirent) → In e scanned → e.pino ≡ pino → In e (behind pino items)
  In-behind e i p = elim (In-split (λ d. ltb d.pino pino) items e (kept e i)) [
    | inr j ↦ j
    | inl j ↦
        let below =
          All-In (λ d. ltb d.pino pino ≡ true) (leading (λ d. ltb d.pino pino) items)
            (leading-All (λ d. ltb d.pino pino) items) e j in
        absurd (ground (arith, below, p))
  ]

  behind-Latest : (w : Dirent) → Latest (behind pino items) pino w → Latest scanned pino w
  behind-Latest w (i, p, newest) = (
    scanned_there w (In-trailing (λ d. ltb d.pino pino) items w i),
    p,
    λ e j q n. newest e (In-behind e j (q ∙ p)) q n,
  )

  behind-Listing :
      (listed : List Dirent) → Listing (behind pino items) pino listed → Listing scanned pino listed
  behind-Listing listed l = record {
    sound = λ w i. (behind-Latest w (l.sound w i).0, (l.sound w i).1);
    complete = λ e i p.
        let (w, latest, n, there) = l.complete e (In-behind e i p) p in
        (w, behind-Latest w latest, n, there);
    distinct = l.distinct;
  }

-- For dirents sorted by `dirent_cmp`, in whatever order the log held them, a directory visits the
-- dirents that no newer dirent for the same name replaces: every visited dirent is such a one with an
-- inode, every name the log holds for the directory has such a dirent, visited unless it marks a
-- deletion, and no name is visited twice.
pub live_children-Listing :
    (scanned items : List Dirent) (pino : ℕ)
    → IsSorted items
    → ((e : Dirent) → In e scanned → In e items)
    → ((e : Dirent) → In e items → In e scanned)
    → Listing scanned pino (live_children items pino)
unfolding live_children
live_children-Listing scanned items pino sorted kept there =
    rw (drop-dirent_lower_bound items pino (IsSorted-Ascending items sorted)) (
      behind-Listing scanned items sorted kept there pino _ (
        live_loop-Listing (length items) pino (behind pino items)
          (length-trailing_le (λ d. ltb d.pino pino) items)
          (trailing-IsSorted (λ d. ltb d.pino pino) items sorted) (behind_least pino items sorted)))
