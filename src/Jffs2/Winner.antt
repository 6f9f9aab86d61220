-- ===== src/Jffs2/Winner.antt =====
-- The first run in the sorted array of src/extract/jffs2.c, and the dirent that it leaves.
use crimp.Common.{
  All-In, In, In-leading, In-split, In-trailing, List, at_head, false, in_tail, inl, inr, leading,
  leading-All, refl, sym, trailing, true, ℕ, ◌∙◌, ◌∷◌, ◌≡◌, ◌⊎◌,
}
use crimp.Jffs2.{Dirent}
use crimp.Jffs2.Lookup.{same_run, last_or}
use crimp.Jffs2.Runs.{
  Precedes, IsSorted, Newest, Latest, IsSame, leading-IsSorted, All-leading, last_or-In,
  last_or-newest, same_run-IsSame, same_run-false, trailing-other,
}

-- The first run of a sorted array, for a name in the directory, and the rest.
module _ (pino : ℕ) (d : Dirent) (ds : List Dirent) where
  abbrev pub run : List Dirent
  run = leading (same_run pino d) ds

  abbrev pub rest : List Dirent
  rest = trailing (same_run pino d) ds

  abbrev pub winner : Dirent
  winner = last_or d run

module _ (pino : ℕ) (d : Dirent) (ds : List Dirent) (at : d.pino ≡ pino)
    (sorted : IsSorted (d ∷ ds)) where
  pub run-IsSame : (e : Dirent) → In e (d ∷ run pino d ds) → IsSame pino d e
  run-IsSame e at_head = (at, refl)
  run-IsSame e (in_tail i) = same_run-IsSame pino d e (
      All-In (λ x. same_run pino d x ≡ true) (run pino d ds) (leading-All (same_run pino d) ds) e i)

  pub rest-other : (e : Dirent) → In e (rest pino d ds) → IsSame pino d e → ⊥
  rest-other e i same =
      same_run-false pino d e
        (All-In (λ x. same_run pino d x ≡ false) (rest pino d ds)
          (trailing-other pino d ds at sorted.0 sorted.1) e i)
        same

  run-In : (e : Dirent) → In e (d ∷ run pino d ds) → In e (d ∷ ds)
  run-In e at_head = at_head
  run-In e (in_tail i) = in_tail (In-leading (same_run pino d) ds e i)

  pub split_lem : (e : Dirent) → In e (d ∷ ds) → In e (d ∷ run pino d ds) ⊎ In e (rest pino d ds)
  split_lem e at_head = inl at_head
  split_lem e (in_tail i) = elim (In-split (same_run pino d) ds e i) [
    | inl j ↦ inl (in_tail j)
    | inr j ↦ inr j
  ]

  winner-Newest : Newest (d ∷ ds) (winner pino d ds)
  winner-Newest e i p n = elim (split_lem e i) [
    | inl j ↦
        last_or-newest pino d d (run pino d ds) (at, refl) (leading-All (same_run pino d) ds)
          (
            All-leading (Precedes d) (same_run pino d) ds sorted.0,
            leading-IsSorted (same_run pino d) ds sorted.1,
          )
          e j
    | inr j ↦
        let (q, m) = run-IsSame (winner pino d ds) (last_or-In d (run pino d ds)) in
        absurd (rest-other e j (p ∙ q, n ∙ m))
  ]

  pub winner-Latest : Latest (d ∷ ds) pino (winner pino d ds)
  winner-Latest = (
    run-In (winner pino d ds) (last_or-In d (run pino d ds)),
    (run-IsSame (winner pino d ds) (last_or-In d (run pino d ds))).0,
    winner-Newest,
  )

  pub rest-Latest : (w : Dirent) → Latest (rest pino d ds) pino w → Latest (d ∷ ds) pino w
  rest-Latest w (i, at', newest) = (
    in_tail (In-trailing (same_run pino d) ds w i),
    at',
    λ e j p n. elim (split_lem e j) [
      | inl k ↦ absurd (rest-other w i (at', sym n ∙ (run-IsSame e k).1))
      | inr k ↦ newest e k p n
    ],
  )
