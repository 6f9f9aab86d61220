-- ===== src/Jffs2/Ends.antt =====
-- The end of `scan_log` of src/extract/jffs2.c.
use crimp.Common.{
  Bool, Bool-cases, Bytes, Option, Option-cases, [], ap, arith, drop, false, inl, inr, length,
  length-drop, ltb, none, refl, some, suc, take, zero, ℕ, ◌*◌, ◌+◌, ◌<◌, ◌==◌, ◌||◌, ◌∙◌, ◌∷◌, ◌≡◌,
  ◌≤◌,
}
use crimp.FsUtil.{decode_u16, decode_u32}
use crimp.Image.{read_at, read_at_lem}
use crimp.Jffs2.{magic, common_header_size, Memory, Scan, scan_chunk, find_next_node}
use crimp.Jffs2.Gap.{scan_chunk_within, scan_chunk_after, find_next_node-scan_chunk}
use crimp.Jffs2.Log.{
  align4, Round, stop, fail, stuck, at, after_node, node_round, gap_round, scan_round, scan_loop,
  scan_log, no_nodes,
}

-- Where a round that goes on takes the loop: at least four bytes on, and not far behind the image.
abbrev Advances : ℕ → ℕ → Round → Type 0
Advances size pos stop = Unit
Advances size pos fail = Unit
Advances size pos stuck = ⊥
Advances size pos (at pos' s) = (pos + 4 ≤ pos') × (pos' ≤ size + 3)

after_node-Advances :
    (size pos totlen : ℕ) (o : Option Scan)
    → common_header_size ≤ totlen
    → pos + totlen ≤ size
    → Advances size pos (after_node (align4 (pos + totlen)) o)
after_node-Advances size pos totlen none a b = tt
after_node-Advances size pos totlen (some s) a b = (omega arith, omega arith)

node_round-Advances :
    (mem : Memory) (f : Bytes) (be : Bool) (pos : ℕ) (hdr : Bytes) (s : Scan)
    → Advances (length f) pos (node_round mem f be pos hdr s)
unfolding node_round
node_round-Advances mem f be pos hdr s =
    let totlen = decode_u32 (drop 4 hdr) be in
    elim (Bool-cases (ltb totlen common_header_size || ltb (length f) (pos + totlen))) [
      | inl bad ↦ rw (bad, node_round) tt
      | inr fits ↦
          rw (fits, node_round)
            (after_node-Advances (length f) pos totlen _ (ground (arith, fits))
              (ground (arith, fits)))
    ]

decode_u16-take :
    (s : Bytes) (n : ℕ) (be : Bool) → decode_u16 (take (suc (suc n)) s) be ≡ decode_u16 s be
unfolding decode_u16
decode_u16-take [] n be = refl
decode_u16-take (a ∷ []) n be = refl
decode_u16-take (a ∷ b ∷ s) n be = refl

gap_round-Advances :
    (f : Bytes) (be : Bool) (pos : ℕ) (s : Scan)
    → pos ≤ length f
    → (decode_u16 (drop pos f) be == magic) ≡ false
    → Advances (length f) pos (gap_round (find_next_node f be pos) s)
unfolding gap_round
gap_round-Advances f be pos s h miss =
    rw (find_next_node-scan_chunk f be pos h)
      (elim (Option-cases (scan_chunk be (drop pos f) pos)) [
        | inl end ↦ rw (end, gap_round) tt
        | inr (p, found) ↦
            let (a, b) = scan_chunk_within be (drop pos f) pos p found in
            rw (found, gap_round)
              (
                elim (scan_chunk_after be (drop pos f) pos p found) [
                  | inl hit ↦ absurd (cc (hit, miss))
                  | inr le ↦ le
                ],
                omega (arith, b, length-drop pos f),
              )
      ])

scan_round-Advances :
    (mem : Memory) (f : Bytes) (be : Bool) (pos : ℕ) (s : Scan)
    → Advances (length f) pos (scan_round mem f be pos s)
unfolding scan_round
scan_round-Advances mem f be pos s = elim (Bool-cases (ltb (length f) (pos + common_header_size))) [
  | inl over ↦ rw (over, scan_round) tt
  | inr more ↦ elim (Option-cases (read_at f pos common_header_size)) [
    | inl bad ↦ rw (more, scan_round, bad) tt
    | inr (hdr, good) ↦ elim (Bool-cases (decode_u16 hdr be == magic)) [
      | inl hit ↦ rw (more, scan_round, good, hit) (node_round-Advances mem f be pos hdr s)
      | inr miss ↦
          let same : decode_u16 hdr be ≡ decode_u16 (drop pos f) be =
            ap (λ t. decode_u16 t be) (read_at_lem f pos common_header_size hdr good)
            ∙ decode_u16-take (drop pos f) 10 be in
          rw (more, scan_round, good, miss)
            (gap_round-Advances f be pos s (ground (arith, more)) (rw same at miss))
    ]
  ]
]

-- A loop ends from every later position.
abbrev EndsFrom : (ℕ → Scan → Option (Option Scan)) → ℕ → ℕ → Type 0
EndsFrom loop size pos =
    (pos' : ℕ) (s : Scan)
    → pos + 4 ≤ pos'
    → pos' ≤ size + 3
    → (r : Option Scan) × (loop pos' s ≡ some r)

scan_loop-round :
    (fuel : ℕ) (mem : Memory) (f : Bytes) (be : Bool) (pos : ℕ) (s : Scan) (r : Round)
    → scan_round mem f be pos s ≡ r
    → Advances (length f) pos r
    → EndsFrom (scan_loop fuel mem f be) (length f) pos
    → (o : Option Scan) × (scan_loop (suc fuel) mem f be pos s ≡ some o)
unfolding scan_loop
scan_loop-round fuel mem f be pos s stop e h later = (some s, rw (e, scan_loop) refl)
scan_loop-round fuel mem f be pos s fail e h later = (none, rw (e, scan_loop) refl)
scan_loop-round fuel mem f be pos s stuck e h later = elim h [ ]
scan_loop-round fuel mem f be pos s (at pos' s') e (p, q) later =
    let (o, ran) = later pos' s' p q in (o, rw (e, scan_loop) ran)

scan_loop-total :
    (fuel : ℕ) (mem : Memory) (f : Bytes) (be : Bool) (pos : ℕ) (s : Scan)
    → pos ≤ length f + 3
    → length f + 3 < pos + 4 * fuel
    → (r : Option Scan) × (scan_loop fuel mem f be pos s ≡ some r)
scan_loop-total zero mem f be pos s a b = absurd (omega arith)
scan_loop-total (suc fuel) mem f be pos s a b =
    scan_loop-round fuel mem f be pos s _ refl (scan_round-Advances mem f be pos s)
      (λ pos' s' p q. scan_loop-total fuel mem f be pos' s' q (omega arith))

-- The scan of a log ends for every image, whatever its bytes are: every round goes on by four bytes at
-- least, so that it never runs out of fuel.
pub scan_log-total :
    (mem : Memory) (f : Bytes) (be : Bool) → (r : Option Scan) × (scan_log mem f be ≡ some r)
unfolding scan_log
scan_log-total mem f be =
    scan_loop-total (suc (length f)) mem f be 0 no_nodes (omega arith) (omega arith)
