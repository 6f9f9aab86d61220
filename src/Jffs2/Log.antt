-- ===== src/Jffs2/Log.antt =====
-- src/extract/jffs2.c: the scan of the log.
use crimp.Common.{
  Bool, Bytes, Option, drop, if◌then◌else◌, length, ltb, none, some, suc, zero, ℕ, ◌*◌, ◌+◌, ◌/◌,
  ◌==◌, ◌||◌,
}
use crimp.ArrayList.{empty}
use crimp.FsUtil.{decode_u16, decode_u32}
use crimp.Image.{read_at}
use crimp.Jffs2.{
  magic, nodetype_dirent, nodetype_inode, common_header_size, Memory, Scan, with_dirents,
  with_inodes, parse_dirent_node, parse_inode_node, find_next_node,
}

-- The two tests on the node type.
unfoldable pub parse_node : Memory → Bytes → Bool → ℕ → ℕ → ℕ → Scan → Option Scan
parse_node mem f be pos nodetype totlen s =
    if nodetype == nodetype_dirent
    then with_dirents s (parse_dirent_node mem f be pos totlen s.dirents)
    else if nodetype == nodetype_inode
    then with_inodes s (parse_inode_node mem f be pos totlen s.inodes)
    else some s

-- `(next + 3) & ~3`
abbrev pub align4 : ℕ → ℕ
align4 next = (next + 3) / 4 * 4

-- How a round of `scan_log` ends: the loop ends, fails, or goes on at another position.
pub data Round : Type 0 where
  stop fail stuck : Round
  at : ℕ → Scan → Round

abbrev pub after_node : ℕ → Option Scan → Round
after_node pos none = fail
after_node pos (some s) = at pos s

-- The rest of a round at a node with its common header.
unfoldable pub node_round : Memory → Bytes → Bool → ℕ → Bytes → Scan → Round
node_round mem f be pos hdr s =
    let nodetype = decode_u16 (drop 2 hdr) be in
    let totlen = decode_u32 (drop 4 hdr) be in
    if ltb totlen common_header_size || ltb (length f) (pos + totlen)
    then fail
    else after_node (align4 (pos + totlen)) (parse_node mem f be pos nodetype totlen s)

-- The rest of a round at filler bytes.
unfoldable pub gap_round : Option (Option ℕ) → Scan → Round
gap_round none s = stuck
gap_round (some none) s = stop
gap_round (some (some next_pos)) s = at next_pos s

-- One round of the loop of `scan_log`.
unfoldable pub scan_round : Memory → Bytes → Bool → ℕ → Scan → Round
scan_round mem f be pos s =
    if ltb (length f) (pos + common_header_size)
    then stop
    else elim (read_at f pos common_header_size) [
      | none ↦ fail
      | some hdr ↦
          if decode_u16 hdr be == magic
          then node_round mem f be pos hdr s
          else gap_round (find_next_node f be pos) s
    ]

-- The loop; `none` means that the fuel ran out, and `some none` is -1.
unfoldable pub scan_loop : ℕ → Memory → Bytes → Bool → ℕ → Scan → Option (Option Scan)
scan_loop zero mem f be pos s = none
scan_loop (suc fuel) mem f be pos s = elim (scan_round mem f be pos s) [
  | stop ↦ some (some s)
  | fail ↦ some none
  | stuck ↦ none
  | at pos' s' ↦ scan_loop fuel mem f be pos' s'
]

abbrev pub no_nodes : Scan
no_nodes = record { dirents = empty; inodes = empty }

unfoldable pub scan_log : Memory → Bytes → Bool → Option (Option Scan)
scan_log mem f be = scan_loop (suc (length f)) mem f be 0 no_nodes
