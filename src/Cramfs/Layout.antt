-- ===== src/Cramfs/Layout.antt =====
-- The fields of an inode in its three words, and the superblock of an image.
use crimp.Common.{Bool, Bytes, arith, false, true, ℕ, ◌%◌, ◌*◌, ◌++◌, ◌+◌, ◌/◌, ◌<◌, ◌^◌, ◌∙◌, ◌≡◌}
use crimp.Cramfs.{Inode, decode_inode}
use crimp.FsUtil.Decode.{encode_u32, decode_u32-encode_u32}

-- The widths of the fields on the disk; `namelen` and `offset` are counted in words there.
pub record IsInode (i : Inode) : Type 0 where
  pub mode : i.mode < 2 ^ 16
  pub uid : i.uid < 2 ^ 16
  pub size : i.size < 2 ^ 24
  pub gid : i.gid < 2 ^ 8
  pub namelen : i.namelen / 4 < 2 ^ 6
  pub namelen_words : i.namelen % 4 ≡ 0
  pub offset : i.offset / 4 < 2 ^ 26
  pub offset_words : i.offset % 4 ≡ 0

abbrev pub encode_inode : Inode → Bool → Bytes
encode_inode i big_endian =
    encode_u32 (i.uid * 2 ^ 16 + i.mode) big_endian
    ++ encode_u32 (i.gid * 2 ^ 24 + i.size) big_endian
    ++ encode_u32 (i.offset / 4 * 2 ^ 6 + i.namelen / 4) big_endian

abbrev words_inode : ℕ → ℕ → ℕ → Inode
words_inode w0 w1 w2 = record {
  mode = w0 % 2 ^ 16;
  uid = w0 / 2 ^ 16 % 2 ^ 16;
  size = w1 % 2 ^ 24;
  gid = w1 / 2 ^ 24 % 2 ^ 8;
  namelen = w2 % 2 ^ 6 * 4;
  offset = w2 / 2 ^ 6 % 2 ^ 26 * 4;
}

words_inode-eq :
    (v0 v1 v2 w0 w1 w2 : ℕ)
    → v0 ≡ w0
    → v1 ≡ w1
    → v2 ≡ w2
    → words_inode v0 v1 v2 ≡ words_inode w0 w1 w2
words_inode-eq v0 v1 v2 w0 w1 w2 a b c = cc

decode_words :
    (w0 w1 w2 : ℕ) (be : Bool) (rest : Bytes)
    → w0 < 2 ^ 32
    → w1 < 2 ^ 32
    → w2 < 2 ^ 32
    → decode_inode (encode_u32 w0 be ++ encode_u32 w1 be ++ encode_u32 w2 be ++ rest) be
      ≡ words_inode w0 w1 w2
unfolding decode_inode
decode_words w0 w1 w2 true rest h0 h1 h2 =
    words_inode-eq _ _ _ _ _ _ (decode_u32-encode_u32 w0 true _ h0)
      (decode_u32-encode_u32 w1 true _ h1) (decode_u32-encode_u32 w2 true rest h2)
decode_words w0 w1 w2 false rest h0 h1 h2 =
    words_inode-eq _ _ _ _ _ _ (decode_u32-encode_u32 w0 false _ h0)
      (decode_u32-encode_u32 w1 false _ h1) (decode_u32-encode_u32 w2 false rest h2)

inode_words :
    (i : Inode)
    → IsInode i
    → words_inode
        (i.uid * 2 ^ 16 + i.mode)
        (i.gid * 2 ^ 24 + i.size)
        (i.offset / 4 * 2 ^ 6 + i.namelen / 4)
      ≡ i
inode_words i h = ground arith

-- Every inode whose fields fit their places on the disk is read back from its twelve bytes, in either
-- byte order and whatever follows.
pub decode_inode-encode_inode :
    (i : Inode) (big_endian : Bool) (rest : Bytes)
    → IsInode i
    → decode_inode (encode_inode i big_endian ++ rest) big_endian ≡ i
decode_inode-encode_inode i true rest h =
    decode_words _ _ _ true rest (omega arith) (omega arith) (omega arith) ∙ inode_words i h
decode_inode-encode_inode i false rest h =
    decode_words _ _ _ false rest (omega arith) (omega arith) (omega arith) ∙ inode_words i h
