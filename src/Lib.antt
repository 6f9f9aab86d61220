-- ===== src/Lib.antt =====
-- crimp: a scanner of firmware images. An image is identified and extracted (src/extract), and the
-- extracted tree is scanned: detectors look for patterns (src/detectors, src/core/pattern_scan.c),
-- user-defined rules add more of them (src/core/yaml_rules.c), components and their versions are
-- identified (src/core/component_identify.c) and matched against a CVE dataset
-- (src/core/cve_match.c), and the inventory is written as an SBOM (src/core/sbom.c). src/core/scan.c
-- composes the scan and src/cli/main.c calls it.
--
-- The files, each with the code that it models and, below it, the modules that prove things of it:
--   Version, Range: `version_compare` and `version_satisfies` of src/core/cve_match.c. Version/Pieces
--     is their specification by pieces, Version/Segments, Refine, Order and Blank are about it, and
--     Range/Conditions is about the condition list.
--   CveMatch: the rest of src/core/cve_match.c, over Yaml.
--   ArrayList, Detector, Inventory: the growing arrays of src/core/finding.c and
--     src/core/inventory.c, with the types of include/crimp/detector.h and include/crimp/inventory.h.
--   Binstring: `crimp_memfind` of src/core/binstring.c.
--   FileSystem, Walk: src/core/fileutil.c and src/core/walk.c. Walk/Files turns a walk into a list of
--     files, Walk/Reach says which files lie below a directory and when a walk ends, Walk/Exact
--     compares the two, and Walk/Whole is about trees whose paths are not cut off.
--   Components: src/core/component_identify.c, with Components/Marker, Dropbear and Report.
--   PatternScan, Detectors, Registry: src/core/pattern_scan.c, src/detectors and src/core/registry.c.
--   Yaml, Rules: src/core/yaml_util.c and src/core/yaml_rules.c. Rules/Load and Directory are about
--     loads while memory can be had, and Rules/Merge about loads when it runs out.
--   Scan: src/core/scan.c. Sbom: src/core/sbom.c. Cli: the argument loop of src/cli/main.c.
--   FsUtil, Disk: src/extract/fs_util.c; Disk has the calls that write, Disk/Paths the paths that a
--     history of them names, and Disk/Writes how much it writes.
--   Image, Entries: what src/extract/cramfs.c, jffs2.c and squashfs.c do alike; Entries/Confined is about
--     the paths of their entries.
--   Cramfs: src/extract/cramfs.c; Cramfs/Tree has the directories, Cramfs/Files and Confined are about
--     where an extraction writes, Cramfs/Sizes is about how much, and Cramfs/Layout is about the fields
--     of an inode.
--   Jffs2: src/extract/jffs2.c, its nodes; Jffs2/Log has `scan_log`, Jffs2/Lookup the comparators, the
--     binary searches and `for_each_live_child`, Jffs2/Files the files, and Jffs2/Tree the walk. About
--     the scan are Jffs2/Gap and Ends; about the sorted arrays Jffs2/Bounds, Names, Runs, Winner and
--     Live; about the files Jffs2/Fetch, Contents and Sizes; and about the paths Jffs2/Confined.
--   Squashfs: src/extract/squashfs.c, its superblock and its metadata cursor; Squashfs/Inodes,
--     Squashfs/Files and Squashfs/Tree have the inodes, the files and the walk. Squashfs/Cursors and
--     Streams are about the cursor, Squashfs/Sizes and Blocks about how much is written, and Squashfs/Writes and
--     Confined about where.
--   Identify: src/extract/identify.c. Identify/Dispatch is about the attempts of the three extractors,
--     Identify/Replace and Beside about the directory that is replaced, and Identify/Formats about the three formats.
--   Common: what all of them share. Tests: runs on concrete inputs.
--
-- How the state of the program appears. A C string is the list of its bytes in front of its NUL, and
-- a pointer into it the list of the bytes from there on; a list with its count and capacity is an
-- `ArrayList`; a pointer that may be NULL and a return value of -1 with an output are an `Option`; a
-- function that keeps what it did although it fails returns its state with a Boolean. The file
-- system that a scan reads is a record of functions, and does not change during a scan. The calls
-- through which an extraction writes are kept as a history, and the answers of the system are a
-- function of it. A stream is the list of the bytes written to it.
--
-- Parameters: libyaml's parser (a function from bytes to a document of nodes), zlib's `uncompress`,
-- liblzma's decoder, the C library's `qsort` (a function from a comparator and a list to a list),
-- the answers of the operating system, that of `rename` included, and whether an allocation succeeds, where the code tests it.
--
-- Fuel: `version_compare` and `version_satisfies` take one more than the bytes of their texts and
-- the search for a marker one more than the bytes of the buffer, since every round drops a byte. A
-- cramfs directory takes one more than its size, since every entry takes at least 12 bytes of it.
-- The scan of a JFFS2 log takes one more than the bytes of the image, since every round goes on by
-- at least four of them, and so does the search for the next node; a lower bound and the runs of a
-- directory take the length of the array. `cursor_read` of a SquashFS image takes one more than the
-- bytes that it has to give and those of the image behind its cursor, and a directory one more than
-- its size. The extractors bound the depth of their walks themselves. A walk of directories takes
-- fuel as an argument, since links can make a tree endless for `stat`; every level of the tree
-- takes one unit.
--
-- Not modelled: the inside of `remove_tree` of src/extract/identify.c, which is one step here; the
-- printing and the report file of src/cli/main.c, which are output; the `free` functions, after
-- which nothing is read; files of 2^63 bytes or more; and machines whose numbers begin with their
-- highest byte, on which src/extract/squashfs.c would read its structures the wrong way round. The
-- scripts and spikes are not part of the program.
pub mod Common
pub mod Version
pub mod Range
pub mod ArrayList
pub mod Detector
pub mod Inventory
pub mod Binstring
pub mod FileSystem
pub mod Walk
pub mod Components
pub mod PatternScan
pub mod Registry
pub mod Detectors
pub mod Yaml
pub mod Rules
pub mod CveMatch
pub mod Scan
pub mod FsUtil
pub mod Disk
pub mod Image
pub mod Entries
pub mod Cramfs
pub mod Jffs2
pub mod Squashfs
pub mod Identify
pub mod Cli
pub mod Sbom
mod Tests
