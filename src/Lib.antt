-- ===== src/Lib.antt =====
-- A verification library for erofs-utils, the user-space tools of the EROFS read-only file system.
--
-- mkfs.erofs builds an image and fsck.erofs, dump.erofs, erofsfuse and the extractor read one; all of
-- them stand on liberofs (lib/, include/erofs/). The library models liberofs.
--
-- Base: shared names, Boolean tests, lists (Base.Lists), masks (Base.Bits), memory as a function from
--   offsets with the C string functions on it (Base.Memory), wrapping words (Base.Words), error
--   numbers (Base.Errno).
-- Geometry: the superblock's fields and the macros for block numbers, offsets and rounding of
--   include/erofs/internal.h and include/erofs/defs.h.
-- Device: reads of the image and of extra devices, lib/io.c (erofs_dev_read, erofs_blk_read). An open
--   file is a record of its size, its bytes and the reads that fail.
-- Io: lib/io.c, the loops over pread and pwrite (erofs_io_pread, erofs_io_pwrite) for any sequence of
--   answers of the system calls: a call moves what it is asked for, or less. A loop that finds no answer
--   left gives none.
-- Inode: struct erofs_inode and its data layouts. Inode.Disk: the two forms of an inode on disk, as
--   lib/namei.c reads them (erofs_read_inode_from_disk) and lib/inode.c writes them (erofs_iflush).
-- Data: lib/data.c, from file offsets to places on a device (erofs_map_blocks, erofs_map_dev) and the
--   read loop. The loop runs on fuel, `size + 1` rounds, since each round takes a byte at least.
-- Dir: one block of a directory, as lib/inode.c writes it (fill_dirblock) and lib/namei.c searches it
--   (find_target_dirent).
-- Dir.Pack: lib/inode.c, the size of a directory (erofs_prepare_dir_file) and the blocks that its
--   dentries go to (erofs_write_dir_file).
-- Readdir: lib/dir.c, the traversal of a block with a callback (traverse_dirents). A loop over dirents
--   counts the dirents that are left, so it needs no fuel.
-- Iterate: lib/dir.c, the traversal of a whole directory (erofs_iterate_dir), on fuel of one round more
--   than the directory has bytes.
-- Namei: lib/namei.c, a name in the blocks of a directory (erofs_namei, on fuel of one round more than
--   the directory has bytes) and a path from the root (erofs_ilookup, on fuel of one round more than
--   the path has bytes). Data.pread takes z_erofs_read_data, the compressed reader, as an argument.
-- Dedupe: lib/dedupe.c, the table of what was compressed before. Dedupe.Rolling is lib/rolling_hash.h,
--   Dedupe.Memcmp is erofs_memcmp2 with its loops over words. SHA-256, xxh64 and malloc are parameters.
--   The search counts its places, so it needs no fuel; Dedupe.Kept has the states that the calls of the
--   other functions lead to.
-- Zmap: lib/zmap.c, from an offset of a compressed file to its extent: the indexes in the full form
--   (Zmap) and the compacted form (Zmap.Compact), the searches (Zmap.Extent), the header and
--   z_erofs_map_blocks_iter (Zmap.Iter). A search back from cluster `lcn` runs on fuel of `lcn + 2`
--   rounds, the search for the end of an extent on fuel that is an argument.
-- Compress: lib/compress.c, the indexes as mkfs writes them in the full form. Zmap.Page to Zmap.Mapping
--   read them back with lib/zmap.c.
-- Decompress: lib/decompress.c, the copies of raw data in z_erofs_decompress; what it does with the
--   compression libraries is a parameter. Compress has the block that such data is written to.
-- Cache: lib/cache.c, the buffer manager, as a state with the blocks that have a place and those that
--   wait for one. Cache.Alloc chooses a block for a buffer, Cache.Place places, flushes and drops;
--   Cache.Layout has the invariant, Cache.Reached the states that sequences of calls lead to. malloc,
--   the writers of buffers and erofs_dev_fillzero are parameters.
-- Tests: concrete runs, and the theorems at concrete inputs.
--
-- Numbers are natural numbers, and unsigned arithmetic wraps where C's does: at 2 ^ 32 for unsigned int
-- and u32, at 2 ^ 64 for u64. Structures on disk are little-endian. A buffer that is read from disk
-- keeps stale bytes where nothing was read. Messages that are only printed are left out.
--
-- The components meet in the directory: Dir.Pack splits dentries into blocks, Dir lays a block out, Data
-- reads the file behind a flat inode that Inode.Disk has read, and Namei and Iterate search and traverse
-- the blocks read. They meet in the table of indexes, too, which Compress writes and Zmap searches.
--
-- Not modelled: the compressors, SHA-256 and xxHash are other projects' code; the calls of
-- the decompressors (lib/decompress.c), the choice of extents and the compacted indexes in lib/compress.c, extended
-- attributes, the superblock, tar streams, blobs and fragments stand beside
-- what is here; the command-line tools and the extractor are front ends.
pub mod Base
pub mod Geometry
pub mod Device
pub mod Inode
pub mod Cache
pub mod Data
pub mod Dir
pub mod Readdir
pub mod Dedupe
pub mod Namei
pub mod Iterate
pub mod Io
pub mod Zmap
pub mod Compress
pub mod Decompress
mod Tests
