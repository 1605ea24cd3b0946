-- ===== src/Tests/Packing.antt =====
-- A directory packed into a tail.
use erofs_utils.Base.{◌≡◌, List, [], ◌∷◌, arith}
use erofs_utils.Dir.{Dentry}
use erofs_utils.Dir.Pack.{dir_size, write_dir_file, pack_loop, pack_rest}
use erofs_utils.Dir.Pack.Blocks.{packed_size, dir_size-write_dir_file}
use erofs_utils.Dir.Pack.Split.{IsPacked, packed_dentries, write_dir_file-IsPacked}
use erofs_utils.Tests.Image.{sbi}

abbrev dentries : List Dentry
dentries =
    record { nid = 36; name = b'.' ∷ []; ftype = 2 }
    ∷ record { nid = 40; name = b'.' ∷ b'.' ∷ []; ftype = 2 }
    ∷ record { nid = 51; name = b'a' ∷ b'b' ∷ []; ftype = 1 }
    ∷ []

dir_size-write_dir_file_example :
    dir_size sbi 0 dentries ≡ packed_size sbi (write_dir_file sbi dentries)
unfolding packed_size write_dir_file pack_loop pack_rest
dir_size-write_dir_file_example =
    dir_size-write_dir_file sbi dentries (omega arith) (omega arith) (omega arith)

write_dir_file-IsPacked_example :
    IsPacked sbi (write_dir_file sbi dentries)
    × (packed_dentries (write_dir_file sbi dentries) ≡ dentries)
write_dir_file-IsPacked_example =
    write_dir_file-IsPacked sbi dentries (omega arith) (omega arith) (omega arith)
