-- ===== src/Inode/Disk/Flush.antt =====
-- An inode that erofs_iflush wrote is read back by erofs_read_inode_from_disk.
use erofs_utils.Base.{
  length, ℕ, ◌+◌, ◌*◌, ◌%◌, ◌^◌, ◌≤◌, ◌<◌, ◌≡◌, ◌⊎◌, inl, inr, sym, ap, false, List, [], ◌∷◌, arith,
}
use erofs_utils.Base.Memory.{Buf, le, le_bytes, At, fields_bytes, Fit, Reads-fields_bytes}
use erofs_utils.Geometry.{SbInfo}
use erofs_utils.Inode.{Inode, chunk_based, is_data_compressed}
use erofs_utils.Inode.Disk.{
  file_type, s_ifreg, s_ifdir, s_iflnk, xattr_ibody_size, xattr_icount_of, Fields, compact_fields,
  extended_fields, union_bytes, compact_bytes, extended_bytes,
}

-- A regular file, a directory or a symbolic link, not by chunks, whose fields fit the form of
-- `inode_isize` bytes; the compact form leaves the times to the superblock.
pub record IsFlushable (sbi : SbInfo) (inode : Inode) : Type 0 where
  pub layout : inode.datalayout < chunk_based
  pub kind :
      (file_type inode.i_mode ≡ s_ifreg)
      ⊎ (file_type inode.i_mode ≡ s_ifdir)
      ⊎ (file_type inode.i_mode ≡ s_iflnk)
  pub mode : inode.i_mode < 2 ^ 16
  pub nlink : inode.i_nlink < 2 ^ 32
  pub size : inode.i_size < 2 ^ 64
  pub union : inode.u < 2 ^ 32
  pub ino : inode.i_ino < 2 ^ 32
  pub uid : inode.i_uid < 2 ^ 32
  pub gid : inode.i_gid < 2 ^ 32
  pub mtime : inode.i_mtime < 2 ^ 64
  pub mtime_nsec : inode.i_mtime_nsec < 2 ^ 32
  pub xattrs :
      (inode.xattr_isize ≡ 0)
      ⊎ ((12 ≤ inode.xattr_isize)
          × (inode.xattr_isize % 4 ≡ 0)
          × (inode.xattr_isize < 2 ^ 18)
          × (0 < inode.xattr_isize % 2 ^ 16))
  pub form :
      (inode.inode_isize ≡ 64)
      ⊎ ((inode.inode_isize ≡ 32)
          × (inode.i_nlink < 2 ^ 16)
          × (inode.i_size < 2 ^ 32)
          × (inode.i_uid < 2 ^ 16)
          × (inode.i_gid < 2 ^ 16)
          × (inode.i_mtime ≡ sbi.build_time)
          × (inode.i_mtime_nsec ≡ sbi.build_time_nsec))

-- What the reader is to take over into `vi`.
unfoldable pub taken_over : Inode → Inode → Inode
taken_over vi inode = record vi {
  datalayout = inode.datalayout;
  inode_isize = inode.inode_isize;
  xattr_isize = inode.xattr_isize;
  i_mode = inode.i_mode;
  i_ino = inode.i_ino;
  u = inode.u;
  i_uid = inode.i_uid;
  i_gid = inode.i_gid;
  i_nlink = inode.i_nlink;
  i_mtime = inode.i_mtime;
  i_mtime_nsec = inode.i_mtime_nsec;
  i_size = inode.i_size;
  z_inited = false;
}

unfoldable pub fields_of : Inode → Fields
fields_of inode = record {
  isize = inode.inode_isize;
  xattr_icount = xattr_icount_of inode.xattr_isize;
  mode = inode.i_mode;
  size = inode.i_size;
  i_u = inode.u;
  ino = inode.i_ino;
  uid = inode.i_uid;
  gid = inode.i_gid;
  mtime = inode.i_mtime;
  mtime_nsec = inode.i_mtime_nsec;
  nlink = inode.i_nlink;
}

-- The header of inline xattrs is 12 bytes, so the count tells the size.
pub xattr_ibody_size-xattr_icount_of :
    (n : ℕ)
    → (n ≡ 0) ⊎ ((12 ≤ n) × (n % 4 ≡ 0) × (n < 2 ^ 18) × (0 < n % 2 ^ 16))
    → xattr_ibody_size (xattr_icount_of n) ≡ n
unfolding xattr_ibody_size xattr_icount_of
xattr_ibody_size-xattr_icount_of n h = ground (arith, h)

union_bytes-plain :
    (inode : Inode) → inode.datalayout < chunk_based → union_bytes inode ≡ le_bytes 4 inode.u
unfolding union_bytes is_data_compressed
union_bytes-plain inode h = ground (arith, h)

unfoldable compact_layout : Inode → List (ℕ × ℕ)
compact_layout inode =
    (2, inode.datalayout * 2)
    ∷ (2, xattr_icount_of inode.xattr_isize)
    ∷ (2, inode.i_mode)
    ∷ (2, inode.i_nlink)
    ∷ (4, inode.i_size)
    ∷ (4, 0)
    ∷ (4, inode.u)
    ∷ (4, inode.i_ino)
    ∷ (2, inode.i_uid)
    ∷ (2, inode.i_gid)
    ∷ (4, 0)
    ∷ []

compact_bytes-layout :
    (inode : Inode)
    → inode.datalayout < chunk_based
    → compact_bytes inode ≡ fields_bytes (compact_layout inode)
unfolding compact_bytes compact_layout
compact_bytes-layout inode h = rw (union_bytes-plain inode h)

xattr_icount_of-fits : (n : ℕ) → xattr_icount_of n < 2 ^ 16
unfolding xattr_icount_of
xattr_icount_of-fits n = omega arith

compact_layout-Fit :
    (sbi : SbInfo) (inode : Inode)
    → IsFlushable sbi inode
    → inode.inode_isize ≡ 32
    → Fit (compact_layout inode)
unfolding compact_layout
compact_layout-Fit sbi inode c e =
    let small : (inode.i_nlink < 2 ^ 16)
        × (inode.i_size < 2 ^ 32)
        × (inode.i_uid < 2 ^ 16)
        × (inode.i_gid < 2 ^ 16) =
      elim c.form [
        | inl e' ↦ absurd (omega (arith, e, e'))
        | inr (_, n, s, u, g, _, _) ↦ (n, s, u, g)
      ] in
    (
      omega (arith, c.layout),
      (
        xattr_icount_of-fits inode.xattr_isize,
        (
          c.mode,
          (
            small.0,
            (small.1, (omega arith, (c.union, (c.ino, (small.2, (small.3, (omega arith, tt))))))),
          ),
        ),
      ),
    )

compact_times :
    (sbi : SbInfo) (inode : Inode)
    → IsFlushable sbi inode
    → inode.inode_isize ≡ 32
    → (inode.i_mtime ≡ sbi.build_time) × (inode.i_mtime_nsec ≡ sbi.build_time_nsec)
compact_times sbi inode c e = elim c.form [
  | inl e' ↦ absurd (omega (arith, e, e'))
  | inr (_, n, s, u, g, t, ns) ↦ (t, ns)
]

pub compact_fields-bytes :
    (sbi : SbInfo) (b : Buf) (inode : Inode)
    → IsFlushable sbi inode
    → inode.inode_isize ≡ 32
    → At b 0 (compact_bytes inode)
    → (le 2 b 0 ≡ inode.datalayout * 2) × (compact_fields sbi b ≡ fields_of inode)
unfolding compact_fields compact_layout fields_of
compact_fields-bytes sbi b inode c e a =
    let (format, (ic, (mode, (nlink, (size, (_, (u, (ino, (uid, (gid, _)))))))))) =
      Reads-fields_bytes b 0 (compact_layout inode) (compact_layout-Fit sbi inode c e)
        (rw (compact_bytes-layout inode c.layout) at a) in
    let (time, nsec) = compact_times sbi inode c e in
    (
      format,
      λ i. record {
        isize = sym e i;
        xattr_icount = ic i;
        mode = mode i;
        size = size i;
        i_u = u i;
        ino = ino i;
        uid = uid i;
        gid = gid i;
        mtime = sym time i;
        mtime_nsec = sym nsec i;
        nlink = nlink i;
      },
    )

unfoldable extended_layout : Inode → List (ℕ × ℕ)
extended_layout inode =
    (2, 1 + inode.datalayout * 2)
    ∷ (2, xattr_icount_of inode.xattr_isize)
    ∷ (2, inode.i_mode)
    ∷ (2, 0)
    ∷ (8, inode.i_size)
    ∷ (4, inode.u)
    ∷ (4, inode.i_ino)
    ∷ (4, inode.i_uid)
    ∷ (4, inode.i_gid)
    ∷ (8, inode.i_mtime)
    ∷ (4, inode.i_mtime_nsec)
    ∷ (4, inode.i_nlink)
    ∷ (16, 0)
    ∷ []

extended_bytes-layout :
    (inode : Inode)
    → inode.datalayout < chunk_based
    → extended_bytes inode ≡ fields_bytes (extended_layout inode)
unfolding extended_bytes extended_layout
extended_bytes-layout inode h = rw (union_bytes-plain inode h)

pub extended_fields-bytes :
    (sbi : SbInfo) (b : Buf) (inode : Inode)
    → IsFlushable sbi inode
    → inode.inode_isize ≡ 64
    → At b 0 (extended_bytes inode)
    → (le 2 b 0 ≡ 1 + inode.datalayout * 2) × (extended_fields b ≡ fields_of inode)
unfolding extended_fields extended_layout fields_of
extended_fields-bytes sbi b inode c e a =
    let fit : Fit (extended_layout inode) = (
      omega (arith, c.layout),
      (
        xattr_icount_of-fits inode.xattr_isize,
        (
          c.mode,
          (
            omega arith,
            (
              c.size,
              (
                c.union,
                (c.ino, (c.uid, (c.gid, (c.mtime, (c.mtime_nsec, (c.nlink, (omega arith, tt))))))),
              ),
            ),
          ),
        ),
      ),
    ) in
    let (format, (ic, (mode, (_, (size, (u, (ino, (uid, (gid, (time, (nsec, (nlink, _)))))))))))) =
      Reads-fields_bytes b 0 (extended_layout inode) fit
        (rw (extended_bytes-layout inode c.layout) at a) in
    (
      format,
      λ i. record {
        isize = sym e i;
        xattr_icount = ic i;
        mode = mode i;
        size = size i;
        i_u = u i;
        ino = ino i;
        uid = uid i;
        gid = gid i;
        mtime = time i;
        mtime_nsec = nsec i;
        nlink = nlink i;
      },
    )

pub length-compact_bytes :
    (inode : Inode) → inode.datalayout < chunk_based → length (compact_bytes inode) ≡ 32
unfolding compact_layout
length-compact_bytes inode h = ap length (compact_bytes-layout inode h)

pub length-extended_bytes :
    (inode : Inode) → inode.datalayout < chunk_based → length (extended_bytes inode) ≡ 64
unfolding extended_layout
length-extended_bytes inode h = ap length (extended_bytes-layout inode h)
