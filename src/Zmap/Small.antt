-- ===== src/Zmap/Small.antt =====
-- lib/zmap.c: the bounds of what an index leaves in the recorder.
use erofs_utils.Base.{ℕ, ◌^◌, ◌<◌, ◌≡◌, Bool, none, arith}
use erofs_utils.Geometry.{SbInfo}
use erofs_utils.Device.{Devices}
use erofs_utils.Inode.{Inode}
use erofs_utils.Zmap.{
  MapRecorder, reload_indexes, full_nonhead, full_head, legacy_load_cluster, legacy_index,
}
use erofs_utils.Zmap.Compact.{
  compacted_nonhead, compacted_head, unpack_compacted_index, compacted_load_cluster, load_cluster,
}
use erofs_utils.Zmap.Ends.{load_cluster_lcn}

full_nonhead_delta :
    (vi : Inode) (m : MapRecorder) (d0 d1 : ℕ)
    → m.delta.1 < 2 ^ 16
    → (full_nonhead vi m d0 d1).1.delta.1 < 2 ^ 16
unfolding full_nonhead
full_nonhead_delta vi m d0 d1 h = ground arith

compacted_nonhead_delta :
    (vi : Inode) (m : MapRecorder) (vcnt lobits encodebits base i : ℕ) (lookahead : Bool) (lo : ℕ)
    → m.delta.1 < 2 ^ 16
    → (compacted_nonhead vi m vcnt lobits encodebits base i lookahead lo).1.delta.1 < 2 ^ 16
unfolding compacted_nonhead
compacted_nonhead_delta vi m vcnt lobits encodebits base i lookahead lo h = ground arith

compacted_head_delta :
    (vi : Inode) (m : MapRecorder) (packsize lobits encodebits base i lo : ℕ)
    → m.delta.1 < 2 ^ 16
    → (compacted_head vi m packsize lobits encodebits base i lo).1.delta.1 < 2 ^ 16
unfolding compacted_head
compacted_head_delta vi m packsize lobits encodebits base i lo h = ground arith

-- What a search leaves that did not fail: a cluster number of 32 bits and a distance of 16.
abbrev pub Small : MapRecorder → Type 0
Small m = (m.lcn < 2 ^ 32) × (m.delta.1 < 2 ^ 16)

module _ (sbi : SbInfo) (devices : Devices) where
  reload_indexes_delta :
      (m : MapRecorder) (eblk : ℕ)
      → m.delta.1 < 2 ^ 16
      → (reload_indexes sbi devices m eblk).1.delta.1 < 2 ^ 16
  unfolding reload_indexes
  reload_indexes_delta m eblk h = ground arith

  legacy_load_cluster_delta :
      (vi : Inode) (m : MapRecorder) (lcn : ℕ)
      → m.delta.1 < 2 ^ 16
      → (legacy_load_cluster sbi devices vi m lcn).1.delta.1 < 2 ^ 16
  unfolding legacy_load_cluster legacy_index full_head
  legacy_load_cluster_delta vi m lcn h = grind (arith, full_nonhead_delta, reload_indexes_delta)

  unpack_compacted_index_delta :
      (vi : Inode) (m : MapRecorder) (shift pos : ℕ) (lookahead : Bool)
      → m.delta.1 < 2 ^ 16
      → (unpack_compacted_index sbi devices vi m shift pos lookahead).1.delta.1 < 2 ^ 16
  unfolding unpack_compacted_index
  unpack_compacted_index_delta vi m shift pos lookahead h =
      grind (arith, compacted_nonhead_delta, compacted_head_delta)

  compacted_load_cluster_delta :
      (vi : Inode) (m : MapRecorder) (lcn : ℕ) (lookahead : Bool)
      → m.delta.1 < 2 ^ 16
      → (compacted_load_cluster sbi devices vi m lcn lookahead).1.delta.1 < 2 ^ 16
  unfolding compacted_load_cluster
  compacted_load_cluster_delta vi m lcn lookahead h =
      grind (arith, unpack_compacted_index_delta, reload_indexes_delta)

  pub load_cluster_delta :
      (vi : Inode) (m : MapRecorder) (lcn : ℕ) (lookahead : Bool)
      → m.delta.1 < 2 ^ 16
      → (load_cluster sbi devices vi m lcn lookahead).1.delta.1 < 2 ^ 16
  unfolding load_cluster
  load_cluster_delta vi m lcn lookahead h =
      grind (arith, legacy_load_cluster_delta, compacted_load_cluster_delta)

  pub load_cluster-Small :
      (vi : Inode) (m : MapRecorder) (lcn : ℕ) (lookahead : Bool)
      → m.delta.1 < 2 ^ 16
      → (load_cluster sbi devices vi m lcn lookahead).0 ≡ none
      → Small (load_cluster sbi devices vi m lcn lookahead).1
  load_cluster-Small vi m lcn lookahead d h = (
    omega (arith, load_cluster_lcn sbi devices vi m lcn lookahead h),
    load_cluster_delta vi m lcn lookahead d,
  )
