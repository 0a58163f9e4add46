-- ===== src/Pfs/Truncate.antt =====
-- The change of a file's chain in fat32_truncate (PFS/src/pfs_fat32.c). The directory entry, which
-- the function writes at its end, is not part of it: the first cluster that the entry gets is the
-- result. `rounds` is the fuel of the loops over the chain.
pub mod Chains
pub mod Growth
pub mod Sizes
pub mod Tail
mod Tests
use fuselage_fat32_utn.Prelude.{
  ℕ, zero, suc, ◌+◌, ◌-◌, ◌/◌, ◌%◌, List, ◌==◌, ltb, if◌then◌else◌, replicate, paste,
}
use fuselage_fat32_utn.Prelude.Outcome.{Outcome, ok, ◌>>=◌}
use fuselage_fat32_utn.Pfs.BootSector.{BootSector, bytes_per_cluster}
use fuselage_fat32_utn.Pfs.Volume.{Volume, write_cluster}
use fuselage_fat32_utn.Pfs.Fat.{
  FatTable, get_next_free_cluster, set_used_cluster, link_free_cluster, remove_last_linked_cluster,
  get_last_linked,
}

-- `memset` on the data of a cluster that is read, and the write behind it.
unfoldable pub clear_bytes : (place count : ℕ) → (cluster : ℕ) → Volume → Outcome Volume
clear_bytes place count cluster v = do
  bytes ← paste place (replicate count 0) (v.contents cluster)
  ok (write_cluster cluster bytes v)

-- The sizes in clusters.
abbrev pub cluster_count : (bytes_per_cluster size : ℕ) → ℕ
cluster_count bytes_per_cluster size = if size == 0 then 0 else (size - 1) / bytes_per_cluster + 1

-- The loop that removes clusters: the table and `last_cluster_removed`.
unfoldable pub remove_clusters :
    (clusters_to_remove rounds : ℕ)
    → BootSector
    → (first_cluster last_cluster_removed : ℕ) → FatTable
    → Outcome (FatTable × ℕ)
unfolding remove_last_linked_cluster
remove_clusters zero rounds boot first last_cluster_removed fat = ok (fat, last_cluster_removed)
remove_clusters (suc n) rounds boot first last_cluster_removed fat = do
  (fat, removed) ← remove_last_linked_cluster rounds boot first fat
  remove_clusters n rounds boot first removed fat

-- The loop that links clusters, each cleared.
unfoldable pub link_clusters :
    (clusters_to_link rounds : ℕ) → BootSector → (first_cluster : ℕ) → Volume → Outcome Volume
unfolding link_free_cluster clear_bytes
link_clusters zero rounds boot first v = ok v
link_clusters (suc n) rounds boot first v = do
  (fat, linked) ← link_free_cluster rounds boot first v.fat
  v ← clear_bytes 0 4096 linked (record v { fat = fat })
  link_clusters n rounds boot first v

-- The first cluster of a file that had none.
unfoldable pub first_cluster : BootSector → Volume → Outcome (Volume × ℕ)
unfolding get_next_free_cluster set_used_cluster clear_bytes
first_cluster boot v = do
  first ← get_next_free_cluster v.fat
  fat ← set_used_cluster boot first v.fat
  v ← clear_bytes 0 4096 first (record v { fat = fat })
  ok (v, first)

-- The branch of a file that needs more clusters than it has.
unfoldable pub grow :
    (rounds : ℕ) → BootSector → (actual needed first : ℕ) → Volume → Outcome (Volume × ℕ)
unfolding first_cluster link_clusters
grow rounds boot actual needed first v =
    let from_none = (do
      (v, first) ← first_cluster boot v
      v ← link_clusters (needed - actual - 1) rounds boot first v
      ok (v, first)) in
    let longer = (do v ← link_clusters (needed - actual) rounds boot first v; ok (v, first)) in
    if actual == 0 then from_none else longer

-- The branch of a file that keeps its clusters.
unfoldable pub clear_tail :
    (rounds : ℕ) → BootSector → (new_size first : ℕ) → Volume → Outcome (Volume × ℕ)
unfolding get_last_linked clear_bytes
clear_tail rounds boot new_size first v = do
  let place = new_size % bytes_per_cluster boot
  last ← get_last_linked rounds v.fat first
  v ← clear_bytes place (bytes_per_cluster boot - place) last v
  ok (v, first)

unfoldable pub resize :
    (rounds : ℕ) → BootSector → (original_size new_size first : ℕ) → Volume → Outcome (Volume × ℕ)
unfolding remove_clusters grow clear_tail
resize rounds boot original_size new_size first v =
    let actual = cluster_count (bytes_per_cluster boot) original_size in
    let needed = cluster_count (bytes_per_cluster boot) new_size in
    let shorter = (do
      (fat, removed) ← remove_clusters (actual - needed) rounds boot first 0 v.fat
      ok (record v { fat = fat }, if removed == 0 then 0 else first)) in
    let longer = grow rounds boot actual needed first v in
    let cleared = clear_tail rounds boot new_size first v in
    if ltb needed actual
    then shorter
    else if ltb actual needed
    then longer
    else if ltb new_size original_size
    then cleared
    else ok (v, first)
