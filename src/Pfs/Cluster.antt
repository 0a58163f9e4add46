-- ===== src/Pfs/Cluster.antt =====
-- Clusters and their sectors (PFS/src/tad_cluster.c, and fat32_readCluster of PFS/src/pfs_fat32.c).
-- A sector's `data` is the position of its bytes in the data of the cluster.
pub mod Layout
use fuselage_fat32_utn.Prelude.{
  ℕ, zero, suc, ◌+◌, ◌-◌, ◌*◌, ◌%◌, Bool, false, List, [], ◌∷◌, map, u32_mod,
}
use fuselage_fat32_utn.Pfs.BootSector.{BootSector, bytes_per_cluster}

-- The numbers from `index` on, as many as the loops have rounds.
unfoldable pub indexes : (index count : ℕ) → List ℕ
indexes index zero = []
indexes index (suc n) = index ∷ indexes (suc index) n

-- CLUSTER_to_sectors: the first sector of the cluster, and all. Numbers are `uint32_t`.
unfoldable pub first_sector : BootSector → ℕ → ℕ
first_sector boot cluster =
    let first_of_data = (boot.reserved_sectors + boot.fats_no * boot.sectors_per_fat32) % u32_mod in
    (first_of_data + (cluster + u32_mod - 2) % u32_mod * boot.sectors_per_cluster) % u32_mod

unfoldable pub to_sectors : BootSector → ℕ → List ℕ
unfolding indexes first_sector
to_sectors boot cluster =
    map (λ index. (first_sector boot cluster + index) % u32_mod)
      (indexes 0 boot.sectors_per_cluster)

pub record Sector : Type 0 where
  pub number : ℕ
  pub start : ℕ
  pub size : ℕ
  pub modified : Bool

-- The loop that CLUSTER_newCluster and fat32_readCluster share.
unfoldable pub sector_queue : BootSector → List ℕ → (index : ℕ) → List Sector
sector_queue boot [] index = []
sector_queue boot (number ∷ rest) index =
    record {
      number = number;
      start = index * boot.bytes_per_sector;
      size = boot.bytes_per_sector;
      modified = false;
    }
    ∷ sector_queue boot rest (suc index)

pub record Cluster : Type 0 where
  pub number : ℕ
  pub size : ℕ
  pub bytes : List ℕ
  pub sectors : List Sector

-- CLUSTER_newCluster. It puts the number of sectors where fat32_readCluster puts that of bytes.
unfoldable pub new_cluster : BootSector → List ℕ → ℕ → Cluster
unfolding to_sectors sector_queue
new_cluster boot bytes number = record {
  number = number;
  size = boot.sectors_per_cluster;
  bytes = bytes;
  sectors = sector_queue boot (to_sectors boot number) 0;
}

-- fat32_readCluster, with what ppd_read_sectors delivers for the sectors.
unfoldable pub read_cluster : (ppd_read_sectors : List ℕ → List ℕ) → BootSector → ℕ → Cluster
unfolding to_sectors sector_queue
read_cluster ppd_read_sectors boot number = record {
  number = number;
  size = bytes_per_cluster boot;
  bytes = ppd_read_sectors (to_sectors boot number);
  sectors = sector_queue boot (to_sectors boot number) 0;
}
