-- ===== src/Pfs/Volume.antt =====
-- The volume: the table in memory and what the disk holds for each cluster. fat32_readCluster
-- (PFS/src/pfs_fat32.c) reads the data of a cluster and fat32_writeCluster writes them.
use fuselage_fat32_utn.Prelude.{ℕ, List, ◌==◌, if◌then◌else◌}
use fuselage_fat32_utn.Pfs.Fat.{FatTable}

pub record Volume : Type 0 where
  pub fat : FatTable
  pub contents : ℕ → List ℕ

abbrev pub write_cluster : ℕ → List ℕ → Volume → Volume
write_cluster cluster bytes v = record v {
  contents = λ c. if c == cluster then bytes else v.contents c;
}
