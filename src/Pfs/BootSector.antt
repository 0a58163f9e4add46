-- ===== src/Pfs/BootSector.antt =====
-- The fields of the boot sector that PFS uses (PFS/include/tad_bootsector.h).
use fuselage_fat32_utn.Prelude.{ℕ, ◌*◌}

pub record BootSector : Type 0 where
  pub bytes_per_sector : ℕ
  pub sectors_per_cluster : ℕ
  pub reserved_sectors : ℕ
  pub fats_no : ℕ
  pub media_descriptor : ℕ
  pub sectors_per_fat32 : ℕ

-- `bytes_perSector * sectors_perCluster`, which the callers compute each time.
abbrev pub bytes_per_cluster : BootSector → ℕ
bytes_per_cluster b = b.bytes_per_sector * b.sectors_per_cluster
