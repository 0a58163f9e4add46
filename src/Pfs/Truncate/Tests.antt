-- ===== src/Pfs/Truncate/Tests.antt =====
-- The change of a file's chain in fat32_truncate (PFS/src/pfs_fat32.c) on a table of eight entries.
use fuselage_fat32_utn.Prelude.{
  ℕ, ◌≡◌, refl, arith, length, [], ◌∷◌, All, replicate, length-replicate,
}
use fuselage_fat32_utn.Prelude.Outcome.{ok}
use fuselage_fat32_utn.Pfs.Fat.Valid.{IsValid}
use fuselage_fat32_utn.Pfs.Fat.Supply.{IsUnused}
use fuselage_fat32_utn.Pfs.Fat.Tests.{
  boot, entries, table_of, entries-IsValid, two_clusters, free_clusters,
}
use fuselage_fat32_utn.Pfs.Fat.Chain.{clusters}
use fuselage_fat32_utn.Pfs.Volume.{Volume, write_cluster}
use fuselage_fat32_utn.Pfs.Truncate.{resize}
use fuselage_fat32_utn.Pfs.Truncate.Growth.{IsGrown}
use fuselage_fat32_utn.Pfs.Truncate.Tail.{resize-cleared}
use fuselage_fat32_utn.Pfs.Truncate.Sizes.{
  IsShortened, resize-IsShortened, resize-none, resize-IsGrown,
}

abbrev small_clusters : Volume
small_clusters = record { fat = table_of entries; contents = λ c. replicate 16 1 }

abbrev volume : Volume
volume = record { fat = table_of entries; contents = λ c. replicate 4096 1 }

-- The clusters have 16 bytes: 20 bytes lie in two, 10 bytes in one, and 50 bytes in four.
resize-IsShortened_example :
    (v : Volume) × (resize 8 boot 20 10 2 volume ≡ ok (v, 2))
    × IsShortened boot volume v 2 (2 ∷ 3 ∷ []) 1 1
resize-IsShortened_example =
    resize-IsShortened boot 8 2 20 10 volume entries-IsValid two_clusters (omega arith) refl
      (omega arith) (omega arith)

resize-none_example :
    (v : Volume) × (resize 8 boot 20 0 2 volume ≡ ok (v, 0))
    × All (IsUnused v.fat.table) (2 ∷ 3 ∷ [])
    × ((d : ℕ) → IsUnused entries d → IsUnused v.fat.table d)
    × IsValid boot v.fat
    × (v.contents ≡ volume.contents)
resize-none_example =
    resize-none boot 8 2 20 0 volume entries-IsValid two_clusters (omega arith) refl refl

resize-IsGrown_example :
    (v : Volume) × (resize 8 boot 20 50 2 volume ≡ ok (v, 2))
    × (grown : IsGrown boot 2 (2 ∷ 3 ∷ []) (4 ∷ 5 ∷ []) (7 ∷ []) volume v) × (length
          (clusters grown.front grown.last)
        ≡ 4)
resize-IsGrown_example =
    resize-IsGrown boot 8 2 20 50 volume (4 ∷ 5 ∷ []) (7 ∷ []) entries-IsValid two_clusters
      (omega arith) (omega arith) refl (omega arith) free_clusters refl
      (λ d. omega (arith, length-replicate {A = ℕ} 4096 1))

resize-cleared_example :
    resize 8 boot 20 18 2 small_clusters
    ≡ ok (write_cluster 3 (1 ∷ 1 ∷ replicate 14 0) small_clusters, 2)
resize-cleared_example =
    resize-cleared boot 8 20 18 small_clusters entries-IsValid two_clusters (omega arith) refl
      (omega arith) (omega arith) refl
