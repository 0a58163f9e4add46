-- ===== src/Pfs/Fat/Tests.antt =====
-- The functions of PFS/src/tad_fat.c on a table of eight entries, in two sectors of four.
use fuselage_fat32_utn.Prelude.{
  ℕ, ◌*◌, ◌/◌, ◌<◌, ◌≤◌, ◌≡◌, refl, ◌↔◌, true, some, List, [], ◌∷◌, arith, length, get_elem?,
}
use fuselage_fat32_utn.Prelude.Outcome.{ok, fault}
use fuselage_fat32_utn.Pfs.BootSector.{BootSector}
use fuselage_fat32_utn.Pfs.Fat.{
  FatTable, is_eoc, table_sectors, read_table, search_sector_by_pointer, get_free_clusters,
  get_linked_clusters, link_free_cluster, remove_last_linked_cluster,
}
use fuselage_fat32_utn.Pfs.Fat.Chain.{Chain, end, link}
use fuselage_fat32_utn.Pfs.Fat.Valid.{IsValid}
use fuselage_fat32_utn.Pfs.Fat.Sectors.{IsReadable, search-read_table, read_table-IsValid}
use fuselage_fat32_utn.Pfs.Fat.Free.{has, get_free_clusters-exact}
use fuselage_fat32_utn.Pfs.Fat.Walk.{get_linked_clusters-Chain}
use fuselage_fat32_utn.Pfs.Fat.Link.{IsLinked, link_free_cluster_lem, link_free_cluster-full}
use fuselage_fat32_utn.Pfs.Fat.Unlink.{IsUnlinked, remove_last_linked_cluster_lem}

abbrev pub boot : BootSector
boot = record {
  bytes_per_sector = 16;
  sectors_per_cluster = 1;
  reserved_sectors = 32;
  fats_no = 2;
  media_descriptor = 0xF8;
  sectors_per_fat32 = 2;
}

abbrev pub entries : List ℕ
entries = 0x0FFFFFF8 ∷ 0x0FFFFFFF ∷ 3 ∷ 0x0FFFFFFF ∷ 0 ∷ 0 ∷ 0x0FFFFFF8 ∷ 0 ∷ []

abbrev full_entries : List ℕ
full_entries = 0x0FFFFFF8 ∷ 0x0FFFFFFF ∷ 3 ∷ 0x0FFFFFFF ∷ 5 ∷ 0x0FFFFFFF ∷ 7 ∷ 0x0FFFFFFF ∷ []

abbrev pub table_of : List ℕ → FatTable
table_of read = record {
  table = read;
  sectors = table_sectors boot 2 32;
  size = 8;
  eoc = 0x0FFFFFFF;
}

entries-IsReadable : IsReadable boot entries 4
unfolding is_eoc
entries-IsReadable = record {
  word = refl;
  some_entries = omega arith;
  whole = refl;
  small = omega arith;
  mark = (0x0FFFFFFF, refl, refl);
  media = (0x0FFFFFF8, refl, refl);
}

full-IsReadable : IsReadable boot full_entries 4
unfolding is_eoc
full-IsReadable = record {
  word = refl;
  some_entries = omega arith;
  whole = refl;
  small = omega arith;
  mark = (0x0FFFFFFF, refl, refl);
  media = (0x0FFFFFF8, refl, refl);
}

pub entries-IsValid : IsValid boot (table_of entries)
unfolding is_eoc
entries-IsValid = record {
  sized = refl;
  small = omega arith;
  mark = refl;
  covers = λ c h q. cc (search-read_table boot entries 4 entries-IsReadable c h);
}

full-IsValid : IsValid boot (table_of full_entries)
unfolding is_eoc
full-IsValid = record {
  sized = refl;
  small = omega arith;
  mark = refl;
  covers = λ c h q. cc (search-read_table boot full_entries 4 full-IsReadable c h);
}

pub two_clusters : Chain entries 3 2 (2 ∷ [])
unfolding is_eoc
two_clusters = link 3 refl refl (omega arith) (end 0x0FFFFFFF refl refl refl)

two_clusters_full : Chain full_entries 3 2 (2 ∷ [])
unfolding is_eoc
two_clusters_full = link 3 refl refl (omega arith) (end 0x0FFFFFFF refl refl refl)

pub free_clusters : get_free_clusters (table_of entries) ≡ ok (4 ∷ 5 ∷ 7 ∷ [])
unfolding get_free_clusters
free_clusters = refl

no_free_clusters : get_free_clusters (table_of full_entries) ≡ ok []
unfolding get_free_clusters
no_free_clusters = refl

read_table-IsValid_example :
    (fat : FatTable) × (read_table boot entries ≡ ok fat)
    × IsValid boot fat
    × (fat.table ≡ entries)
    × ((c : ℕ)
        → c < length entries
        → search_sector_by_pointer boot fat.sectors (c * 4) ≡ some (c / 4))
read_table-IsValid_example = read_table-IsValid boot entries 4 entries-IsReadable

get_free_clusters-exact_example :
    (xs : List ℕ) × (get_free_clusters (table_of entries) ≡ ok xs)
    × ((c : ℕ) → (has c xs ≡ true) ↔ ((2 ≤ c) × (get_elem? entries c ≡ some 0)))
get_free_clusters-exact_example = get_free_clusters-exact (table_of entries) refl (omega arith)

get_linked_clusters-Chain_example : get_linked_clusters 8 (table_of entries) 2 ≡ ok (2 ∷ 3 ∷ [])
get_linked_clusters-Chain_example =
    get_linked_clusters-Chain (table_of entries) 8 entries-IsValid.mark (omega arith) (omega arith)
      two_clusters

link_free_cluster_example :
    (g : FatTable) × (link_free_cluster 8 boot 2 (table_of entries) ≡ ok (g, 4))
    × IsLinked boot (table_of entries) 2 3 4 (2 ∷ []) g
link_free_cluster_example =
    link_free_cluster_lem boot (table_of entries) 8 entries-IsValid two_clusters (omega arith)
      (omega arith) 4 (5 ∷ 7 ∷ []) free_clusters

link_free_cluster-full_example : link_free_cluster 8 boot 2 (table_of full_entries) ≡ fault
link_free_cluster-full_example =
    link_free_cluster-full boot (table_of full_entries) 8 full-IsValid two_clusters_full
      (omega arith) (omega arith) no_free_clusters

remove_last_linked_cluster_example :
    (g : FatTable) × (remove_last_linked_cluster 8 boot 2 (table_of entries) ≡ ok (g, 3))
    × IsUnlinked boot (table_of entries) 2 2 3 [] g
remove_last_linked_cluster_example =
    remove_last_linked_cluster_lem boot (table_of entries) 8 2 [] entries-IsValid two_clusters refl
      (omega arith)
