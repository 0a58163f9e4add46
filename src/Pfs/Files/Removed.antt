-- ===== src/Pfs/Files/Removed.antt =====
-- A file of the root directory that is removed.
use fuselage_fat32_utn.Prelude.{
  ℕ, ◌+◌, ◌*◌, ◌<◌, ◌≡◌, ◌≢◌, refl, ap, ◌∙◌, arith, true, false, some, none, List, [], ◌∷◌, ◌++◌,
  ◌==◌, length, get_elem?, All, All-append, ne→==, same_string, Bool-cases, inl, inr,
}
use fuselage_fat32_utn.Prelude.Outcome.{ok}
use fuselage_fat32_utn.Pfs.BootSector.{BootSector}
use fuselage_fat32_utn.Pfs.Fat.{FatTable, Sector, is_eoc, get_linked_clusters, write_table}
use fuselage_fat32_utn.Pfs.Fat.Valid.{IsValid}
use fuselage_fat32_utn.Pfs.Fat.Walk.{eoc-ge}
use fuselage_fat32_utn.Pfs.Volume.{Volume, write_cluster}
use fuselage_fat32_utn.Pfs.DirEntry.{get_cluster_number}
use fuselage_fat32_utn.Pfs.LfnEntry.{Unicode}
use fuselage_fat32_utn.Pfs.FilePath.Split.{IsName}
use fuselage_fat32_utn.Pfs.FileEntry.{FileEntry}
use fuselage_fat32_utn.Pfs.Directory.{Malloc, interpret_from_cluster}
use fuselage_fat32_utn.Pfs.Directory.Listing.{
  Slot, IsSlot, slots_bytes, file_of, files_of, interpret_from_cluster-slots,
}
use fuselage_fat32_utn.Pfs.Directory.Deleted.{
  with_deleted, paste-marks, interpret_from_cluster-with_deleted,
}
use fuselage_fat32_utn.Pfs.Lookup.{read_directory, find_named, get_file_entry}
use fuselage_fat32_utn.Pfs.Files
use fuselage_fat32_utn.Pfs.Files.{write_fat, free_clusters}
use fuselage_fat32_utn.Pfs.Files.Freed.{free_clusters-IsFreed}
use fuselage_fat32_utn.Pfs.Files.Root.{
  find_named-slot, find_named-none, read_directory-root, get_file_entry-root,
}

-- A directory of one cluster.
root_cluster :
    (rounds w : ℕ) (fat : FatTable)
    → get_elem? fat.table 2 ≡ some w
    → is_eoc w ≡ true
    → get_linked_clusters rounds fat 2 ≡ ok (2 ∷ [])
unfolding get_linked_clusters
root_cluster rounds w fat at mark =
    let some_mark : (w == 0) ≡ false = ne→== w 0 (λ e. omega (arith, eoc-ge w mark, e)) in
    rw at (rw (some_mark, mark) refl)

find_named-append :
    (name : List ℕ) (xs ys : List FileEntry)
    → find_named name xs ≡ none
    → find_named name (xs ++ ys) ≡ find_named name ys
unfolding find_named
find_named-append name [] ys h = refl
find_named-append name (x ∷ xs) ys h = elim (Bool-cases (same_string x.long_file_name name)) [
  | inl same ↦ absurd (cc (rw same at h))
  | inr other ↦ rw other (find_named-append name xs ys (rw other at h))
]

module _ (rounds w : ℕ) (boot : BootSector) (icu : Unicode) (malloc : Malloc) (pre : List Slot)
    (s : Slot) (post : List Slot) (rest cs : List ℕ) (v : Volume) where
  -- Let the root directory be one cluster of files with long names, and let one of them have a name
  -- without a slash that no other has. When fat32_remove is called with its path, with a well-formed
  -- table and with the clusters that FAT_get_linked_clusters lists of the file in the table and apart
  -- from the root's, the file is not found any more, the root shows the other files as before, the
  -- clusters of the file are free, and all other entries of the table and all other clusters are as
  -- before.
  pub get_file_entry-remove :
      IsValid boot v.fat
      → get_elem? v.fat.table 2 ≡ some w
      → is_eoc w ≡ true
      → get_linked_clusters rounds v.fat (get_cluster_number s.entry) ≡ ok cs
      → All (λ c. c < length v.fat.table) cs
      → All (λ c. c ≢ 2) cs
      → All (IsSlot icu) pre
      → IsSlot icu s
      → All (IsSlot icu) post
      → All (λ (x : Slot). x.name ≢ s.name) pre
      → All (λ (x : Slot). x.name ≢ s.name) post
      → IsName s.name
      → v.contents 2 ≡ slots_bytes (pre ++ s ∷ post) ++ 0 ∷ rest
      → (v' : Volume) × (sent : List Sector) × (Files.remove rounds boot malloc icu
            (b'/' ∷ s.name)
            v
          ≡ ok (v', sent))
        × (get_file_entry rounds icu malloc v' (b'/' ∷ s.name) ≡ ok none)
        × (read_directory rounds icu malloc v' (b'/' ∷ [])
            ≡ ok (files_of 2 0 pre ++ files_of 2 (64 * length pre + 64) post))
        × All (λ c. get_elem? v'.fat.table c ≡ some 0) cs
        × ((d : ℕ) → All (λ c. c ≢ d) cs → get_elem? v'.fat.table d ≡ get_elem? v.fat.table d)
        × ((c : ℕ) → c ≢ 2 → v'.contents c ≡ v.contents c)
  unfolding Files.remove write_table
  get_file_entry-remove valid at mark chain inside apart before old after others_before others_after
        is_name holds =
      let (g, runs, r) = free_clusters-IsFreed boot cs v.fat valid inside in
      let (mid, first, second) = paste-marks icu pre s post (0 ∷ rest) before old in
      let v' : Volume =
        write_cluster 2 (with_deleted pre s post (0 ∷ rest)) (write_fat (record v { fat = g })).0 in
      let z : 0 + 64 * length pre ≡ 64 * length pre = omega arith in
      let found =
        get_file_entry-root rounds icu malloc v s.name (files_of 2 0 (pre ++ s ∷ post)) is_name
          (root_cluster rounds w v.fat at mark)
          (ap (λ bytes. interpret_from_cluster icu malloc 2 bytes) holds
            ∙ interpret_from_cluster-slots icu malloc 2 (pre ++ s ∷ post) rest
                (All-append (IsSlot icu) pre (s ∷ post) before (old, after)))
        ∙ ap ok (find_named-slot s.name 2 0 pre s post others_before refl)
        ∙ ap (λ n. ok (some (file_of 2 n s))) z in
      let root : get_linked_clusters rounds v'.fat 2 ≡ ok (2 ∷ []) =
        root_cluster rounds w v'.fat (r.others 2 apart ∙ at) mark in
      let shown =
        interpret_from_cluster-with_deleted icu malloc 2 pre s post rest before old after in
      (
        v',
        (write_fat (record v { fat = g })).1,
        rw found (rw (holds) (rw first (rw second (rw chain (rw runs refl))))),
        get_file_entry-root rounds icu malloc v' s.name
              (files_of 2 0 pre ++ files_of 2 (64 * length pre + 64) post) is_name root shown
            ∙ ap ok (
                find_named-append s.name (files_of 2 0 pre) (files_of 2 (64 * length pre + 64) post)
                  (find_named-none s.name 2 0 pre others_before)
                ∙ find_named-none s.name 2 (64 * length pre + 64) post others_after),
        read_directory-root rounds icu malloc v'
            (files_of 2 0 pre ++ files_of 2 (64 * length pre + 64) post) root shown,
        r.freed,
        r.others,
        λ c other. rw (ne→== c 2 other) refl,
      )
