-- ===== src/Pfs/Files.antt =====
-- Making, removing and truncating a file (fat32_mk, fat32_remove and fat32_truncate of
-- PFS/src/pfs_fat32.c). The result is the volume and the sectors of the table that FAT_write_table
-- sends. `rounds` is the fuel of the loops over a chain.
pub mod Search
pub mod NewFile
pub mod Root
pub mod Freed
pub mod Removed
pub mod Tests
use fuselage_fat32_utn.Prelude.{
  ℕ, zero, suc, ◌+◌, ◌/◌, ◌%◌, Bool, Option, none, some, List, [], ◌∷◌, ◌++◌, ◌==◌, ◌&&◌, ◌||◌, ltb,
  if◌then◌else◌, paste, get_elem?, same_string, u32_mod,
}
use fuselage_fat32_utn.Prelude.Outcome.{Outcome, ok, ◌>>=◌, need}
use fuselage_fat32_utn.Pfs.BootSector.{BootSector, bytes_per_cluster}
use fuselage_fat32_utn.Pfs.Fat.{
  FatTable, Sector, get_linked_clusters, get_next_free_cluster, set_used_cluster, set_free_cluster,
  link_free_cluster, write_table,
}
use fuselage_fat32_utn.Pfs.Volume.{Volume, write_cluster}
use fuselage_fat32_utn.Pfs.Truncate.{cluster_count, resize}
use fuselage_fat32_utn.Pfs.DirEntry.{DirEntry, Tm, create, get_cluster_number, dir_attr}
use fuselage_fat32_utn.Pfs.DirEntry.Bytes.{entry_bytes}
use fuselage_fat32_utn.Pfs.LfnEntry.{Unicode, create_lfn, lfn_bytes}
use fuselage_fat32_utn.Pfs.Directory.{Malloc}
use fuselage_fat32_utn.Pfs.Lookup.{get_file_entry}
use fuselage_fat32_utn.Pfs.FilePath.{split_name_from_path}

abbrev pub write_fat : Volume → Volume × List Sector
write_fat v = let (fat, sent) = write_table v.fat in (record v { fat = fat }, sent)

-- `*((char*) dirtable_index) == value`: a `char` is signed, so that no byte from 128 on is equal to a
-- value that is not negative.
abbrev pub is_char : (value byte : ℕ) → Bool
is_char value byte = ltb byte 128 && byte == value

-- The loop from an entry to the last one, which is not looked at: the offset of the first entry whose
-- first byte says that it is free.
unfoldable pub find_slot : (rounds offset : ℕ) → List ℕ → Outcome (Option ℕ)
find_slot zero offset bytes = ok none
find_slot (suc rounds) offset bytes = do
  first ← need (get_elem? bytes offset)
  let rest = find_slot rounds (offset + 32) bytes
  if is_char 0xE5 first || is_char 0x00 first then ok (some offset) else rest

-- What fat32_mk is called with, what the clock says, and what memory holds behind a name and behind
-- the literals "." and "..".
pub record Making : Type 0 where
  pub icu : Unicode
  pub now : Tm
  pub filename : List ℕ
  pub dir_or_archive : ℕ
  pub behind : List ℕ

-- The entry of the new file. For a directory a cluster is taken, whose entries "." and ".." are
-- written to it.
unfoldable pub make_entry :
    BootSector → Making → (parent : ℕ) → Volume → Outcome (Volume × DirEntry)
make_entry boot m parent v =
    if m.dir_or_archive == dir_attr
    then (do
      number ← get_next_free_cluster v.fat
      fat ← set_used_cluster boot number v.fat
      entry ← create m.now (m.filename ++ 0 ∷ m.behind) number m.dir_or_archive
      point ← create m.now (b'.' ∷ 0 ∷ m.behind) number m.dir_or_archive
      pointpoint ← create m.now (b'.' ∷ b'.' ∷ 0 ∷ m.behind) parent m.dir_or_archive
      bytes ← paste 0 (entry_bytes point) (v.contents number)
      bytes ← paste 32 (entry_bytes pointpoint) bytes
      ok (write_cluster number bytes (record v { fat = fat }), entry))
    else (do entry ← create m.now (m.filename ++ 0 ∷ m.behind) 0 m.dir_or_archive; ok (v, entry))

-- The two entries at an offset of a cluster of the directory. Its data are those that were read
-- before the new directory's cluster was written.
unfoldable pub write_entries : BootSector → Making → (cluster offset : ℕ) → Volume → Outcome Volume
write_entries boot m cluster offset v = do
  lfn ← create_lfn m.icu m.filename
  (v', entry) ← make_entry boot m cluster v
  bytes ← paste offset (lfn_bytes lfn) (v.contents cluster)
  bytes ← paste (offset + 32) (entry_bytes entry) bytes
  ok (write_cluster cluster bytes v')

-- The loop over the clusters of the directory; `none` when no cluster has a free entry.
unfoldable pub mk_in : BootSector → Making → (clusters : List ℕ) → Volume → Outcome (Option Volume)
mk_in boot m [] v = ok none
mk_in boot m (cluster ∷ clusters) v = do
  slot ← find_slot 127 0 (v.contents cluster)
  let rest = mk_in boot m clusters v
  elim slot [
    | none ↦ rest
    | some offset ↦ do v ← write_entries boot m cluster offset v; ok (some v)
  ]

-- The branch of a full directory, which gets a cluster more.
unfoldable pub mk_behind :
    (rounds : ℕ) → BootSector → Making → (folder : ℕ) → Volume → Outcome (Volume × List Sector)
unfolding link_free_cluster write_entries write_table
mk_behind rounds boot m folder v = do
  (fat, appended) ← link_free_cluster rounds boot folder v.fat
  v ← write_entries boot m appended 0 (record v { fat = fat })
  ok (write_fat v)

abbrev pub folder_cluster : (rounds : ℕ) → Unicode → Malloc → Volume → (path : List ℕ) → Outcome ℕ
folder_cluster rounds icu malloc v path = if same_string path (b'/' ∷ []) then ok 2 else (do
  entry ← get_file_entry rounds icu malloc v path
  entry ← need entry
  ok (get_cluster_number entry.dir_entry))

-- fat32_mk
unfoldable pub mk :
    (rounds : ℕ)
    → BootSector
    → Malloc
    → Unicode
    → (now : Tm) → (behind fullpath : List ℕ) → (dir_or_archive : ℕ) → Volume
    → Outcome (Volume × List Sector)
unfolding split_name_from_path get_file_entry get_linked_clusters mk_in mk_behind
mk rounds boot malloc icu now behind fullpath dir_or_archive v = do
  (filename, path) ← split_name_from_path fullpath
  folder ← folder_cluster rounds icu malloc v path
  clusters ← get_linked_clusters rounds v.fat folder
  let m : Making = record {
    icu = icu;
    now = now;
    filename = filename;
    dir_or_archive = dir_or_archive;
    behind = behind;
  }
  made ← mk_in boot m clusters v
  elim made [ some v' ↦ ok (v', []) | none ↦ mk_behind rounds boot m folder v ]

-- The loop of fat32_remove that frees the clusters.
unfoldable pub free_clusters : BootSector → List ℕ → FatTable → Outcome FatTable
unfolding set_free_cluster
free_clusters boot [] fat = ok fat
free_clusters boot (cluster ∷ clusters) fat = do
  fat ← set_free_cluster boot cluster fat
  free_clusters boot clusters fat

-- fat32_remove
unfoldable pub remove :
    (rounds : ℕ)
    → BootSector
    → Malloc
    → Unicode
    → (path : List ℕ) → Volume
    → Outcome (Volume × List Sector)
unfolding get_file_entry get_linked_clusters free_clusters write_table
remove rounds boot malloc icu path v = do
  entry ← get_file_entry rounds icu malloc v path
  entry ← need entry
  bytes ← paste entry.offset (0xE5 ∷ []) (v.contents entry.cluster)
  bytes ← (if entry.has_lfn then paste (entry.offset + 32) (0xE5 ∷ []) bytes else ok bytes)
  clusters ← get_linked_clusters rounds v.fat (get_cluster_number entry.dir_entry)
  fat ← free_clusters boot clusters v.fat
  let (v, sent) = write_fat (record v { fat = fat })
  ok (write_cluster entry.cluster bytes v, sent)

-- The four bytes of the cluster's number.
abbrev pub with_cluster : ℕ → DirEntry → DirEntry
with_cluster cluster e = record e {
  low_cluster_0 = cluster % 256;
  low_cluster_1 = cluster / 256 % 256;
  high_cluster_0 = cluster / 65536 % 256;
  high_cluster_1 = cluster / 16777216 % 256;
}

-- Does fat32_truncate put another first cluster into the entry?
abbrev pub moves_first : (actual needed first : ℕ) → Bool
moves_first actual needed first =
    (ltb needed actual && first == 0) || (actual == 0 && ltb actual needed)

-- fat32_truncate: also the size that it returns.
unfoldable pub truncate :
    (rounds : ℕ)
    → BootSector
    → Malloc
    → Unicode
    → (path : List ℕ) → (new_size : ℕ) → Volume
    → Outcome (Volume × List Sector × ℕ)
unfolding get_file_entry resize entry_bytes write_table
truncate rounds boot malloc icu path new_size v = do
  file ← get_file_entry rounds icu malloc v path
  file ← need file
  let entry = file.dir_entry
  let actual = cluster_count (bytes_per_cluster boot) entry.file_size
  let needed = cluster_count (bytes_per_cluster boot) new_size
  (v, first) ← resize rounds boot entry.file_size new_size (get_cluster_number entry) v
  let moved = if moves_first actual needed first then with_cluster first entry else entry
  let sized = record moved { file_size = new_size % u32_mod }
  bytes ←
      paste (if file.has_lfn then file.offset + 32 else file.offset) (entry_bytes sized)
        (v.contents file.cluster)
  let (v, sent) = write_fat (write_cluster file.cluster bytes v)
  ok (v, sent, new_size % u32_mod)
