-- ===== src/Pfs/Fat.antt =====
-- The FAT in memory (PFS/src/tad_fat.c). The table is the list of its 32-bit entries; a sector's
-- `data` pointer is its byte offset in the table. The functions run under `fat.mutex` from their
-- first line to their last, so each is one step. A read or write outside the table is a fault.
pub mod Chain
pub mod Walk
pub mod Valid
pub mod Free
pub mod Link
pub mod Supply
pub mod Unlink
pub mod Sectors
pub mod Tests
use fuselage_fat32_utn.Prelude.{
  ℕ, zero, suc, ◌+◌, ◌-◌, ◌*◌, ◌/◌, ◌%◌, ◌^◌, ◌<◌, ◌≡◌, Bool, true, false, Option, none, some, List,
  [], ◌∷◌, ◌++◌, ◌||◌, ◌&&◌, leb, ◌==◌, if◌then◌else◌, length, get_elem?, set, drop,
}
use fuselage_fat32_utn.Prelude.Outcome.{Outcome, ok, fault, out_of_fuel, ◌>>=◌, ◌>>◌, need}
use fuselage_fat32_utn.Pfs.BootSector.{BootSector}

pub record Sector : Type 0 where
  pub number : ℕ
  pub size : ℕ
  pub data_offset : ℕ
  pub modified : Bool

pub record FatTable : Type 0 where
  pub table : List ℕ
  pub sectors : List Sector
  pub size : ℕ
  pub eoc : ℕ

unfoldable pub is_eoc : ℕ → Bool
is_eoc number = leb 0x0FFFFFF8 number && leb number 0x0FFFFFFF

-- `casted_table[cluster_no]`
abbrev pub entry : FatTable → ℕ → Outcome ℕ
entry fat cluster_no = need (get_elem? fat.table cluster_no)

-- `casted_table[cluster_no] = value`
abbrev pub set_entry : FatTable → ℕ → ℕ → Outcome FatTable
set_entry fat cluster_no value = do
  _ ← entry fat cluster_no
  ok (record fat { table = set fat.table cluster_no value })

-- The inner loop: is the pointer that of an entry of the sector at `offset`, from its `index` on?
unfoldable pub points_into : (rounds index offset pointer : ℕ) → Bool
points_into zero index offset pointer = false
points_into (suc rounds) index offset pointer =
    (offset + index * 4 == pointer) || points_into rounds (index + 1) offset pointer

-- The position in `fat.sectors` of the first sector that holds the pointer; `none` is NULL.
unfoldable pub search_from : ℕ → List Sector → ℕ → ℕ → Option ℕ
unfolding points_into
search_from max_entries [] position pointer = none
search_from max_entries (s ∷ ss) position pointer =
    if points_into max_entries 0 s.data_offset pointer
    then some position
    else search_from max_entries ss (position + 1) pointer

unfoldable pub search_sector_by_pointer : BootSector → List Sector → ℕ → Option ℕ
unfolding search_from
search_sector_by_pointer boot sectors pointer =
    search_from (boot.bytes_per_sector / 4) sectors 0 pointer

unfoldable pub set_modified : List Sector → ℕ → List Sector
set_modified [] i = []
set_modified (s ∷ ss) zero = record s { modified = true } ∷ ss
set_modified (s ∷ ss) (suc i) = s ∷ set_modified ss i

-- `sector = FAT_searchSectorByPointer(casted_table + cluster_no); sector->modified = true`
unfoldable pub mark_modified : BootSector → ℕ → FatTable → Outcome FatTable
mark_modified boot cluster_no fat = do
  position ← need (search_sector_by_pointer boot fat.sectors (cluster_no * 4))
  ok (record fat { sectors = set_modified fat.sectors position })

-- The `while` of FAT_get_linked_clusters, with the queue filled so far.
unfoldable pub follow : ℕ → FatTable → ℕ → List ℕ → Outcome (List ℕ)
follow zero fat cluster_no cluster_list = out_of_fuel
follow (suc rounds) fat cluster_no cluster_list = do
  next ← entry fat cluster_no
  let rest = follow rounds fat next (cluster_list ++ cluster_no ∷ [])
  if is_eoc next then ok (cluster_list ++ cluster_no ∷ []) else rest

unfoldable pub get_linked_clusters : ℕ → FatTable → ℕ → Outcome (List ℕ)
unfolding follow
get_linked_clusters rounds fat init_cluster =
    if init_cluster == 0 || init_cluster == 1 then ok [] else do
      next ← entry fat init_cluster
      let rest = follow rounds fat init_cluster []
      if next == 0
          then ok []
          else if is_eoc next
          then ok (init_cluster ∷ [])
          else if next == fat.eoc
          then ok []
          else rest

-- The `for` of FAT_get_free_clusters, from `cluster_no` for the rounds that are left.
unfoldable pub collect_free : ℕ → FatTable → ℕ → List ℕ → Outcome (List ℕ)
collect_free zero fat cluster_no cluster_list = ok cluster_list
collect_free (suc rounds) fat cluster_no cluster_list = do
  next ← entry fat cluster_no
  collect_free rounds fat (cluster_no + 1)
      (if next == 0 then cluster_list ++ cluster_no ∷ [] else cluster_list)

unfoldable pub get_free_clusters : FatTable → Outcome (List ℕ)
unfolding collect_free
get_free_clusters fat = collect_free (fat.size - 2) fat 2 []

unfoldable pub first_free : ℕ → FatTable → ℕ → Outcome ℕ
first_free zero fat cluster_no = ok 0
first_free (suc rounds) fat cluster_no = do
  next ← entry fat cluster_no
  let rest = first_free rounds fat (cluster_no + 1)
  if next == 0 then ok cluster_no else rest

unfoldable pub get_next_free_cluster : FatTable → Outcome ℕ
unfolding first_free
get_next_free_cluster fat = first_free (fat.size - 2) fat 2

unfoldable pub set_used_cluster : BootSector → ℕ → FatTable → Outcome FatTable
unfolding mark_modified
set_used_cluster boot cluster fat = do
  fat ← set_entry fat cluster fat.eoc
  mark_modified boot cluster fat

unfoldable pub set_free_cluster : BootSector → ℕ → FatTable → Outcome FatTable
unfolding mark_modified
set_free_cluster boot cluster fat = do fat ← set_entry fat cluster 0; mark_modified boot cluster fat

-- The loop to the last cluster of a chain, that three functions share word for word.
unfoldable pub last_of_chain : ℕ → FatTable → ℕ → Outcome ℕ
last_of_chain zero fat last_cluster = out_of_fuel
last_of_chain (suc rounds) fat last_cluster = do
  next ← entry fat last_cluster
  let rest = last_of_chain rounds fat next
  if is_eoc next then ok last_cluster else rest

-- `while (casted_table[free_cluster_number] != 0) free_cluster_number++`, over the entries from
-- that number on. Past the end of the table the loop reads outside of it.
unfoldable pub scan_free : List ℕ → ℕ → Outcome ℕ
scan_free [] free_cluster_number = fault
scan_free (next ∷ entries) free_cluster_number =
    if next == 0 then ok free_cluster_number else scan_free entries (free_cluster_number + 1)

unfoldable pub link_free_cluster : ℕ → BootSector → ℕ → FatTable → Outcome (FatTable × ℕ)
unfolding last_of_chain scan_free mark_modified
link_free_cluster rounds boot first_cluster fat = do
  last_cluster ← last_of_chain rounds fat first_cluster
  free_cluster ← scan_free (drop 2 fat.table) 2
  fat ← set_entry fat last_cluster free_cluster
  fat ← set_entry fat free_cluster fat.eoc
  fat ← mark_modified boot last_cluster fat
  fat ← mark_modified boot free_cluster fat
  ok (fat, free_cluster)

-- The loop to the last cluster that also keeps the one before it.
unfoldable pub last_two_of_chain : ℕ → FatTable → (before last : ℕ) → Outcome (ℕ × ℕ)
last_two_of_chain zero fat before last = out_of_fuel
last_two_of_chain (suc rounds) fat before last = do
  next ← entry fat last
  let rest = last_two_of_chain rounds fat last next
  if is_eoc next then ok (before, last) else rest

-- The branch of a chain with more than one cluster.
unfoldable pub remove_behind : ℕ → BootSector → ℕ → FatTable → Outcome (FatTable × ℕ)
unfolding last_two_of_chain mark_modified
remove_behind rounds boot first_cluster fat = do
  (before, last) ← last_two_of_chain rounds fat first_cluster first_cluster
  fat ← set_entry fat last 0
  fat ← set_entry fat before fat.eoc
  fat ← mark_modified boot before fat
  fat ← mark_modified boot last fat
  ok (fat, last)

unfoldable pub remove_last_linked_cluster : ℕ → BootSector → ℕ → FatTable → Outcome (FatTable × ℕ)
unfolding remove_behind
remove_last_linked_cluster rounds boot first_cluster fat = do
  next ← entry fat first_cluster
  if is_eoc next
      then (do
        fat ← set_entry fat first_cluster 0
        fat ← mark_modified boot first_cluster fat
        ok (fat, 0))
      else remove_behind rounds boot first_cluster fat

unfoldable pub get_next_linked : FatTable → ℕ → Outcome ℕ
get_next_linked fat cluster_no = if is_eoc cluster_no then ok fat.eoc else entry fat cluster_no

unfoldable pub get_last_linked : ℕ → FatTable → ℕ → Outcome ℕ
unfolding last_of_chain
get_last_linked rounds fat cluster_no =
    if is_eoc cluster_no then ok fat.eoc else last_of_chain rounds fat cluster_no

-- FAT_read_table: the sectors of the table, numbered from 32.
unfoldable pub table_sectors : BootSector → (rounds cur_sector : ℕ) → List Sector
table_sectors boot zero cur_sector = []
table_sectors boot (suc rounds) cur_sector =
    record {
      number = cur_sector;
      size = boot.bytes_per_sector;
      data_offset = (cur_sector - 32) * boot.bytes_per_sector;
      modified = false;
    }
    ∷ table_sectors boot rounds (cur_sector + 1)

-- `read` is what `ppd_read_sectors` returned for the sectors 32 up to 31 + sectors_perFat32, as
-- 32-bit entries. `fat.EOC` is the second entry; the assertion compares the first byte.
unfoldable pub read_table : BootSector → List ℕ → Outcome FatTable
unfolding table_sectors
read_table boot read = do
  eoc ← need (get_elem? read 1)
  first ← need (get_elem? read 0)
  if first % 256 == boot.media_descriptor
      then ok (record {
        table = read;
        sectors = table_sectors boot boot.sectors_per_fat32 32;
        size = boot.bytes_per_sector * boot.sectors_per_fat32 % 2 ^ 32 / 4;
        eoc = eoc;
      })
      else fault

-- FAT_write_table: the sectors that are sent, and the flags cleared.
unfoldable pub modified_sectors : List Sector → List Sector
modified_sectors [] = []
modified_sectors (s ∷ ss) = if s.modified then s ∷ modified_sectors ss else modified_sectors ss

unfoldable pub clear_modified : List Sector → List Sector
clear_modified [] = []
clear_modified (s ∷ ss) = record s { modified = false } ∷ clear_modified ss

unfoldable pub write_table : FatTable → FatTable × List Sector
unfolding modified_sectors clear_modified
write_table fat =
    (record fat { sectors = clear_modified fat.sectors }, modified_sectors fat.sectors)
