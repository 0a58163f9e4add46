-- ===== src/Pfs/Directory.antt =====
-- Directories (DIRTABLE_interpretFromCluster of PFS/src/tad_direntry.c, and the parts of `string.h`
-- that it uses). The data of a cluster are a
-- list of bytes, and a read past their end is a fault. What `malloc` leaves in the memory that it
-- returns is an argument.
pub mod Listing
pub mod Deleted
pub mod Tests
use fuselage_fat32_utn.Prelude.{
  ℕ, zero, suc, ◌+◌, ◌-◌, ◌%◌, ◌/◌, Bool, true, false, Option, none, some, List, [], ◌∷◌, ◌++◌,
  ◌==◌, ◌&&◌, ◌||◌, ltb, if◌then◌else◌, length, take, drop, set, get_elem?, paste, replicate,
  c_string, same_string,
}
use fuselage_fat32_utn.Prelude.Outcome.{Outcome, ok, fault, out_of_fuel, ◌>>=◌, ◌>>◌, need}
use fuselage_fat32_utn.Pfs.BootSector.{BootSector}
use fuselage_fat32_utn.Pfs.Fat.{FatTable, get_linked_clusters}
use fuselage_fat32_utn.Pfs.Volume.{Volume}
use fuselage_fat32_utn.Pfs.DirEntry.{DirEntry, get_cluster_number}
use fuselage_fat32_utn.Pfs.DirEntry.Bytes.{read_entry}
use fuselage_fat32_utn.Pfs.LfnEntry.{LfnEntry, Unicode, read_lfn, get_string}
use fuselage_fat32_utn.Pfs.FileEntry.{FileEntry}
use fuselage_fat32_utn.Pfs.FilePath.{tokens_from, split_name_from_path}

-- What lies in a new `fat32file_t` and in 13 new bytes.
pub record Malloc : Type 0 where
  pub file : FileEntry
  pub bytes : List ℕ

-- `strncpy(to, from, n)`: the bytes that are written, with zeros behind the end of the string.
abbrev pub strncpy : ℕ → List ℕ → Outcome (List ℕ)
strncpy zero from = ok []
strncpy (suc n) [] = fault
strncpy (suc n) (c ∷ from) =
    if c == 0 then ok (replicate (suc n) 0) else (do rest ← strncpy n from; ok (c ∷ rest))

-- `strchr(string, ' ')`: the index; `none` is NULL.
abbrev pub find_space : List ℕ → Outcome (Option ℕ)
find_space [] = fault
find_space (c ∷ cs) =
    if c == b' '
    then ok (some 0)
    else if c == 0
    then ok none
    else (do found ← find_space cs; ok (next found))
  where
    next : Option ℕ → Option ℕ
    next none = none
    next (some i) = some (suc i)

-- The name of an entry without a long name, from the memory at the entry.
unfoldable pub dos_long_name : Malloc → List ℕ → Outcome (List ℕ)
dos_long_name malloc memory = do
  dos_name ← strncpy 8 memory
  name ← paste 0 dos_name malloc.bytes
  space ← find_space name
  elim space [
    | some i ↦ do
      extension ← c_string (drop 8 memory)
      name ← paste i (b'.' ∷ []) name
      name ← paste (i + 1) extension name
      name ← paste (i + length extension) (0 ∷ []) name
      c_string name
    | none ↦ do
      extension ← strncpy 3 (drop 8 memory)
      name ← paste 8 (b'.' ∷ []) name
      name ← paste 9 extension name
      c_string name
  ]

-- The loop of DIRTABLE_interpretFromCluster over the memory from an entry on, at `offset`.
unfoldable pub interpret_from :
    (rounds : ℕ)
    → Unicode
    → Malloc
    → (cluster offset : ℕ) → (memory : List ℕ) → Outcome (List FileEntry)
interpret_from zero icu malloc cluster offset memory = out_of_fuel
interpret_from (suc rounds) icu malloc cluster offset memory =
    let long = (do
      lfn ← read_lfn memory
      name ← get_string icu lfn
      entry ← read_entry (drop 32 memory)
      files ← interpret_from rounds icu malloc cluster (offset + 64) (drop 64 memory)
      ok (
          record {
            long_file_name = name;
            has_lfn = true;
            cluster = cluster;
            offset = offset;
            lfn_entry = lfn;
            dir_entry = entry;
          }
          ∷ files)) in
    let short = (do
      name ← dos_long_name malloc memory
      entry ← read_entry memory
      files ← interpret_from rounds icu malloc cluster (offset + 32) (drop 32 memory)
      ok (
          record malloc.file {
            long_file_name = name;
            has_lfn = false;
            cluster = cluster;
            offset = offset;
            dir_entry = entry;
          }
          ∷ files)) in
    let deleted = interpret_from rounds icu malloc cluster (offset + 32) (drop 32 memory) in
    (do
      first ← need (get_elem? memory 0)
      if first == 0
          then ok []
          else if first == 0xE5
          then deleted
          else if first % 64 == 1 && ltb first 128
          then long
          else short)

-- The entries "." and ".." at the start of a directory that is not the root.
abbrev pub point_entries : Malloc → (cluster : ℕ) → (memory : List ℕ) → Outcome (List FileEntry)
point_entries malloc cluster memory = do
  point ← read_entry memory
  pointpoint ← read_entry (drop 32 memory)
  ok (
      record malloc.file {
        long_file_name = b'.' ∷ [];
        cluster = cluster;
        offset = 0;
        dir_entry = point;
      }
      ∷ record malloc.file {
        long_file_name = b'.' ∷ b'.' ∷ [];
        cluster = cluster;
        offset = 32;
        dir_entry = pointpoint;
      }
      ∷ [])

-- DIRTABLE_interpretFromCluster. Each round passes 32 bytes at least.
unfoldable pub interpret_from_cluster :
    Unicode → Malloc → (cluster : ℕ) → (bytes : List ℕ) → Outcome (List FileEntry)
interpret_from_cluster icu malloc cluster bytes =
    let rounds = suc (length bytes) in
    let sub = (do
      points ← point_entries malloc cluster bytes
      files ← interpret_from rounds icu malloc cluster 64 (drop 64 bytes)
      ok (points ++ files)) in
    let root = interpret_from rounds icu malloc cluster 0 bytes in
    (do first ← need (get_elem? bytes 0); if first == b'.' then sub else root)
