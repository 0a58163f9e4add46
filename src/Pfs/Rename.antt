-- ===== src/Pfs/Rename.antt =====
-- Giving a file another name (fuselage_rename of PFS/src/pfs.c). `behind` is what memory holds behind
-- the zero that ends the new name, and `rounds` is the fuel of the loops over a chain.
pub mod Here
mod Tests
use fuselage_fat32_utn.Prelude.{
  ℕ, ◌+◌, Option, none, some, List, [], ◌∷◌, if◌then◌else◌, paste, same_string, is_none,
}
use fuselage_fat32_utn.Prelude.Outcome.{Outcome, ok, ◌>>=◌, need}
use fuselage_fat32_utn.Pfs.Volume.{Volume, write_cluster}
use fuselage_fat32_utn.Pfs.DirEntry.{get_cluster_number, set_dos_name}
use fuselage_fat32_utn.Pfs.DirEntry.Bytes.{entry_bytes}
use fuselage_fat32_utn.Pfs.LfnEntry.{Unicode, set_name_chars, lfn_bytes}
use fuselage_fat32_utn.Pfs.FilePath.{split_name_from_path}
use fuselage_fat32_utn.Pfs.FileEntry.{FileEntry}
use fuselage_fat32_utn.Pfs.Directory.{Malloc}
use fuselage_fat32_utn.Pfs.Lookup.{get_file_entry}
use fuselage_fat32_utn.Pfs.Files.{find_slot}

-- The entries of a file in the data of a directory's cluster, from a place on.
abbrev pub put_entries : FileEntry → (place : ℕ) → List ℕ → Outcome (List ℕ)
put_entries file place bytes =
    if file.has_lfn
    then (do
      bytes ← paste place (lfn_bytes file.lfn_entry) bytes
      paste (place + 32) (entry_bytes file.dir_entry) bytes)
    else paste place (entry_bytes file.dir_entry) bytes

-- The branch of a name in the same directory.
unfoldable pub rename_here :
    Unicode → (behind new_filename : List ℕ) → FileEntry → Volume → Outcome Volume
unfolding set_name_chars set_dos_name
rename_here icu behind new_filename file v = do
  lfn ← (if file.has_lfn then set_name_chars icu new_filename file.lfn_entry else ok file.lfn_entry)
  entry ← set_dos_name (0 ∷ behind) new_filename file.dir_entry
  bytes ←
      put_entries (record file { lfn_entry = lfn; dir_entry = entry }) file.offset
        (v.contents file.cluster)
  ok (write_cluster file.cluster bytes v)

-- The branch of another directory, whose first cluster is searched for a free entry. The data of both
-- clusters are those from before the first one is written.
unfoldable pub move :
    (rounds : ℕ)
    → Unicode
    → Malloc
    → (behind new_filename new_path : List ℕ) → FileEntry
    → Volume
    → Outcome Volume
unfolding set_name_chars set_dos_name get_file_entry find_slot
move rounds icu malloc behind new_filename new_path file v = do
  lfn ← set_name_chars icu new_filename file.lfn_entry
  entry ← set_dos_name (0 ∷ behind) new_filename file.dir_entry
  directory ← get_file_entry rounds icu malloc v new_path
  directory ← need directory
  let target = get_cluster_number directory.dir_entry
  left ← paste file.offset (0xE5 ∷ []) (v.contents file.cluster)
  left ← (if file.has_lfn then paste (file.offset + 32) (0xE5 ∷ []) left else ok left)
  slot ← find_slot 127 0 (v.contents target)
  bytes ← elim slot [
    | none ↦ ok (v.contents target)
    | some place ↦
        put_entries (record file { lfn_entry = lfn; dir_entry = entry }) place (v.contents target)
  ]
  ok (write_cluster target bytes (write_cluster file.cluster left v))

-- The branch in which no file has the new name.
unfoldable pub rename_to :
    (rounds : ℕ) → Unicode → Malloc → (behind cur_name new_name : List ℕ) → Volume → Outcome Volume
unfolding split_name_from_path get_file_entry rename_here move
rename_to rounds icu malloc behind cur_name new_name v = do
  (new_filename, new_path) ← split_name_from_path new_name
  (filename, path) ← split_name_from_path cur_name
  file ← get_file_entry rounds icu malloc v cur_name
  file ← need file
  if same_string path new_path
      then rename_here icu behind new_filename file v
      else move rounds icu malloc behind new_filename new_path file v

-- fuselage_rename
unfoldable pub rename :
    (rounds : ℕ) → Unicode → Malloc → (behind cur_name new_name : List ℕ) → Volume → Outcome Volume
unfolding get_file_entry rename_to
rename rounds icu malloc behind cur_name new_name v = do
  other ← get_file_entry rounds icu malloc v new_name
  if is_none other then rename_to rounds icu malloc behind cur_name new_name v else ok v
