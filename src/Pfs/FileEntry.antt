-- ===== src/Pfs/FileEntry.antt =====
-- Files as their directory shows them, and the files that are open (PFS/src/tad_file.c,
-- PFS/include/tad_file.h). The two names of a file are lists of characters.
use fuselage_fat32_utn.Prelude.{
  ℕ, Bool, List, [], ◌∷◌, ◌++◌, Option, none, some, if◌then◌else◌, same_string,
}
use fuselage_fat32_utn.Prelude.Outcome.{Outcome, ok, ◌>>=◌, need}
use fuselage_fat32_utn.Pfs.DirEntry.{DirEntry}
use fuselage_fat32_utn.Pfs.LfnEntry.{LfnEntry}
use fuselage_fat32_utn.Pfs.FileCache.{Block}

pub record FileEntry : Type 0 where
  pub long_file_name : List ℕ
  pub has_lfn : Bool
  pub cluster : ℕ
  pub offset : ℕ
  pub lfn_entry : LfnEntry
  pub dir_entry : DirEntry

pub record OpenedFile : Type 0 where
  pub path : List ℕ
  pub file_entry : FileEntry
  pub cache : List Block
  pub cache_size : ℕ
  pub open_count : ℕ

-- OFILE_add_new: the file stands at the end of the queue of the open files.
abbrev pub add_new : (cache_size_in_bytes : ℕ) → (path : List ℕ) → FileEntry → OpenedFile
add_new cache_size_in_bytes path file_entry = record {
  path = path;
  file_entry = file_entry;
  cache = [];
  cache_size = cache_size_in_bytes;
  open_count = 0;
}

-- The loop of OFILE_get.
unfoldable pub find_opened : (path : List ℕ) → List OpenedFile → Option OpenedFile
find_opened path [] = none
find_opened path (file ∷ files) =
    if same_string file.path path then some file else find_opened path files

-- OFILE_get, with what fat32_getFileEntry finds, whose NULL is read through: the queue and the file.
unfoldable pub get :
    (cache_size_in_bytes : ℕ)
    → (file_entry : Outcome (Option FileEntry)) → (path : List ℕ) → List OpenedFile
    → Outcome (List OpenedFile × OpenedFile)
unfolding find_opened
get cache_size_in_bytes file_entry path opened_files = elim (find_opened path opened_files) [
  | some file ↦ ok (opened_files, file)
  | none ↦ do
    entry ← file_entry
    entry ← need entry
    ok (
      opened_files ++ add_new cache_size_in_bytes path entry ∷ [],
      add_new cache_size_in_bytes path entry,
    )
]
