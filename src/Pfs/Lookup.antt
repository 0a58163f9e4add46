-- ===== src/Pfs/Lookup.antt =====
-- The search for a file by its path (fat32_readDirectory and fat32_getFileEntry of
-- PFS/src/pfs_fat32.c). `rounds` is the fuel of the loops over a chain.
use fuselage_fat32_utn.Prelude.{
  ℕ, ◌-◌, Bool, true, false, not, Option, none, some, List, [], ◌∷◌, ◌++◌, ◌==◌, ◌&&◌,
  if◌then◌else◌, length, take, get_elem?, same_string,
}
use fuselage_fat32_utn.Prelude.Outcome.{Outcome, ok, fault, ◌>>=◌, need}
use fuselage_fat32_utn.Pfs.Fat.{get_linked_clusters}
use fuselage_fat32_utn.Pfs.Volume.{Volume}
use fuselage_fat32_utn.Pfs.DirEntry.{get_cluster_number}
use fuselage_fat32_utn.Pfs.LfnEntry.{Unicode}
use fuselage_fat32_utn.Pfs.FileEntry.{FileEntry}
use fuselage_fat32_utn.Pfs.Directory.{Malloc, interpret_from_cluster}
use fuselage_fat32_utn.Pfs.FilePath.{tokens_from, split_name_from_path}

-- The queue of the files so far, and whether its `end` is a node: that of an empty queue is NULL,
-- and the code takes it from the files of the last cluster.
pub record FileList : Type 0 where
  pub files : List FileEntry
  pub has_end : Bool

abbrev pub is_empty : List FileEntry → Bool
is_empty [] = true
is_empty (f ∷ files) = false

-- `partial_list` put behind `file_list`.
abbrev pub join : FileList → List FileEntry → Outcome FileList
join list partial =
    if is_empty list.files
    then ok (record { files = partial; has_end = not (is_empty partial) })
    else if list.has_end
    then ok (record { files = list.files ++ partial; has_end = not (is_empty partial) })
    else fault

-- The loop over the clusters of a directory.
unfoldable pub collect :
    Unicode → Malloc → Volume → (clusters : List ℕ) → FileList → Outcome (List FileEntry)
unfolding interpret_from_cluster
collect icu malloc v [] list = ok list.files
collect icu malloc v (cluster ∷ clusters) list = do
  partial ← interpret_from_cluster icu malloc cluster (v.contents cluster)
  list ← join list partial
  collect icu malloc v clusters list

unfoldable pub read_table_of :
    (rounds : ℕ) → Unicode → Malloc → Volume → (first_cluster : ℕ) → Outcome (List FileEntry)
unfolding collect get_linked_clusters
read_table_of rounds icu malloc v first_cluster = do
  clusters ← get_linked_clusters rounds v.fat first_cluster
  collect icu malloc v clusters (record { files = []; has_end = false })

-- The loop over the files of a directory for the next piece of the path.
unfoldable pub find_directory : (token : List ℕ) → List FileEntry → Option FileEntry
find_directory token [] = none
find_directory token (f ∷ files) =
    if same_string f.long_file_name token && f.dir_entry.subdirectory
    then some f
    else find_directory token files

-- The loop over the pieces of the path. When one is not found, the queue is empty.
unfoldable pub descend :
    (rounds : ℕ)
    → Unicode
    → Malloc
    → Volume
    → (tokens : List (List ℕ)) → List FileEntry
    → Outcome (List FileEntry)
unfolding find_directory read_table_of
descend rounds icu malloc v [] files = ok files
descend rounds icu malloc v (token ∷ tokens) files = elim (find_directory token files) [
  | none ↦ ok []
  | some f ↦ do
    files ← read_table_of rounds icu malloc v (get_cluster_number f.dir_entry)
    descend rounds icu malloc v tokens files
]

-- A path without a piece, where `strcmp` gets NULL for the first file of the root.
abbrev pub walk :
    (rounds : ℕ)
    → Unicode
    → Malloc
    → Volume
    → (tokens : List (List ℕ)) → List FileEntry
    → Outcome (List FileEntry)
walk rounds icu malloc v [] files = if is_empty files then ok [] else fault
walk rounds icu malloc v (token ∷ tokens) files = descend rounds icu malloc v (token ∷ tokens) files

-- `fullpath`: the path without a slash at its end.
abbrev pub without_slash : List ℕ → Outcome (List ℕ)
without_slash path = do
  last ← need (get_elem? path (length path - 1))
  ok (if last == b'/' && not (length path == 1) then take (length path - 1) path else path)

unfoldable pub read_directory :
    (rounds : ℕ) → Unicode → Malloc → Volume → (path : List ℕ) → Outcome (List FileEntry)
unfolding descend tokens_from read_table_of
read_directory rounds icu malloc v path = do
  fullpath ← without_slash path
  files ← read_table_of rounds icu malloc v 2
  if same_string fullpath (b'/' ∷ [])
      then ok files
      else walk rounds icu malloc v (tokens_from [] fullpath) files

-- The loop of fat32_getFileEntry.
unfoldable pub find_named : (filename : List ℕ) → List FileEntry → Option FileEntry
find_named filename [] = none
find_named filename (f ∷ files) =
    if same_string f.long_file_name filename then some f else find_named filename files

unfoldable pub get_file_entry :
    (rounds : ℕ) → Unicode → Malloc → Volume → (path : List ℕ) → Outcome (Option FileEntry)
unfolding split_name_from_path read_directory find_named
get_file_entry rounds icu malloc v path = do
  (filename, location) ← split_name_from_path path
  files ← read_directory rounds icu malloc v location
  ok (find_named filename files)
