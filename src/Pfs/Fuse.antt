-- ===== src/Pfs/Fuse.antt =====
-- The operations that PFS gives to FUSE (PFS/src/pfs.c). The state is the volume and the queue of the
-- open files, each with its cache.
use fuselage_fat32_utn.Prelude.{
  Option, ℕ, ◌+◌, ◌-◌, ◌%◌, List, [], ◌∷◌, ◌==◌, ltb, map, if◌then◌else◌, length, same_string,
  u32_mod, not, ◌&&◌,
}
use fuselage_fat32_utn.Prelude.Outcome.{Outcome, ok, ◌>>=◌}
use fuselage_fat32_utn.Pfs.BootSector.{BootSector}
use fuselage_fat32_utn.Pfs.Volume.{Volume}
use fuselage_fat32_utn.Pfs.DirEntry.{Tm, get_cluster_number}
use fuselage_fat32_utn.Pfs.LfnEntry.{Unicode}
use fuselage_fat32_utn.Pfs.Directory.{Malloc}
use fuselage_fat32_utn.Pfs.Lookup.{read_directory, get_file_entry}
use fuselage_fat32_utn.Pfs.FileEntry
use fuselage_fat32_utn.Pfs.FileEntry.{FileEntry, OpenedFile}
use fuselage_fat32_utn.Pfs.Files
use fuselage_fat32_utn.Pfs.Rename.{rename}
use fuselage_fat32_utn.Pfs.Attributes.{Stat, getattr}
use fuselage_fat32_utn.Pfs.FileIo.{Session, read}
use fuselage_fat32_utn.Pfs.FileWrite.{write_within, flush_session}

-- What does not change: the boot sector, the size of a cache, the fuel, and the parameters of the
-- operations.
pub record Env : Type 0 where
  pub boot : BootSector
  pub cache_size_in_bytes : ℕ
  pub rounds : ℕ
  pub malloc : Malloc
  pub icu : Unicode
  pub behind : List ℕ

pub record Mount : Type 0 where
  pub volume : Volume
  pub opened_files : List OpenedFile

abbrev pub opened : Env → (path : List ℕ) → Mount → Outcome (Mount × OpenedFile)
opened env path m = do
  (files, file) ←
      FileEntry.get env.cache_size_in_bytes
        (get_file_entry env.rounds env.icu env.malloc m.volume path) path m.opened_files
  ok (record m { opened_files = files }, file)

-- What is done through the pointer that OFILE_get returned.
unfoldable pub update_opened : OpenedFile → List OpenedFile → List OpenedFile
update_opened file [] = []
update_opened file (f ∷ files) =
    if same_string f.path file.path then file ∷ files else f ∷ update_opened file files

abbrev pub session : Mount → OpenedFile → Session
session m file = record { volume = m.volume; cache = file.cache }

abbrev pub leave : Session → OpenedFile → Mount → Mount
leave s file m = record {
  volume = s.volume;
  opened_files = update_opened (record file { cache = s.cache }) m.opened_files;
}

-- fuselage_read
unfoldable pub fuselage_read :
    Env
    → (clock : ℕ → ℕ) → (path : List ℕ) → (bytes_to_read offset : ℕ) → Mount
    → Outcome (Mount × List ℕ)
unfolding FileEntry.get get_file_entry read update_opened
fuselage_read env clock path bytes_to_read offset m = do
  (m, file) ← opened env path m
  let entry = file.file_entry.dir_entry
  (bytes, s) ←
      read clock env.cache_size_in_bytes env.boot entry.file_size (get_cluster_number entry)
        bytes_to_read offset (session m file)
  ok (leave s file m, bytes)

abbrev pub with_size : ℕ → OpenedFile → OpenedFile
with_size size file =
    let entry = record file.file_entry.dir_entry { file_size = size } in
    record file { file_entry = record file.file_entry { dir_entry = entry } }

-- The call of fat32_truncate, of which an open file takes the size and nothing else.
unfoldable pub resize_opened :
    Env → (path : List ℕ) → (new_size : ℕ) → OpenedFile → Mount → Outcome (Mount × OpenedFile)
unfolding Files.truncate update_opened
resize_opened env path new_size file m = do
  (v, sent, size) ← Files.truncate env.rounds env.boot env.malloc env.icu path new_size m.volume
  let file = with_size size file
  ok (record { volume = v; opened_files = update_opened file m.opened_files }, file)

-- fuselage_truncate
unfoldable pub fuselage_truncate : Env → (path : List ℕ) → (new_size : ℕ) → Mount → Outcome Mount
unfolding FileEntry.get get_file_entry resize_opened
fuselage_truncate env path new_size m = do
  (m, file) ← opened env path m
  (m, file) ← resize_opened env path new_size file m
  ok m

-- fuselage_write
unfoldable pub fuselage_write :
    Env → (clock : ℕ → ℕ) → (path bytes : List ℕ) → (offset : ℕ) → Mount → Outcome (Mount × ℕ)
unfolding FileEntry.get get_file_entry resize_opened write_within update_opened
fuselage_write env clock path bytes offset m = do
  (m, file) ← opened env path m
  (m, file) ←
      (if ltb file.file_entry.dir_entry.file_size (offset + length bytes)
        then resize_opened env path (offset + length bytes) file m
        else ok (m, file))
  s ←
      write_within clock env.cache_size_in_bytes env.boot
        (get_cluster_number file.file_entry.dir_entry) offset bytes (session m file)
  ok (leave s file m, length bytes)

-- fuselage_flush
unfoldable pub fuselage_flush : Env → (path : List ℕ) → Mount → Outcome Mount
unfolding FileEntry.get get_file_entry flush_session update_opened
fuselage_flush env path m = do
  (m, file) ← opened env path m
  ok (leave (flush_session (session m file)) file m)

-- fuselage_open, but for what it writes to the log.
unfoldable pub fuselage_open : Env → (path : List ℕ) → Mount → Outcome Mount
unfolding FileEntry.get get_file_entry update_opened
fuselage_open env path m = do
  (m, file) ← opened env path m
  let file = record file { open_count = (file.open_count + 1) % u32_mod }
  ok (record m { opened_files = update_opened file m.opened_files })

-- fuselage_release
unfoldable pub fuselage_release : Env → (path : List ℕ) → Mount → Outcome Mount
unfolding FileEntry.get get_file_entry update_opened fuselage_flush
fuselage_release env path m = do
  (m, file) ← opened env path m
  let left = (file.open_count + u32_mod - 1) % u32_mod
  let file = record file { open_count = left }
  let m : Mount = record m { opened_files = update_opened file m.opened_files }
  if left == 0 && not (file.cache_size == 0) then fuselage_flush env path m else ok m

-- fuselage_create and fuselage_mkdir
unfoldable pub fuselage_make :
    Env → (now : Tm) → (dir_or_archive : ℕ) → (path : List ℕ) → Mount → Outcome Mount
unfolding Files.mk
fuselage_make env now dir_or_archive path m = do
  (v, sent) ←
      Files.mk env.rounds env.boot env.malloc env.icu now env.behind path dir_or_archive m.volume
  ok (record m { volume = v })

-- fuselage_rmdir and fuselage_unlink
unfoldable pub fuselage_remove : Env → (path : List ℕ) → Mount → Outcome Mount
unfolding Files.remove
fuselage_remove env path m = do
  (v, sent) ← Files.remove env.rounds env.boot env.malloc env.icu path m.volume
  ok (record m { volume = v })

-- fuselage_readdir: the names that the filler gets.
unfoldable pub fuselage_readdir : Env → (path : List ℕ) → Mount → Outcome (List (List ℕ))
unfolding read_directory
fuselage_readdir env path m = do
  files ← read_directory env.rounds env.icu env.malloc m.volume path
  ok (map (λ (f : FileEntry). f.long_file_name) files)

-- fuselage_getattr; `none` is -ENOENT.
unfoldable pub fuselage_getattr :
    Env → (mktime : Tm → ℕ) → (path : List ℕ) → (stbuf : Stat) → Mount → Outcome (Option Stat)
unfolding getattr
fuselage_getattr env mktime path stbuf m =
    getattr env.rounds env.icu env.malloc mktime path stbuf m.volume

-- fuselage_rename. The open files keep their paths.
unfoldable pub fuselage_rename : Env → (cur_name new_name : List ℕ) → Mount → Outcome Mount
unfolding rename
fuselage_rename env cur_name new_name m = do
  v ← rename env.rounds env.icu env.malloc env.behind cur_name new_name m.volume
  ok (record m { volume = v })
