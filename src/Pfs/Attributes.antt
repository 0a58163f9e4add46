-- ===== src/Pfs/Attributes.antt =====
-- The attributes of a file (fuselage_getattr of PFS/src/pfs.c). `mktime` makes a time of the library's
-- fields.
use fuselage_fat32_utn.Prelude.{
  ℕ, ◌+◌, Option, none, some, List, [], ◌∷◌, if◌then◌else◌, same_string,
}
use fuselage_fat32_utn.Prelude.Outcome.{Outcome, ok, ◌>>=◌}
use fuselage_fat32_utn.Pfs.Volume.{Volume}
use fuselage_fat32_utn.Pfs.DirEntry.{DirEntry, Tm, convert_date_time, get_cluster_number}
use fuselage_fat32_utn.Pfs.LfnEntry.{Unicode}
use fuselage_fat32_utn.Pfs.FileEntry.{FileEntry}
use fuselage_fat32_utn.Pfs.Directory.{Malloc}
use fuselage_fat32_utn.Pfs.Lookup.{get_file_entry}

-- `struct stat`, the fields that the function writes.
pub record Stat : Type 0 where
  pub st_blksize : ℕ
  pub st_mode : ℕ
  pub st_nlink : ℕ
  pub st_size : ℕ
  pub st_ino : ℕ
  pub st_ctim : ℕ
  pub st_atim : ℕ
  pub st_mtim : ℕ

-- `S_IFDIR | 0755` and `S_IFREG | 0666`
abbrev pub directory_mode : ℕ
directory_mode = 16384 + 493

abbrev pub file_mode : ℕ
file_mode = 32768 + 438

abbrev pub with_times : (mktime : Tm → ℕ) → DirEntry → Stat → Stat
with_times mktime e stbuf =
    let created = mktime (convert_date_time e.create_date e.create_time) in
    record stbuf { st_ctim = created; st_atim = created; st_mtim = created }

-- What a directory entry says.
unfoldable pub attributes : (mktime : Tm → ℕ) → DirEntry → Stat → Stat
unfolding get_cluster_number convert_date_time
attributes mktime e stbuf =
    if e.subdirectory
    then with_times mktime e
        (record stbuf { st_mode = directory_mode; st_nlink = 2; st_size = 4096 })
    else if e.archive
    then with_times mktime e (record stbuf {
      st_mode = file_mode;
      st_nlink = 1;
      st_size = e.file_size;
      st_ino = get_cluster_number e;
    })
    else stbuf

abbrev pub of_file : (mktime : Tm → ℕ) → Stat → Option FileEntry → Option Stat
of_file mktime stbuf none = none
of_file mktime stbuf (some file) = some (attributes mktime file.dir_entry stbuf)

-- fuselage_getattr; `none` is -ENOENT. Of the root it says no size and no time.
unfoldable pub getattr :
    (rounds : ℕ)
    → Unicode
    → Malloc
    → (mktime : Tm → ℕ) → (path : List ℕ) → (stbuf : Stat) → Volume
    → Outcome (Option Stat)
unfolding get_file_entry attributes
getattr rounds icu malloc mktime path stbuf v =
    let stbuf = record stbuf { st_blksize = 4096 } in
    if same_string path (b'/' ∷ [])
    then ok (some (record stbuf { st_mode = directory_mode; st_nlink = 2 }))
    else (do file ← get_file_entry rounds icu malloc v path; ok (of_file mktime stbuf file))
