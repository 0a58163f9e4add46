-- ===== src/Pfs/Files/Tests.antt =====
-- A file made in a root directory of one file.
use fuselage_fat32_utn.Prelude.{
  ◌∙◌, All, none, get_elem?, ap, some-inj, ◌≢◌, get_elem?, ℕ, ◌≡◌, refl, arith, true, some, List,
  [], ◌∷◌, ◌++◌, replicate,
}
use fuselage_fat32_utn.Prelude.Outcome.{ok}
use fuselage_fat32_utn.Pfs.Fat.{get_linked_clusters, is_eoc}
use fuselage_fat32_utn.Pfs.Fat.{Sector}
use fuselage_fat32_utn.Pfs.Fat.Valid.{IsValid}
use fuselage_fat32_utn.Pfs.Fat.Sectors.{IsReadable, search-read_table}
use fuselage_fat32_utn.Pfs.Fat.Tests.{boot, table_of}
use fuselage_fat32_utn.Pfs.Volume.{Volume}
use fuselage_fat32_utn.Pfs.DirEntry.{Tm, archive_attr, get_cluster_number}
use fuselage_fat32_utn.Pfs.LfnEntry.Tests.{plain, plain-IsUnicode}
use fuselage_fat32_utn.Pfs.FileEntry.{FileEntry}
use fuselage_fat32_utn.Pfs.Directory.Tests.{slot, slot-IsSlot, malloc}
use fuselage_fat32_utn.Pfs.Directory.Listing.{slots_bytes, files_of}
use fuselage_fat32_utn.Pfs.Lookup.{get_file_entry, read_directory}
use fuselage_fat32_utn.Pfs.Files
use fuselage_fat32_utn.Pfs.Files.{mk}
use fuselage_fat32_utn.Pfs.Files.Removed.{get_file_entry-remove}
use fuselage_fat32_utn.Pfs.Files.Root.{get_file_entry-mk}

abbrev pub volume : Volume
volume = record {
  fat = table_of (0x0FFFFFF8 ∷ 0x0FFFFFFF ∷ 0x0FFFFFFF ∷ 0 ∷ 0 ∷ 0 ∷ 0 ∷ 0 ∷ []);
  contents = λ c. slots_bytes (slot ∷ []) ++ replicate 4032 0;
}

abbrev now : Tm
now = record { tm_sec = 30; tm_min = 59; tm_hour = 23; tm_mday = 31; tm_mon = 11; tm_year = 111 }

-- The name of the new file, and what memory holds behind it.
abbrev pub name : List ℕ
name = b'c' ∷ b'd' ∷ []

abbrev pub behind : List ℕ
behind = 1 ∷ 2 ∷ 3 ∷ 4 ∷ 5 ∷ []

pub one_cluster : get_linked_clusters 8 volume.fat 2 ≡ ok (2 ∷ [])
unfolding get_linked_clusters is_eoc
one_cluster = refl

pub other_name : slot.name ≢ name
other_name e =
    let first : b'a' ≡ b'c' = some-inj (ap (λ l. get_elem? l 0) e) in omega (arith, first)

get_file_entry-mk_example :
    (v' : Volume) × (f : FileEntry) × (mk 8 boot malloc plain now behind
        (b'/' ∷ name)
        archive_attr
        volume
      ≡ ok (v', []))
    × (get_file_entry 8 plain malloc v' (b'/' ∷ name) ≡ ok (some f))
    × (f.long_file_name ≡ name)
    × (get_cluster_number f.dir_entry ≡ 0)
    × (f.dir_entry.file_size ≡ 0)
    × (f.dir_entry.archive ≡ true)
    × (v'.fat ≡ volume.fat)
get_file_entry-mk_example =
    get_file_entry-mk 8 boot malloc plain now behind name (slot ∷ []) 4032 volume plain-IsUnicode
      (omega arith, (omega arith, tt)) (omega arith, (omega arith, tt))
      (omega arith, (omega arith, tt)) (omega arith) (omega arith) (omega arith) one_cluster
      (slot-IsSlot, tt) ((b'A', refl, omega arith), tt) (other_name, tt) refl (omega arith)
      (omega arith)

-- The file of the directory has the clusters 3 and 4.
abbrev linked : List ℕ
linked = 0x0FFFFFF8 ∷ 0x0FFFFFFF ∷ 0x0FFFFFFF ∷ 4 ∷ 0x0FFFFFFF ∷ 0 ∷ 0 ∷ 0 ∷ []

linked-IsReadable : IsReadable boot linked 4
unfolding is_eoc
linked-IsReadable = record {
  word = refl;
  some_entries = omega arith;
  whole = refl;
  small = omega arith;
  mark = (0x0FFFFFFF, refl, refl);
  media = (0x0FFFFFF8, refl, refl);
}

linked-IsValid : IsValid boot (table_of linked)
unfolding is_eoc
linked-IsValid = record {
  sized = refl;
  small = omega arith;
  mark = refl;
  covers = λ c h q. cc (search-read_table boot linked 4 linked-IsReadable c h);
}

abbrev full : Volume
full = record volume { fat = table_of linked }

two_clusters : get_linked_clusters 8 full.fat 3 ≡ ok (3 ∷ 4 ∷ [])
unfolding get_linked_clusters is_eoc
two_clusters = refl

is_mark : is_eoc 0x0FFFFFFF ≡ true
unfolding is_eoc
is_mark = refl

is_three : get_cluster_number slot.entry ≡ 3
unfolding get_cluster_number
is_three = refl

get_file_entry-remove_example :
    (v' : Volume) × (sent : List Sector) × (Files.remove 8 boot malloc plain (b'/' ∷ slot.name) full
      ≡ ok (v', sent))
    × (get_file_entry 8 plain malloc v' (b'/' ∷ slot.name) ≡ ok none)
    × (read_directory 8 plain malloc v' (b'/' ∷ []) ≡ ok (files_of 2 0 []))
    × All (λ c. get_elem? v'.fat.table c ≡ some 0) (3 ∷ 4 ∷ [])
    × ((d : ℕ)
        → All (λ c. c ≢ d) (3 ∷ 4 ∷ [])
        → get_elem? v'.fat.table d ≡ get_elem? full.fat.table d)
    × ((c : ℕ) → c ≢ 2 → v'.contents c ≡ full.contents c)
unfolding files_of
get_file_entry-remove_example =
    get_file_entry-remove 8 0x0FFFFFFF boot plain malloc [] slot [] (replicate 4031 0) (3 ∷ 4 ∷ [])
      full linked-IsValid refl is_mark (ap (get_linked_clusters 8 full.fat) is_three ∙ two_clusters)
      (omega arith, (omega arith, tt)) (omega arith, (omega arith, tt)) tt slot-IsSlot tt tt tt
      (omega arith, (omega arith, tt)) refl
