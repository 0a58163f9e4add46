-- ===== src/Pfs/Rename/Tests.antt =====
-- The one file of a root directory gets another name.
use fuselage_fat32_utn.Prelude.{ℕ, ◌≡◌, ◌≢◌, refl, arith, some, none, [], ◌∷◌, replicate}
use fuselage_fat32_utn.Prelude.Outcome.{ok}
use fuselage_fat32_utn.Pfs.Volume.{Volume}
use fuselage_fat32_utn.Pfs.DirEntry.{get_cluster_number}
use fuselage_fat32_utn.Pfs.LfnEntry.Tests.{plain, plain-IsUnicode}
use fuselage_fat32_utn.Pfs.FileEntry.{FileEntry}
use fuselage_fat32_utn.Pfs.Directory.Tests.{slot, slot-IsSlot, malloc}
use fuselage_fat32_utn.Pfs.Files.Tests.{volume, name, behind, one_cluster, other_name}
use fuselage_fat32_utn.Pfs.Lookup.{get_file_entry}
use fuselage_fat32_utn.Pfs.Rename.{rename}
use fuselage_fat32_utn.Pfs.Rename.Here.{get_file_entry-rename}

get_file_entry-rename_example :
    (v' : Volume) × (f : FileEntry) × (rename 8 plain malloc behind
        (b'/' ∷ slot.name)
        (b'/' ∷ name)
        volume
      ≡ ok v')
    × (get_file_entry 8 plain malloc v' (b'/' ∷ name) ≡ ok (some f))
    × (f.long_file_name ≡ name)
    × (get_cluster_number f.dir_entry ≡ get_cluster_number slot.entry)
    × (f.dir_entry.file_size ≡ slot.entry.file_size)
    × (get_file_entry 8 plain malloc v' (b'/' ∷ slot.name) ≡ ok none)
    × (v'.fat ≡ volume.fat)
    × ((c : ℕ) → c ≢ 2 → v'.contents c ≡ volume.contents c)
get_file_entry-rename_example =
    get_file_entry-rename 8 plain malloc behind name [] slot [] (replicate 4031 0) volume
      plain-IsUnicode (omega arith, (omega arith, tt)) (omega arith, (omega arith, tt))
      (omega arith, (omega arith, tt)) (omega arith) (omega arith) (omega arith) tt slot-IsSlot tt
      (omega arith, (omega arith, tt)) one_cluster refl tt tt tt tt other_name
