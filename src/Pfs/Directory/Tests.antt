-- ===== src/Pfs/Directory/Tests.antt =====
-- A directory of one file, and the bytes of its entries.
use fuselage_fat32_utn.Prelude.{◌≡◌, refl, arith, true, false, [], ◌∷◌, ◌++◌}
use fuselage_fat32_utn.Prelude.Outcome.{ok}
use fuselage_fat32_utn.Pfs.DirEntry.{DirEntry, TimeBytes, DateBytes}
use fuselage_fat32_utn.Pfs.DirEntry.Bytes.{IsEntry}
use fuselage_fat32_utn.Pfs.LfnEntry.Tests.{
  plain, name, entry_of_name, entry_of_name-IsLfn, get_string-entry_of_name,
}
use fuselage_fat32_utn.Pfs.Directory.{Malloc, interpret_from_cluster}
use fuselage_fat32_utn.Pfs.Directory.Listing.{
  Slot, IsSlot, slots_bytes, files_of, file_of, interpret_from_cluster-slots,
}

abbrev pub time : TimeBytes
time = record { seconds = 10; minutes = 59; hours = 23 }

abbrev pub date : DateBytes
date = record { day = 31; month = 12; year = 31 }

abbrev pub entry_of_file : DirEntry
entry_of_file = record {
  dos_name = b'A' ∷ b'B' ∷ b' ' ∷ b' ' ∷ b' ' ∷ b' ' ∷ b' ' ∷ b' ' ∷ [];
  dos_extension = b'T' ∷ b'X' ∷ b'T' ∷ [];
  read_only = true;
  hidden = false;
  system = false;
  volume_label = false;
  subdirectory = false;
  archive = true;
  device = false;
  unused = false;
  reserved = 0;
  create_time_ms = 0;
  create_time = time;
  create_date = date;
  last_acces_date = date;
  high_cluster_0 = 0;
  high_cluster_1 = 0;
  last_modified_time = time;
  last_modified_date = date;
  low_cluster_0 = 3;
  low_cluster_1 = 0;
  file_size = 70000;
}

entry_of_file-IsEntry : IsEntry entry_of_file
entry_of_file-IsEntry = record {
  name = refl;
  extension = refl;
  create_time = (omega arith, omega arith, omega arith);
  create_date = (omega arith, omega arith, omega arith);
  access = (omega arith, omega arith, omega arith);
  modified_time = (omega arith, omega arith, omega arith);
  modified_date = (omega arith, omega arith, omega arith);
  size = omega arith;
}

abbrev pub slot : Slot
slot = record { name = name; lfn = entry_of_name; entry = entry_of_file }

pub slot-IsSlot : IsSlot plain slot
slot-IsSlot = record {
  lfn_sized = entry_of_name-IsLfn;
  only = refl;
  kept = refl;
  named = get_string-entry_of_name;
  entry_sized = entry_of_file-IsEntry;
}

abbrev pub malloc : Malloc
malloc = record {
  file = file_of 0 0 slot;
  bytes = 1 ∷ 2 ∷ 3 ∷ 4 ∷ 5 ∷ 6 ∷ 7 ∷ 8 ∷ 9 ∷ 10 ∷ 11 ∷ 12 ∷ 13 ∷ [];
}

interpret_from_cluster-slots_example :
    interpret_from_cluster plain malloc 5 (slots_bytes (slot ∷ slot ∷ []) ++ 0 ∷ 7 ∷ [])
    ≡ ok (files_of 5 0 (slot ∷ slot ∷ []))
interpret_from_cluster-slots_example =
    interpret_from_cluster-slots plain malloc 5 (slot ∷ slot ∷ []) (7 ∷ [])
      (slot-IsSlot, (slot-IsSlot, tt))
