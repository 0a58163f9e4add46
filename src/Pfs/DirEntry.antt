-- ===== src/Pfs/DirEntry.antt =====
-- Directory entries (PFS/src/tad_direntry.c, PFS/include/tad_direntry.h). Bytes are numbers below
-- 256; `char` fields are read as the unsigned bytes that they are copied to and from.
pub mod Fields
pub mod Bytes
use fuselage_fat32_utn.Prelude.{
  ℕ, zero, suc, ◌+◌, ◌-◌, ◌*◌, ◌/◌, ◌%◌, Bool, true, false, List, [], ◌∷◌, ◌==◌, if◌then◌else◌,
  u32_mod, replicate, take, memcpy, length, set, ltb, leb, ◌&&◌, map, ◌++◌,
}
use fuselage_fat32_utn.Prelude.Outcome.{Outcome, ok, ◌>>=◌}

-- Bit fields of 5, 6 and 5 bits, and of 5, 4 and 7.
pub record TimeBytes : Type 0 where
  pub seconds : ℕ
  pub minutes : ℕ
  pub hours : ℕ

pub record DateBytes : Type 0 where
  pub day : ℕ
  pub month : ℕ
  pub year : ℕ

pub record DirEntry : Type 0 where
  pub dos_name : List ℕ
  pub dos_extension : List ℕ
  pub read_only : Bool
  pub hidden : Bool
  pub system : Bool
  pub volume_label : Bool
  pub subdirectory : Bool
  pub archive : Bool
  pub device : Bool
  pub unused : Bool
  pub reserved : ℕ
  pub create_time_ms : ℕ
  pub create_time : TimeBytes
  pub create_date : DateBytes
  pub last_acces_date : DateBytes
  pub high_cluster_0 : ℕ
  pub high_cluster_1 : ℕ
  pub last_modified_time : TimeBytes
  pub last_modified_date : DateBytes
  pub low_cluster_0 : ℕ
  pub low_cluster_1 : ℕ
  pub file_size : ℕ

-- A round of the loop of DIRENTRY_getClusterNumber: `(arrToInt << 8) | byte`, where the shift leaves
-- the low byte clear.
abbrev pub shift_in : ℕ → ℕ → ℕ
shift_in number byte = number * 256 % u32_mod + byte

-- DIRENTRY_getClusterNumber
unfoldable pub get_cluster_number : DirEntry → ℕ
get_cluster_number entry =
    shift_in
      (shift_in (shift_in (shift_in 0 entry.high_cluster_1) entry.high_cluster_0)
        entry.low_cluster_1)
      entry.low_cluster_0

-- `struct tm`: what `localtime` delivers and `mktime` takes. An `int` is given by its 32 bits.
pub record Tm : Type 0 where
  pub tm_sec : ℕ
  pub tm_min : ℕ
  pub tm_hour : ℕ
  pub tm_mday : ℕ
  pub tm_mon : ℕ
  pub tm_year : ℕ

-- DIRENTRY_getDate: a mask keeps the low bits. A year before 1980 does not occur.
unfoldable pub get_date : Tm → DateBytes
get_date systime = record {
  day = systime.tm_mday % 32;
  month = (systime.tm_mon + 1) % 16;
  year = (systime.tm_year + u32_mod - 80) % 128;
}

-- DIRENTRY_getTime
unfoldable pub get_time : Tm → TimeBytes
get_time systime = record {
  hours = systime.tm_hour % 32;
  minutes = systime.tm_min % 64;
  seconds = systime.tm_sec / 2 % 32;
}

-- DIRENTRY_convertDateTime: what it hands to `mktime`.
unfoldable pub convert_date_time : DateBytes → TimeBytes → Tm
convert_date_time date time = record {
  tm_min = time.minutes;
  tm_sec = time.seconds;
  tm_hour = time.hours;
  tm_mon = (date.month + u32_mod - 1) % u32_mod;
  tm_mday = date.day;
  tm_year = date.year + 1980 - 1900;
}

-- ARCHIVE_ATTR and DIR_ATTR
abbrev pub archive_attr : ℕ
archive_attr = 1

abbrev pub dir_attr : ℕ
dir_attr = 0

-- DIRENTRY_create, with the local time at which it runs. It copies eight bytes of the name.
unfoldable pub create : Tm → (filename : List ℕ) → (cluster attr : ℕ) → Outcome DirEntry
unfolding get_date get_time
create now filename cluster attr = do
  name ← memcpy 8 filename
  ok (record {
    dos_name = name;
    dos_extension = replicate 3 0;
    read_only = false;
    hidden = false;
    system = false;
    volume_label = false;
    subdirectory = if attr == archive_attr then false else attr == dir_attr;
    archive = attr == archive_attr;
    device = false;
    unused = false;
    reserved = 0;
    create_time_ms = 0;
    create_time = get_time now;
    create_date = get_date now;
    last_acces_date = record { day = 0; month = 0; year = 0 };
    high_cluster_0 = cluster / 65536 % 256;
    high_cluster_1 = cluster / 16777216 % 256;
    last_modified_time = get_time now;
    last_modified_date = get_date now;
    low_cluster_0 = cluster % 256;
    low_cluster_1 = cluster / 256 % 256;
    file_size = 0;
  })

-- `toupper` of the library in the C locale, and `uppercase` of Commons/src/utils.c on the characters
-- of a string.
abbrev to_upper : ℕ → ℕ
to_upper c = if leb b'a' c && leb c b'z' then c - 32 else c

unfoldable pub uppercase : List ℕ → List ℕ
uppercase string = map to_upper string

-- DIRENTRY_setDosName on the name's characters; `behind` is what memory holds from the end of the
-- name on, of which a name shorter than eight bytes takes some.
unfoldable pub set_dos_name : (behind filename : List ℕ) → DirEntry → Outcome DirEntry
unfolding uppercase
set_dos_name behind filename entry = do
  copied ← memcpy 8 (uppercase filename ++ behind)
  ok (record entry {
    dos_name = if ltb 8 (length filename) then set (set copied 6 b'~') 7 b'1' else copied;
  })
