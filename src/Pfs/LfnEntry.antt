-- ===== src/Pfs/LfnEntry.antt =====
-- Long file names (PFS/src/tad_lfnentry.c, PFS/include/tad_lfnentry.h). An entry holds up to 13
-- characters of two bytes. The conversions are those of a library, ICU, and parameters here.
pub mod Names
pub mod Tests
pub mod Bytes
use fuselage_fat32_utn.Prelude.{
  ℕ, ◌+◌, ◌*◌, ◌/◌, ◌%◌, Bool, true, false, List, [], ◌∷◌, ◌++◌, ◌==◌, if◌then◌else◌, take, drop,
  replicate, memcpy, paste, get_elem?, c_string, set,
}
use fuselage_fat32_utn.Prelude.Outcome.{Outcome, ok, ◌>>=◌, need}

pub record LfnEntry : Type 0 where
  pub number : ℕ
  pub last : Bool
  pub deleted : Bool
  pub name_chars1 : List ℕ
  pub attr : ℕ
  pub reserved : ℕ
  pub checksum : ℕ
  pub name_chars2 : List ℕ
  pub first_cluster : List ℕ
  pub name_chars3 : List ℕ

-- The bytes that the conversions of 13 characters write from the start of their destination on. Into
-- UTF-16 the source gives a capacity of 28 characters for an object for which it asks `malloc` 26
-- bytes; the bytes of the object that it gets are `str_to`.
pub record Unicode : Type 0 where
  pub utf8_to_utf16 : List ℕ → List ℕ
  pub utf16_to_utf8 : List ℕ → List ℕ
  pub str_to : List ℕ

-- LFNENTRY_setNameChars, on the characters of the name. `strcpy` writes them and a 0 into `str_from`,
-- of which no more than the 13 bytes that are asked for are taken to be there. The conversion writes
-- from the start of `str_to` on.
unfoldable pub set_name_chars : Unicode → (filename : List ℕ) → LfnEntry → Outcome LfnEntry
set_name_chars icu filename entry = do
  str_from ← paste 0 (filename ++ 0 ∷ []) (replicate 13 0)
  str_to ← paste 0 (icu.utf8_to_utf16 str_from) icu.str_to
  chars1 ← memcpy 10 str_to
  chars2 ← memcpy 12 (drop 10 str_to)
  chars3 ← memcpy 4 (drop 22 str_to)
  ok (record entry { name_chars1 = chars1; name_chars2 = chars2; name_chars3 = chars3 })

-- LFNENTRY_create
unfoldable pub create_lfn : Unicode → (filename : List ℕ) → Outcome LfnEntry
unfolding set_name_chars
create_lfn icu filename = set_name_chars icu filename (record {
  number = 1;
  last = true;
  deleted = false;
  name_chars1 = replicate 10 0;
  attr = 0x0F;
  reserved = 0;
  checksum = 0;
  name_chars2 = replicate 12 0;
  first_cluster = replicate 2 0;
  name_chars3 = replicate 4 0;
})

-- LFNENTRY_getString, the 0 that its caller puts behind the 13 bytes, and the string that this is.
unfoldable pub get_string : Unicode → LfnEntry → Outcome (List ℕ)
get_string icu entry = do
  chars1 ← memcpy 10 entry.name_chars1
  chars2 ← memcpy 12 entry.name_chars2
  chars3 ← memcpy 4 entry.name_chars3
  c_string (set (icu.utf16_to_utf8 (chars1 ++ (chars2 ++ chars3))) 13 0)

-- The 32 bytes of the packed struct.
unfoldable pub lfn_bytes : LfnEntry → List ℕ
lfn_bytes e =
    (e.number + (if e.last then 64 else 0) + (if e.deleted then 128 else 0)) ∷ e.name_chars1
    ++ (e.attr ∷ e.reserved ∷ e.checksum ∷ e.name_chars2 ++ (e.first_cluster ++ e.name_chars3))

-- `*lfn_entry`
unfoldable pub read_lfn : List ℕ → Outcome LfnEntry
read_lfn bytes = do
  sequence ← need (get_elem? bytes 0)
  attr ← need (get_elem? bytes 11)
  reserved ← need (get_elem? bytes 12)
  checksum ← need (get_elem? bytes 13)
  chars1 ← memcpy 10 (drop 1 bytes)
  chars2 ← memcpy 12 (drop 14 bytes)
  cluster ← memcpy 2 (drop 26 bytes)
  chars3 ← memcpy 4 (drop 28 bytes)
  ok (record {
    number = sequence % 64;
    last = sequence / 64 % 2 == 1;
    deleted = sequence / 128 % 2 == 1;
    name_chars1 = chars1;
    attr = attr;
    reserved = reserved;
    checksum = checksum;
    name_chars2 = chars2;
    first_cluster = cluster;
    name_chars3 = chars3;
  })
