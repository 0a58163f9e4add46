-- ===== src/Pfs/DirEntry/Bytes.antt =====
-- The 32 bytes of a directory entry, as the packed structs of PFS/include/tad_direntry.h lay them out:
-- the first field of a struct of bit fields is in its low bits.
use fuselage_fat32_utn.Prelude.{
  ℕ, ◌+◌, ◌*◌, ◌/◌, ◌%◌, ◌<◌, ◌≡◌, refl, arith, Bool, true, false, List, ◌∷◌, ◌++◌, ◌==◌,
  if◌then◌else◌, bytes32, word32, bytes16, word16, take, drop, length, get_elem?, length-append,
  take-append, drop-append, drop-add, append_assoc, ap, sym, ◌∙◌, word32-bytes32,
}
use fuselage_fat32_utn.Prelude.Outcome.{Outcome, ok, ◌>>=◌, need}
use fuselage_fat32_utn.Pfs.DirEntry.{TimeBytes, DateBytes, DirEntry}

abbrev pub bit : Bool → ℕ → ℕ
bit flag weight = if flag then weight else 0

abbrev pub attribute_byte : DirEntry → ℕ
attribute_byte e =
    bit e.read_only 1
    + bit e.hidden 2
    + bit e.system 4
    + bit e.volume_label 8
    + bit e.subdirectory 16
    + bit e.archive 32
    + bit e.device 64
    + bit e.unused 128

abbrev pub time_word : TimeBytes → ℕ
time_word t = t.seconds + 32 * t.minutes + 2048 * t.hours

abbrev pub date_word : DateBytes → ℕ
date_word d = d.day + 32 * d.month + 512 * d.year

abbrev pub to_time : ℕ → TimeBytes
to_time n = record { seconds = n % 32; minutes = n / 32 % 64; hours = n / 2048 % 32 }

abbrev pub to_date : ℕ → DateBytes
to_date n = record { day = n % 32; month = n / 32 % 16; year = n / 512 % 128 }

-- What lies in memory behind the name and the extension, and all of the entry.
abbrev pub tail_bytes : DirEntry → List ℕ
tail_bytes e =
    attribute_byte e ∷ e.reserved ∷ e.create_time_ms ∷ bytes16 (time_word e.create_time)
    ++ (bytes16 (date_word e.create_date)
        ++ (bytes16 (date_word e.last_acces_date)
            ++ (e.high_cluster_0 ∷ e.high_cluster_1 ∷ bytes16 (time_word e.last_modified_time)
                ++ (bytes16 (date_word e.last_modified_date)
                    ++ (e.low_cluster_0 ∷ e.low_cluster_1 ∷ bytes32 e.file_size)))))

unfoldable pub entry_bytes : DirEntry → List ℕ
entry_bytes e = e.dos_name ++ (e.dos_extension ++ tail_bytes e)

abbrev pub byte_at : List ℕ → ℕ → Outcome ℕ
byte_at bytes i = need (get_elem? bytes i)

abbrev pub half_at : List ℕ → ℕ → Outcome ℕ
half_at bytes i = do a ← byte_at bytes i; b ← byte_at bytes (i + 1); ok (word16 a b)

abbrev pub has_bit : ℕ → ℕ → Bool
has_bit byte weight = byte / weight % 2 == 1

-- The bytes from the attributes on, and all that a copy `*((dirEntry_t*) pointer)` reads.
abbrev pub read_tail : (dos_name dos_extension : List ℕ) → List ℕ → Outcome DirEntry
read_tail name extension bytes = do
  attribute ← byte_at bytes 0
  reserved ← byte_at bytes 1
  ms ← byte_at bytes 2
  create_time ← half_at bytes 3
  create_date ← half_at bytes 5
  access ← half_at bytes 7
  high_0 ← byte_at bytes 9
  high_1 ← byte_at bytes 10
  modified_time ← half_at bytes 11
  modified_date ← half_at bytes 13
  low_0 ← byte_at bytes 15
  low_1 ← byte_at bytes 16
  a ← byte_at bytes 17
  b ← byte_at bytes 18
  c ← byte_at bytes 19
  d ← byte_at bytes 20
  ok (record {
    dos_name = name;
    dos_extension = extension;
    read_only = has_bit attribute 1;
    hidden = has_bit attribute 2;
    system = has_bit attribute 4;
    volume_label = has_bit attribute 8;
    subdirectory = has_bit attribute 16;
    archive = has_bit attribute 32;
    device = has_bit attribute 64;
    unused = has_bit attribute 128;
    reserved = reserved;
    create_time_ms = ms;
    create_time = to_time create_time;
    create_date = to_date create_date;
    last_acces_date = to_date access;
    high_cluster_0 = high_0;
    high_cluster_1 = high_1;
    last_modified_time = to_time modified_time;
    last_modified_date = to_date modified_date;
    low_cluster_0 = low_0;
    low_cluster_1 = low_1;
    file_size = word32 a b c d;
  })

unfoldable pub read_entry : List ℕ → Outcome DirEntry
read_entry bytes = read_tail (take 8 bytes) (take 3 (drop 8 bytes)) (drop 11 bytes)

abbrev pub IsTime : TimeBytes → Type 0
IsTime t = (t.seconds < 32) × (t.minutes < 64) × (t.hours < 32)

abbrev pub IsDate : DateBytes → Type 0
IsDate d = (d.day < 32) × (d.month < 16) × (d.year < 128)

-- An entry whose fields fit their bytes and bits.
pub record IsEntry (e : DirEntry) : Type 0 where
  pub name : length e.dos_name ≡ 8
  pub extension : length e.dos_extension ≡ 3
  pub create_time : IsTime e.create_time
  pub create_date : IsDate e.create_date
  pub access : IsDate e.last_acces_date
  pub modified_time : IsTime e.last_modified_time
  pub modified_date : IsDate e.last_modified_date
  pub size : e.file_size < 4294967296

to_time-time_word :
    (t : TimeBytes) → IsTime t → to_time (word16 (time_word t % 256) (time_word t / 256 % 256)) ≡ t
to_time-time_word t h = ground arith

to_date-date_word :
    (d : DateBytes) → IsDate d → to_date (word16 (date_word d % 256) (date_word d / 256 % 256)) ≡ d
to_date-date_word d h = ground arith

flag_of : (flag : Bool) (n : ℕ) → n ≡ bit flag 1 → (n == 1) ≡ flag
flag_of true n h = rw h refl
flag_of false n h = rw h refl

bit_facts : (flag : Bool) (w : ℕ) → (bit flag 1 < 2) × (bit flag w ≡ w * bit flag 1)
bit_facts true w = omega arith
bit_facts false w = omega arith

module _ (e : DirEntry) where
  attribute_bits :
      (has_bit (attribute_byte e) 1 ≡ e.read_only)
      × (has_bit (attribute_byte e) 2 ≡ e.hidden)
      × (has_bit (attribute_byte e) 4 ≡ e.system)
      × (has_bit (attribute_byte e) 8 ≡ e.volume_label)
      × (has_bit (attribute_byte e) 16 ≡ e.subdirectory)
      × (has_bit (attribute_byte e) 32 ≡ e.archive)
      × (has_bit (attribute_byte e) 64 ≡ e.device)
      × (has_bit (attribute_byte e) 128 ≡ e.unused)
  attribute_bits =
      let a = bit_facts e.read_only 1 in
      let b = bit_facts e.hidden 2 in
      let c = bit_facts e.system 4 in
      let d = bit_facts e.volume_label 8 in
      let f = bit_facts e.subdirectory 16 in
      let g = bit_facts e.archive 32 in
      let h = bit_facts e.device 64 in
      let i = bit_facts e.unused 128 in
      (
        flag_of e.read_only _ (omega (arith, a, b, c, d, f, g, h, i)),
        flag_of e.hidden _ (omega (arith, a, b, c, d, f, g, h, i)),
        flag_of e.system _ (omega (arith, a, b, c, d, f, g, h, i)),
        flag_of e.volume_label _ (omega (arith, a, b, c, d, f, g, h, i)),
        flag_of e.subdirectory _ (omega (arith, a, b, c, d, f, g, h, i)),
        flag_of e.archive _ (omega (arith, a, b, c, d, f, g, h, i)),
        flag_of e.device _ (omega (arith, a, b, c, d, f, g, h, i)),
        flag_of e.unused _ (omega (arith, a, b, c, d, f, g, h, i)),
      )

  pub length-entry_bytes : IsEntry e → length (entry_bytes e) ≡ 32
  unfolding entry_bytes
  length-entry_bytes v = omega (
    arith,
    v.name,
    v.extension,
    length-append e.dos_name (e.dos_extension ++ tail_bytes e),
    length-append e.dos_extension (tail_bytes e),
  )

  -- What is behind the name and the extension is read as it was written.
  read_tail-tail_bytes :
      (rest : List ℕ)
      → IsEntry e
      → read_tail e.dos_name e.dos_extension (tail_bytes e ++ rest) ≡ ok e
  read_tail-tail_bytes rest v =
      let bits = attribute_bits in
      rw
        (
          bits.0,
          bits.1,
          bits.2,
          bits.3,
          bits.4,
          bits.5,
          bits.6,
          bits.7,
          to_time-time_word e.create_time v.create_time,
          to_date-date_word e.create_date v.create_date,
          to_date-date_word e.last_acces_date v.access,
          to_time-time_word e.last_modified_time v.modified_time,
          to_date-date_word e.last_modified_date v.modified_date,
          word32-bytes32 e.file_size v.size,
        )
        refl

  -- An entry whose fields fit their bits is read from its 32 bytes as it was written, whatever
  -- follows them.
  pub read_entry-entry_bytes :
      (rest : List ℕ) → IsEntry e → read_entry (entry_bytes e ++ rest) ≡ ok e
  unfolding read_entry entry_bytes
  read_entry-entry_bytes rest v =
      let whole : (e.dos_name ++ (e.dos_extension ++ tail_bytes e)) ++ rest
          ≡ e.dos_name ++ (e.dos_extension ++ (tail_bytes e ++ rest)) =
        append_assoc e.dos_name (e.dos_extension ++ tail_bytes e) rest
        ∙ ap (λ l. e.dos_name ++ l) (append_assoc e.dos_extension (tail_bytes e) rest) in
      let tail : List ℕ = tail_bytes e ++ rest in
      let front : take 8 (e.dos_name ++ (e.dos_extension ++ tail)) ≡ e.dos_name =
        ap (λ n. take n (e.dos_name ++ (e.dos_extension ++ tail))) (sym v.name)
        ∙ take-append e.dos_name (e.dos_extension ++ tail) in
      let behind : drop 8 (e.dos_name ++ (e.dos_extension ++ tail)) ≡ e.dos_extension ++ tail =
        ap (λ n. drop n (e.dos_name ++ (e.dos_extension ++ tail))) (sym v.name)
        ∙ drop-append e.dos_name (e.dos_extension ++ tail) in
      let middle : take 3 (e.dos_extension ++ tail) ≡ e.dos_extension =
        ap (λ n. take n (e.dos_extension ++ tail)) (sym v.extension)
        ∙ take-append e.dos_extension tail in
      let last : drop 11 (e.dos_name ++ (e.dos_extension ++ tail)) ≡ tail =
        drop-add 3 8 (e.dos_name ++ (e.dos_extension ++ tail))
        ∙ ap (drop 3) behind
        ∙ ap (λ n. drop n (e.dos_extension ++ tail)) (sym v.extension)
        ∙ drop-append e.dos_extension tail in
      rw whole (rw (front, behind, middle, last) (read_tail-tail_bytes rest v))
