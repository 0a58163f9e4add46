-- ===== src/Pfs/Fat/Sectors.antt =====
-- FAT_read_table and FAT_searchSectorByPointer (PFS/src/tad_fat.c): which sector holds an entry.
use fuselage_fat32_utn.Prelude.{
  ℕ, zero, suc, ◌+◌, ◌-◌, ◌*◌, ◌/◌, ◌%◌, ◌^◌, ◌<◌, ◌≤◌, ◌≡◌, refl, true, false, some, List, arith,
  ap, ◌∙◌, length, get_elem?, ==-refl,
}
use fuselage_fat32_utn.Prelude.Outcome.{ok}
use fuselage_fat32_utn.Pfs.BootSector.{BootSector}
use fuselage_fat32_utn.Pfs.Fat.{
  FatTable, is_eoc, points_into, search_from, search_sector_by_pointer, table_sectors, read_table,
}
use fuselage_fat32_utn.Pfs.Fat.Valid.{IsValid}

points_into-hit :
    (rounds i offset p j : ℕ)
    → p ≡ offset + (i + j) * 4
    → j < rounds
    → points_into rounds i offset p ≡ true
unfolding points_into
points_into-hit zero i offset p j e h = absurd (omega arith)
points_into-hit (suc rounds) i offset p zero e h =
    let hit : offset + i * 4 ≡ p = omega arith in rw (hit, ==-refl p)
points_into-hit (suc rounds) i offset p (suc j) e h =
    ground (arith, points_into-hit rounds (i + 1) offset p j (omega arith) (omega arith))

points_into-miss :
    (rounds i offset p : ℕ) → offset + (i + rounds) * 4 ≤ p → points_into rounds i offset p ≡ false
unfolding points_into
points_into-miss zero i offset p h = refl
points_into-miss (suc rounds) i offset p h =
    ground (arith, points_into-miss rounds (i + 1) offset p (omega arith))

quotient-lt : (c n k : ℕ) → c < n * k → c / k < n
quotient-lt c n k h = grind arith

start : (s : ℕ) → 32 + s - 32 ≡ s
start s = omega arith

module _ (boot : BootSector) (k : ℕ) (word : boot.bytes_per_sector ≡ k * 4) where
  search-table_sectors :
      (rounds s position c d j : ℕ)
      → c ≡ (s + d) * k + j
      → j < k
      → d < rounds
      → search_from k (table_sectors boot rounds (32 + s)) position (c * 4) ≡ some (position + d)
  unfolding search_from table_sectors
  search-table_sectors zero s position c d j e hj hd = absurd (omega arith)
  search-table_sectors (suc rounds) s position c zero j e hj hd =
      let here : c * 4 ≡ (32 + s - 32) * boot.bytes_per_sector + (0 + j) * 4 =
        rw (start s, word, e) (omega arith) in
      rw (points_into-hit k 0 ((32 + s - 32) * boot.bytes_per_sector) (c * 4) j here hj)
        (ap some (omega arith))
  search-table_sectors (suc rounds) s position c (suc d) j e hj hd =
      let beyond : (32 + s - 32) * boot.bytes_per_sector + (0 + k) * 4 ≤ c * 4 =
        rw (start s, word, e) (omega arith) in
      let next : 32 + s + 1 ≡ 32 + (s + 1) = omega arith in
      rw (points_into-miss k 0 ((32 + s - 32) * boot.bytes_per_sector) (c * 4) beyond, next)
        (search-table_sectors rounds (s + 1) (position + 1) c d j (rw e (omega arith)) hj
            (omega arith)
          ∙ ap some (omega arith))

-- What `ppd_read_sectors` must have delivered for the table to be usable.
pub record IsReadable (boot : BootSector) (read : List ℕ) (k : ℕ) : Type 0 where
  -- A sector holds `k` entries, and the read has all of them.
  pub word : boot.bytes_per_sector ≡ k * 4
  pub some_entries : 0 < k
  pub whole : length read ≡ boot.sectors_per_fat32 * k
  pub small : length read ≤ 0x0FFFFFF0
  -- The second entry is an end mark, and the first byte is the media descriptor.
  pub mark : (e : ℕ) × (get_elem? read 1 ≡ some e) × (is_eoc e ≡ true)
  pub media : (m : ℕ) × (get_elem? read 0 ≡ some m) × (m % 256 ≡ boot.media_descriptor)

module _ (boot : BootSector) (read : List ℕ) (k : ℕ) (r : IsReadable boot read k) where
  table_size : boot.bytes_per_sector * boot.sectors_per_fat32 % 2 ^ 32 / 4 ≡ length read
  table_size =
      let product : boot.bytes_per_sector * boot.sectors_per_fat32 ≡ length read * 4 =
        rw (r.word, r.whole) (omega arith) in
      rw product (omega (arith, r.small))

  pub search-read_table :
      (c : ℕ)
      → c < length read
      → search_sector_by_pointer boot (table_sectors boot boot.sectors_per_fat32 32) (c * 4)
        ≡ some (c / k)
  unfolding search_sector_by_pointer
  search-read_table c h =
      let entries : boot.bytes_per_sector / 4 ≡ k = rw r.word (omega arith) in
      let at : c ≡ (0 + c / k) * k + c % k = grind arith in
      rw entries (
        search-table_sectors boot k r.word boot.sectors_per_fat32 0 0 c (c / k) (c % k) at
          (omega (arith, r.some_entries))
          (quotient-lt c boot.sectors_per_fat32 k (omega (arith, r.whole)))
        ∙ ap some (omega arith))

  -- From a readable table FAT_read_table makes a valid one, in which FAT_searchSectorByPointer finds
  -- for each cluster the sector that holds its entry.
  pub read_table-IsValid :
      (fat : FatTable) × (read_table boot read ≡ ok fat)
      × IsValid boot fat
      × (fat.table ≡ read)
      × ((c : ℕ)
          → c < length read
          → search_sector_by_pointer boot fat.sectors (c * 4) ≡ some (c / k))
  unfolding read_table
  read_table-IsValid =
      let (e, at1, mark) = r.mark in
      let (m, at0, media) = r.media in
      (
        record {
          table = read;
          sectors = table_sectors boot boot.sectors_per_fat32 32;
          size = boot.bytes_per_sector * boot.sectors_per_fat32 % 2 ^ 32 / 4;
          eoc = e;
        },
        rw (at1, at0) (rw (media, ==-refl boot.media_descriptor)),
        record {
          sized = table_size;
          small = r.small;
          mark = mark;
          covers = λ c h q. cc (search-read_table c h);
        },
        refl,
        search-read_table,
      )
