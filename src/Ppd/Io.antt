-- ===== src/Ppd/Io.antt =====
-- The disk file in memory (PPD/src/ppd_io_map.c). `map` are the bytes at `Map`, one sector 512 of
-- them; an access outside of it is a fault. The waits for `ReadTime` and `WriteTime` are not seen.
pub mod Contents
use fuselage_fat32_utn.Prelude.{
  ℕ, ◌+◌, ◌*◌, ◌%◌, List, ◌++◌, leb, if◌then◌else◌, length, take, drop, u32_mod, memcpy, paste,
}
use fuselage_fat32_utn.Prelude.Outcome.{Outcome, ok, fault, ◌>>=◌}

-- `Map` and `writings`
pub record Image : Type 0 where
  pub map : List ℕ
  pub writings : ℕ

abbrev pub bytes_per_sector : ℕ
bytes_per_sector = 512

abbrev pub max_writings_per_sync : ℕ
max_writings_per_sync = 999999

-- `sector*bytes_perSector`, a `uint32_t`
abbrev pub offset : ℕ → ℕ
offset sector = sector * 512 % u32_mod

-- IO_readDisk
unfoldable pub read_disk : (sector : ℕ) → Image → Outcome (List ℕ)
read_disk sector image = memcpy 512 (drop (offset sector) image.map)

-- IO_writeDisk
unfoldable pub write_disk : (sector : ℕ) → List ℕ → Image → Outcome Image
write_disk sector buf image = do
  bytes ← memcpy 512 buf
  map ← paste (offset sector) bytes image.map
  ok (record {
    map = map;
    writings =
        ((if leb max_writings_per_sync image.writings then 0 else image.writings) + 1) % u32_mod;
  })
