-- ===== src/Pfs/FileIo.antt =====
-- Reading an open file (fuselage_read of PFS/src/pfs.c) through the cache of
-- the file. `clock` says what `time(NULL)` delivers: at 2 k when the cache is read in round k of a
-- loop, and at 2 k + 1 when it is written.
pub mod View
pub mod Placing
pub mod Fetch
pub mod Reading
pub mod Contents
pub mod Tests
use fuselage_fat32_utn.Prelude.{
  ℕ, zero, suc, ◌+◌, ◌-◌, ◌*◌, ◌/◌, ◌%◌, Bool, true, false, Option, none, some, List, [], ◌∷◌, ◌++◌,
  ◌==◌, ltb, leb, if◌then◌else◌, length, take, drop, memcpy, paste, ◌&&◌, is_none,
}
use fuselage_fat32_utn.Prelude.Outcome.{Outcome, ok, ◌>>=◌}
use fuselage_fat32_utn.Pfs.BootSector.{BootSector, bytes_per_cluster}
use fuselage_fat32_utn.Pfs.Fat.{FatTable, get_next_linked}
use fuselage_fat32_utn.Pfs.Volume.{Volume, write_cluster}
use fuselage_fat32_utn.Pfs.FileCache
use fuselage_fat32_utn.Pfs.FileCache.{Block, read_block, write_block, flush}
use fuselage_fat32_utn.Pfs.Span.{cluster_span}

-- The volume and the cache of the file.
pub record Session : Type 0 where
  pub volume : Volume
  pub cache : List Block

-- The loop that skips clusters.
unfoldable pub skip : (count : ℕ) → FatTable → (cluster : ℕ) → Outcome ℕ
unfolding get_next_linked
skip zero fat cluster = ok cluster
skip (suc count) fat cluster = do next ← get_next_linked fat cluster; skip count fat next

-- The cluster that had to leave the cache is written to the disk.
abbrev pub write_replaced : Option FileCache.Cluster → Volume → Volume
write_replaced none v = v
write_replaced (some cluster) v = write_cluster cluster.number cluster.bytes v

-- CACHE_write_block copies 4096 bytes, when there is a cache.
abbrev pub copied : (cache_size : ℕ) → List ℕ → Outcome (List ℕ)
copied cache_size bytes = if cache_size == 0 then ok [] else memcpy 4096 bytes

-- The data of a cluster that the cache does not have.
unfoldable pub fetch_missing :
    (cache_size now size : ℕ) → (cluster : ℕ) → Session → Outcome (List ℕ × Session)
fetch_missing cache_size now size cluster s = do
  block ← copied cache_size (s.volume.contents cluster)
  (replaced, cache) ←
      write_block cache_size now (record { number = cluster; bytes = block }) s.cache
  bytes ← memcpy size (s.volume.contents cluster)
  ok (bytes, record { volume = write_replaced replaced s.volume; cache = cache })

-- The body of the loop of fuselage_read.
unfoldable pub fetch :
    (clock : ℕ → ℕ) → (cache_size size round cluster : ℕ) → Session → Outcome (List ℕ × Session)
fetch clock cache_size size round cluster s =
    let (found, cache) = read_block cache_size (clock (2 * round)) cluster s.cache in
    elim found [
      | some block ↦ do bytes ← memcpy size block.bytes; ok (bytes, record s { cache = cache })
      | none ↦ fetch_missing cache_size (clock (2 * round + 1)) size cluster s
    ]

-- The loop of fuselage_read, for the rounds that are left: what it puts into `tmp_buf`.
unfoldable pub read_clusters :
    (clock : ℕ → ℕ)
    → (cache_size size : ℕ) → (left round cluster : ℕ) → Session
    → Outcome (List ℕ × Session)
read_clusters clock cache_size size zero round cluster s = ok ([], s)
read_clusters clock cache_size size (suc left) round cluster s = do
  (bytes, s) ← fetch clock cache_size size round cluster s
  next ← get_next_linked s.volume.fat cluster
  (more, s) ← read_clusters clock cache_size size left (round + 1) next s
  ok (bytes ++ more, s)

-- The bytes that are left of a file from an offset on, and no more than asked for.
abbrev pub clamp : (file_size offset bytes_to_read : ℕ) → ℕ
clamp file_size offset bytes_to_read =
    if ltb file_size (offset + bytes_to_read)
    then bytes_to_read - (offset + bytes_to_read - file_size)
    else bytes_to_read

-- fuselage_read behind its test of the offset, with the first cluster of the file.
unfoldable pub read_within :
    (clock : ℕ → ℕ)
    → (cache_size : ℕ) → BootSector
    → (first_cluster bytes offset : ℕ) → Session
    → Outcome (List ℕ × Session)
read_within clock cache_size boot first_cluster bytes offset s = do
  let size = bytes_per_cluster boot
  cluster ← skip (offset / size) s.volume.fat first_cluster
  (tmp_buf, s) ← read_clusters clock cache_size size (cluster_span offset bytes size) 0 cluster s
  file_buf ← memcpy bytes (drop (offset % size) tmp_buf)
  ok (file_buf, s)

-- fuselage_read: the bytes that it puts into the caller's buffer.
unfoldable pub read :
    (clock : ℕ → ℕ)
    → (cache_size : ℕ) → BootSector
    → (file_size first_cluster bytes_to_read offset : ℕ) → Session
    → Outcome (List ℕ × Session)
read clock cache_size boot file_size first_cluster bytes_to_read offset s =
    if leb file_size offset
    then ok ([], s)
    else read_within clock cache_size boot first_cluster (clamp file_size offset bytes_to_read)
        offset s
