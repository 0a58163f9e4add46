-- ===== src/Pfs/FileWrite.antt =====
-- Writing and flushing an open file (fuselage_write and fuselage_flush of PFS/src/pfs.c) through the
-- cache of the file. The buffer that the caller gives is the list of the bytes to write.
pub mod Flushed
mod Tests
use fuselage_fat32_utn.Prelude.{
  ℕ, zero, suc, ◌+◌, ◌-◌, ◌*◌, ◌/◌, ◌%◌, true, none, some, List, [], ◌∷◌, ◌==◌, ltb, if◌then◌else◌,
  length, drop, memcpy, paste, ◌&&◌, is_none,
}
use fuselage_fat32_utn.Prelude.Outcome.{Outcome, ok, ◌>>=◌}
use fuselage_fat32_utn.Pfs.BootSector.{BootSector, bytes_per_cluster}
use fuselage_fat32_utn.Pfs.Fat.{get_next_linked}
use fuselage_fat32_utn.Pfs.Volume.{Volume, write_cluster}
use fuselage_fat32_utn.Pfs.FileCache
use fuselage_fat32_utn.Pfs.FileCache.{Block, read_block, write_block, flush}
use fuselage_fat32_utn.Pfs.Span.{cluster_span}
use fuselage_fat32_utn.Pfs.FileIo.{Session, skip, write_replaced, copied}

-- What is done through the pointer to the block that CACHE_read_block returned.
unfoldable pub modify_block : (cluster : ℕ) → (bytes : List ℕ) → List Block → List Block
modify_block cluster bytes [] = []
modify_block cluster bytes (b ∷ bs) =
    if b.cluster_no == cluster
    then record b { bytes = bytes; modified = true } ∷ bs
    else b ∷ modify_block cluster bytes bs

-- The branch of a cluster that the cache does not have. Without a cache it is written to the disk.
unfoldable pub store_missing :
    (cache_size now : ℕ) → (cluster place : ℕ) → (bytes : List ℕ) → Session → Outcome Session
store_missing cache_size now cluster place bytes s = do
  changed ← paste place bytes (s.volume.contents cluster)
  block ← copied cache_size changed
  (replaced, cache) ←
      write_block cache_size now (record { number = cluster; bytes = block }) s.cache
  let volume = write_replaced replaced s.volume
  let uncached = is_none replaced && cache_size == 0
  ok (record {
    volume = if uncached then write_cluster cluster changed volume else volume;
    cache = cache;
  })

-- The body of the loop of fuselage_write: `bytes` are put into a cluster at a place.
unfoldable pub store :
    (clock : ℕ → ℕ)
    → (cache_size : ℕ) → (round cluster place : ℕ) → (bytes : List ℕ) → Session
    → Outcome Session
store clock cache_size round cluster place bytes s =
    let (found, cache) = read_block cache_size (clock (2 * round)) cluster s.cache in
    elim found [
      | some block ↦ do
        changed ← paste place bytes block.bytes
        ok (record s { cache = modify_block cluster changed cache })
      | none ↦ store_missing cache_size (clock (2 * round + 1)) cluster place bytes s
    ]

-- `bytes_in_this_write`
abbrev pub this_write : (size place bytes_left : ℕ) → ℕ
this_write size place bytes_left =
    if ltb (size - place) bytes_left then size - place else bytes_left

-- The loop of fuselage_write, for the rounds that are left, with the bytes that are left.
unfoldable pub write_clusters :
    (clock : ℕ → ℕ)
    → (cache_size size : ℕ) → (left round cluster offset_in_file : ℕ) → (bytes : List ℕ) → Session
    → Outcome Session
unfolding store get_next_linked
write_clusters clock cache_size size zero round cluster offset_in_file bytes s = ok s
write_clusters clock cache_size size (suc left) round cluster offset_in_file bytes s = do
  let place = offset_in_file % size
  let count = this_write size place (length bytes)
  chunk ← memcpy count bytes
  s ← store clock cache_size round cluster place chunk s
  next ← get_next_linked s.volume.fat cluster
  write_clusters clock cache_size size left (round + 1) next (offset_in_file + count)
      (drop count bytes) s

-- fuselage_write behind its call of fat32_truncate, with the first cluster of the open file.
unfoldable pub write_within :
    (clock : ℕ → ℕ)
    → (cache_size : ℕ) → BootSector
    → (first_cluster offset : ℕ) → (bytes : List ℕ) → Session
    → Outcome Session
unfolding skip cluster_span write_clusters
write_within clock cache_size boot first_cluster offset bytes s = do
  let size = bytes_per_cluster boot
  cluster ← skip (offset / size) s.volume.fat first_cluster
  write_clusters clock cache_size size (cluster_span offset (length bytes) size) 0 cluster offset
      bytes s

-- The clusters that a flush writes, and the cache that it leaves.
abbrev pub write_flushed : List FileCache.Cluster → Volume → Volume
write_flushed [] v = v
write_flushed (c ∷ cs) v = write_flushed cs (write_cluster c.number c.bytes v)

unfoldable pub flush_session : Session → Session
unfolding flush
flush_session s = record { volume = write_flushed (flush s.cache) s.volume; cache = [] }
