-- ===== src/Pfs/FileCache.antt =====
-- The cache of the clusters of an open file (PFS/src/file_cache.c). The blocks stand in the order of
-- the queue. `now` is what `time(NULL)` delivers, in seconds; a cluster's data are the 4096 bytes
-- that are copied.
pub mod Eviction
pub mod Contents
use mathlib.Core.Option
use fuselage_fat32_utn.Prelude.{
  ℕ, ◌-◌, ◌/◌, Bool, true, false, Option, none, some, List, [], ◌∷◌, ◌++◌, ◌==◌, ltb, length,
  if◌then◌else◌, suc, get_elem?, set,
}
use fuselage_fat32_utn.Prelude.Outcome.{Outcome, ok, ◌>>=◌, need}

pub record Cluster : Type 0 where
  pub number : ℕ
  pub bytes : List ℕ

pub record Block : Type 0 where
  pub cluster_no : ℕ
  pub bytes : List ℕ
  pub timestamp : ℕ
  pub modified : Bool

-- `difftime(now, timestamp) > last_diff`, where `last_diff` is never negative.
abbrev pub older : (now last_diff : ℕ) → Block → Bool
older now last_diff b = ltb last_diff (now - b.timestamp)

-- CACHE_getLRU from a node on: the index of the selected block and `last_diff`.
unfoldable pub lru_from :
    (now : ℕ) → (index : ℕ) → Option ℕ → (last_diff : ℕ) → List Block → Option ℕ
lru_from now index selected last_diff [] = selected
lru_from now index selected last_diff (b ∷ bs) =
    let hit = lru_from now (suc index) (some index) (now - b.timestamp) bs in
    let miss = lru_from now (suc index) selected last_diff bs in
    if older now last_diff b then hit else miss

unfoldable pub get_lru : ℕ → List Block → Option ℕ
unfolding lru_from
get_lru now cache = lru_from now 0 none 0 cache

-- The loop of CACHE_read_block.
unfoldable pub find_block : (now cluster_no : ℕ) → List Block → Option Block × List Block
find_block now cluster_no [] = (none, [])
find_block now cluster_no (b ∷ bs) =
    let (found, rest) = find_block now cluster_no bs in
    let touched = record b { timestamp = now } in
    if b.cluster_no == cluster_no then (some touched, touched ∷ bs) else (found, b ∷ rest)

unfoldable pub read_block : (cache_size now cluster_no : ℕ) → List Block → Option Block × List Block
unfolding find_block
read_block cache_size now cluster_no cache =
    if cache_size == 0 then (none, cache) else find_block now cluster_no cache

-- The loop of CACHE_write_block: the cache with the block overwritten, when there is one.
unfoldable pub overwrite : (now : ℕ) → Cluster → List Block → Option (List Block)
overwrite now cluster [] = none
overwrite now cluster (b ∷ bs) =
    let written = record b { bytes = cluster.bytes; timestamp = now; modified = true } in
    if b.cluster_no == cluster.number
    then some (written ∷ bs)
    else Option.map (λ rest. b ∷ rest) (overwrite now cluster bs)

abbrev pub new_block : (now : ℕ) → Cluster → Block
new_block now cluster = record {
  cluster_no = cluster.number;
  bytes = cluster.bytes;
  timestamp = now;
  modified = false;
}

-- The cluster that has to be written to the disk before its block is used again.
abbrev pub replaced : Block → Option Cluster
replaced b = if b.modified then some (record { number = b.cluster_no; bytes = b.bytes }) else none

-- The branch of CACHE_write_block that finds no block. With no block selected it reads through NULL.
unfoldable pub insert :
    (max_blocks now : ℕ) → Cluster → List Block → Outcome (Option Cluster × List Block)
unfolding get_lru
insert max_blocks now cluster cache =
    if length cache == max_blocks
    then (do
      index ← need (get_lru now cache)
      victim ← need (get_elem? cache index)
      ok (replaced victim, set cache index (new_block now cluster)))
    else ok (none, cache ++ new_block now cluster ∷ [])

unfoldable pub write_block :
    (cache_size now : ℕ) → Cluster → List Block → Outcome (Option Cluster × List Block)
unfolding overwrite insert
write_block cache_size now cluster cache =
    if cache_size == 0 then ok (none, cache) else insert_unless (overwrite now cluster cache)
  where
    insert_unless : Option (List Block) → Outcome (Option Cluster × List Block)
    insert_unless (some written) = ok (none, written)
    insert_unless none = insert (cache_size / 4096) now cluster cache

-- `fuselage_flush` (PFS/src/pfs.c): the clusters that it writes.
unfoldable pub flush : List Block → List Cluster
flush [] = []
flush (b ∷ bs) =
    let rest = flush bs in
    if b.modified then record { number = b.cluster_no; bytes = b.bytes } ∷ rest else rest
