-- ===== src/Pfs/Tests.antt =====
-- The cache of a file, the clusters of a small volume, and a directory entry.
use mathlib.Core.Option
use fuselage_fat32_utn.Prelude.{
  ℕ, ◌+◌, ◌<◌, ◌≤◌, ◌≡◌, refl, true, Option, replicate, some, none, List, [], ◌∷◌, arith, length,
}
use fuselage_fat32_utn.Prelude.Outcome.{ok}
use fuselage_fat32_utn.Pfs.BootSector.{BootSector}
use fuselage_fat32_utn.Pfs.FileCache.{
  Cluster, Block, overwrite, new_block, write_block, read_block, flush,
}
use fuselage_fat32_utn.Pfs.FileCache.Contents.{write_block-read}
use fuselage_fat32_utn.Pfs.FileCache.Eviction.{write_block-unflushed}
use fuselage_fat32_utn.Pfs.Comm.{ppd_read_sectors}
use fuselage_fat32_utn.Pfs.Comm.Order.{requests, answer_message, ppd_read_sectors-any_order}
use fuselage_fat32_utn.Pfs.Cluster.{to_sectors}
use fuselage_fat32_utn.Pfs.Cluster.Layout.{InVolume, data_start, to_sectors-apart}
use fuselage_fat32_utn.Pfs.DirEntry.{Tm}

abbrev cluster : Cluster
cluster = record { number = 9; bytes = 1 ∷ 2 ∷ [] }

abbrev old_block : Block
old_block = record { cluster_no = 5; bytes = 7 ∷ []; timestamp = 10; modified = true }

-- One block fits, and is written back when it makes room.
abbrev full_cache : List Block
full_cache = old_block ∷ []

abbrev after_write : List Block
after_write = new_block 20 cluster ∷ []

abbrev left : Cluster
left = record { number = 5; bytes = 7 ∷ [] }

full_cache-write : write_block 4096 20 cluster full_cache ≡ ok (some left, after_write)
unfolding write_block
full_cache-write = refl

write_block-read_example :
    Option.map (λ (b : Block). b.bytes) (read_block 4096 30 9 after_write).0 ≡ some (1 ∷ 2 ∷ [])
write_block-read_example =
    write_block-read 4096 20 30 cluster full_cache (some left, after_write)
      (λ e. absurd (omega (arith, e))) full_cache-write

write_block-unflushed_example :
    (cache' : List Block) × (write_block 8192 20 cluster full_cache ≡ ok (none, cache'))
    × (length cache' ≡ length full_cache + 1)
    × (flush cache' ≡ flush full_cache)
unfolding overwrite
write_block-unflushed_example =
    write_block-unflushed 8192 20 cluster full_cache (λ e. absurd (omega (arith, e))) (omega arith)
      refl

abbrev boot : BootSector
boot = record {
  bytes_per_sector = 512;
  sectors_per_cluster = 8;
  reserved_sectors = 32;
  fats_no = 2;
  media_descriptor = 0xF8;
  sectors_per_fat32 = 100;
}

small-InVolume : (c : ℕ) → 2 ≤ c → c < 1000 → InVolume boot c
small-InVolume c h k = record {
  numbered = h;
  bounded = omega (arith, k);
  fits = omega (arith, k, h);
}

abbrev third : ℕ
third = 3

abbrev place : ℕ
place = 1

to_sectors-apart_example :
    (third ≡ third) × (place ≡ place) × (data_start boot ≤ data_start boot + 9)
unfolding to_sectors
to_sectors-apart_example =
    to_sectors-apart boot third third place place (data_start boot + 9)
      (small-InVolume 3 (omega arith) (omega arith)) (small-InVolume 3 (omega arith) (omega arith))
      (omega arith) (omega arith) refl refl

abbrev now : Tm
now = record { tm_sec = 40; tm_min = 30; tm_hour = 12; tm_mday = 9; tm_mon = 6; tm_year = 112 }

abbrev file_name : List ℕ
file_name = b'N' ∷ b'O' ∷ b'T' ∷ b'E' ∷ b'S' ∷ b' ' ∷ b' ' ∷ b' ' ∷ []

abbrev contents : ℕ → List ℕ
contents sector = replicate 512 sector

abbrev arrivals : List (Option (List ℕ))
arrivals =
    none
    ∷ some (answer_message contents (2, 41))
    ∷ none
    ∷ some (answer_message contents (1, 40))
    ∷ none
    ∷ []

ppd_read_sectors-any_order_example :
    ppd_read_sectors boot (λ index. []) arrivals 1 (40 ∷ 41 ∷ [])
    ≡ ok (contents 40 ∷ contents 41 ∷ [], requests 1 (40 ∷ 41 ∷ []), 3)
ppd_read_sectors-any_order_example =
    ppd_read_sectors-any_order boot contents (λ t. refl) (λ index. []) arrivals
      ((2, 41) ∷ (1, 40) ∷ []) 1 (40 ∷ 41 ∷ []) (omega arith) refl refl
      (omega arith, (omega arith, tt)) (refl, (refl, tt))
