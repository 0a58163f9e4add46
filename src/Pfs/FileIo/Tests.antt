-- ===== src/Pfs/FileIo/Tests.antt =====
-- A file of two clusters of 4096 bytes, the first of them in the cache and not yet on the disk. Both
-- are read within one second.
use fuselage_fat32_utn.Prelude.{
  ℕ, ◌+◌, ◌*◌, ◌≡◌, refl, arith, true, [], ◌∷◌, take, drop, replicate, length-replicate,
}
use fuselage_fat32_utn.Prelude.Outcome.{ok, fault}
use fuselage_fat32_utn.Pfs.BootSector.{BootSector}
use fuselage_fat32_utn.Pfs.Fat.{get_next_linked, is_eoc}
use fuselage_fat32_utn.Pfs.Fat.Tests.{table_of, entries}
use fuselage_fat32_utn.Pfs.FileIo.{Session, read}
use fuselage_fat32_utn.Pfs.FileIo.View.{fresh, IsCoherent, data_of}
use fuselage_fat32_utn.Pfs.FileIo.Placing.{Keeps}
use fuselage_fat32_utn.Pfs.FileIo.Reading.{Follows, joined}
use fuselage_fat32_utn.Pfs.FileIo.Contents.{read-contents, read-straddling}
use fuselage_fat32_utn.Pfs.Span.{cluster_span, cluster_span-exact}

abbrev boot : BootSector
boot = record {
  bytes_per_sector = 512;
  sectors_per_cluster = 8;
  reserved_sectors = 32;
  fats_no = 2;
  media_descriptor = 0xF8;
  sectors_per_fat32 = 2;
}

abbrev pub start : Session
start = record {
  volume = record { fat = table_of entries; contents = λ c. replicate 4096 c };
  cache = record { cluster_no = 2; bytes = replicate 4096 9; timestamp = 0; modified = true } ∷ [];
}

abbrev clock : ℕ → ℕ
clock k = 1 + 0 * k

pub start-IsCoherent : IsCoherent start
start-IsCoherent = record {
  once = (tt, tt);
  blocks = ((length-replicate {A = ℕ} 4096 9, λ e. absurd (cc)), tt);
  sized = λ c. length-replicate 4096 c;
}

two_clusters : Follows (table_of entries) 2 (2 ∷ 3 ∷ [])
unfolding get_next_linked is_eoc
two_clusters = (refl, (3, refl, (refl, (0x0FFFFFFF, refl, tt))))

start-fresh : fresh 1 start.cache ≡ 0
unfolding fresh
start-fresh = refl

read-contents_example :
    (s' : Session) × (read clock 8192 boot 8000 2 7950 96 start
      ≡ ok (take 7904 (drop 96 (joined (data_of start) (2 ∷ 3 ∷ []))), s'))
    × Keeps 1 2 start s'
read-contents_example =
    read-contents clock 8192 boot 2 8000 7950 96 (2 ∷ 3 ∷ []) start (omega arith) (λ k. omega arith)
      two_clusters start-IsCoherent (omega (arith, start-fresh)) refl (omega arith) (omega arith)
      (omega arith) (omega arith)

read-straddling_example : read clock 8192 boot 8000 2 200 4000 start ≡ fault
read-straddling_example =
    read-straddling clock 8192 boot 2 8000 200 4000 (2 ∷ 3 ∷ []) start (omega arith)
      (λ k. omega arith) two_clusters start-IsCoherent (omega (arith, start-fresh)) refl
      (omega arith) (omega arith) (omega arith) (omega arith) (omega arith)

cluster_span-exact_example : cluster_span 4000 200 4096 ≡ 1
cluster_span-exact_example = cluster_span-exact 4000 200 4096 (omega arith)
