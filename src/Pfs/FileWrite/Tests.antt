-- ===== src/Pfs/FileWrite/Tests.antt =====
-- A flush of a file with one cluster in the cache.
use fuselage_fat32_utn.Prelude.{ℕ, ◌≡◌, []}
use fuselage_fat32_utn.Pfs.FileIo.View.{data_of}
use fuselage_fat32_utn.Pfs.FileIo.Tests.{start, start-IsCoherent}
use fuselage_fat32_utn.Pfs.FileWrite.{flush_session}
use fuselage_fat32_utn.Pfs.FileWrite.Flushed.{flush_session-contents}

flush_session-contents_example :
    ((d : ℕ) → (flush_session start).volume.contents d ≡ data_of start d)
    × ((d : ℕ) → data_of (flush_session start) d ≡ data_of start d)
    × ((flush_session start).cache ≡ [])
    × ((flush_session start).volume.fat ≡ start.volume.fat)
flush_session-contents_example = flush_session-contents start start-IsCoherent
