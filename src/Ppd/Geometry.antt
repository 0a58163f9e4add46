-- ===== src/Ppd/Geometry.antt =====
-- Sector numbers and cylinder-head-sector addresses (PPD/src/ppd_common.c, PPD/src/ppd_taker.c), and
-- the disk's timing. Numbers are `uint32_t`, with the wrap written out. The geometry is read from
-- the configuration; a disk with `sector * head = 0` has no addresses, and there the C code traps.
pub mod Addresses
use fuselage_fat32_utn.Prelude.{
  ℕ, ◌+◌, ◌-◌, ◌*◌, ◌/◌, ◌%◌, ◌^◌, ◌≡◌, Bool, true, false, leb, ltb, ◌==◌, if◌then◌else◌, u32_mod,
}
use fuselage_fat32_utn.Prelude.Outcome.{Outcome, ok, fault, ◌>>=◌}

pub record Chs : Type 0 where
  pub cylinder : ℕ
  pub head : ℕ
  pub sector : ℕ

abbrev pub chs : ℕ → ℕ → ℕ → Chs
chs c h s = record { cylinder = c; head = h; sector = s }

-- The globals `Cylinder`, `Head`, `Sector`, `TrackJumpTime` and `SectorJumpTime`.
pub record Disk : Type 0 where
  pub cylinders : ℕ
  pub heads : ℕ
  pub sectors : ℕ
  pub track_jump_time : ℕ
  pub sector_jump_time : ℕ

-- COMMON_turnToCHS
unfoldable pub turn_to_chs : Disk → ℕ → Chs
turn_to_chs disk sector_num =
    let per_cylinder = disk.sectors * disk.heads % u32_mod in
    chs (sector_num / per_cylinder) (sector_num % per_cylinder / disk.sectors)
      (sector_num % per_cylinder % disk.sectors)

-- TAKER_turnToSectorNum
unfoldable pub turn_to_sector_num : Disk → Chs → ℕ
turn_to_sector_num disk a = (disk.sectors * (a.cylinder + a.head) + a.sector) % u32_mod

-- `abs(a - b)` of unsigned numbers: the difference wraps and is read as an `int`.
unfoldable pub abs_diff : ℕ → ℕ → ℕ
abs_diff a b = let d = (a + u32_mod - b) % u32_mod in if ltb d (2 ^ 31) then d else u32_mod - d

-- TAKER_sectorDist
unfoldable pub sector_dist : Disk → ℕ → ℕ → ℕ
sector_dist disk first last =
    if ltb last first then (disk.sectors + u32_mod - (first - last)) % u32_mod else last - first

-- TAKER_reachedSector. The quotient traps where `SectorJumpTime` is 0.
unfoldable pub reached_sector : Disk → ℕ → Chs → Outcome ℕ
unfolding abs_diff
reached_sector disk cylinder from =
    let distance = abs_diff cylinder from.cylinder in
    if distance == 0
    then ok from.sector
    else if disk.sector_jump_time == 0
    then fault
    else let per_track =
        ((disk.track_jump_time + u32_mod - 1) % u32_mod / disk.sector_jump_time + 1) % u32_mod in
      ok ((distance * per_track % u32_mod % disk.sectors + from.sector) % u32_mod % disk.sectors)

-- TAKER_sectReachedDistance
unfoldable pub sect_reached_distance : Disk → Chs → Chs → Outcome ℕ
unfolding reached_sector sector_dist
sect_reached_distance disk request from = do
  reached ← reached_sector disk request.cylinder from
  ok (sector_dist disk reached request.sector)

-- TAKER_distanceTime, from the position `trace_position`.
unfoldable pub distance_time : Disk → ℕ → Chs → Outcome ℕ
unfolding turn_to_chs abs_diff sect_reached_distance
distance_time disk trace_position request = do
  let from = turn_to_chs disk trace_position
  s ← sect_reached_distance disk request from
  ok (
      (abs_diff from.cylinder request.cylinder * disk.track_jump_time % u32_mod
        + s * disk.sector_jump_time % u32_mod)
      % u32_mod)

-- TAKER_updateHPos: the sector after the one served, or the first one of its cylinder.
unfoldable pub update_head_position : Disk → ℕ → ℕ
update_head_position disk sector_num =
    let next = (sector_num + 1) % u32_mod in
    if next % disk.sectors == 0 then (next + u32_mod - disk.sectors) % u32_mod else next
