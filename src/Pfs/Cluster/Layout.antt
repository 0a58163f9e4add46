-- ===== src/Pfs/Cluster/Layout.antt =====
-- Which sectors the clusters have.
use fuselage_fat32_utn.Prelude.{
  ℕ, zero, suc, ◌+◌, ◌-◌, ◌*◌, ◌%◌, ◌<◌, ◌≤◌, ◌≡◌, refl, sym, ap, ◌∙◌, arith, u32_mod, get_elem?,
  get_elem?-map, some, some-inj,
}
use native.Mathlib.Nat.{mod-eq_of_lt}
use fuselage_fat32_utn.Pfs.BootSector.{BootSector}
use fuselage_fat32_utn.Pfs.Cluster.{indexes, first_sector, to_sectors}

-- The first sector of the data area.
abbrev pub data_start : BootSector → ℕ
data_start boot = boot.reserved_sectors + boot.fats_no * boot.sectors_per_fat32

-- A cluster of the volume: its sectors can be numbered.
pub record InVolume (boot : BootSector) (cluster : ℕ) : Type 0 where
  pub numbered : 2 ≤ cluster
  pub bounded : cluster < u32_mod
  pub fits : data_start boot + (cluster - 2 + 1) * boot.sectors_per_cluster < u32_mod

first_sector-eq :
    (boot : BootSector) (cluster : ℕ)
    → InVolume boot cluster
    → first_sector boot cluster ≡ data_start boot + (cluster - 2) * boot.sectors_per_cluster
unfolding first_sector
first_sector-eq boot cluster v =
    let index : (cluster + u32_mod - 2) % u32_mod ≡ cluster - 2 =
      omega (arith, v.numbered, v.bounded) in
    let start : data_start boot % u32_mod ≡ data_start boot =
      mod-eq_of_lt (omega (arith, v.fits)) in
    rw (index, start) (mod-eq_of_lt (grind (arith, v.fits)))

indexes-at : (start n i : ℕ) → i < n → get_elem? (indexes start n) i ≡ some (start + i)
unfolding indexes
indexes-at start zero i h = absurd (omega (arith, h))
indexes-at start (suc n) zero h = ap some (omega arith)
indexes-at start (suc n) (suc i) h =
    indexes-at (suc start) n i (omega (arith, h)) ∙ ap some (omega arith)

to_sectors-at :
    (boot : BootSector) (cluster i : ℕ)
    → InVolume boot cluster
    → i < boot.sectors_per_cluster
    → get_elem? (to_sectors boot cluster) i
      ≡ some (data_start boot + (cluster - 2) * boot.sectors_per_cluster + i)
unfolding to_sectors
to_sectors-at boot cluster i v h =
    get_elem?-map (indexes 0 boot.sectors_per_cluster) i i _
      (indexes-at 0 boot.sectors_per_cluster i h ∙ ap some (omega arith))
    ∙ ap some (rw (first_sector-eq boot cluster v) (mod-eq_of_lt (grind (arith, v.fits, h))))

-- A number is in one row of a table only, and at one place of it.
one_row : (w k l i j : ℕ) → i < w → j < w → k * w + i ≡ l * w + j → (k ≡ l) × (i ≡ j)
one_row w zero zero i j hi hj e = (refl, omega (arith, e))
one_row w zero (suc l) i j hi hj e = absurd (grind (arith, e))
one_row w (suc k) zero i j hi hj e = absurd (grind (arith, e))
one_row w (suc k) (suc l) i j hi hj e =
    let (rows, places) = one_row w k l i j hi hj (omega (arith, e)) in (ap suc rows, places)

-- No sector belongs to two clusters of a volume, or to one twice: its number gives the cluster and
-- the place in it. None lies before the data area.
pub to_sectors-apart :
    (boot : BootSector) (c d i j s : ℕ)
    → InVolume boot c
    → InVolume boot d
    → i < boot.sectors_per_cluster
    → j < boot.sectors_per_cluster
    → get_elem? (to_sectors boot c) i ≡ some s
    → get_elem? (to_sectors boot d) j ≡ some s
    → (c ≡ d) × (i ≡ j) × (data_start boot ≤ s)
to_sectors-apart boot c d i j s vc vd hi hj at_c at_d =
    let s_c : s ≡ data_start boot + (c - 2) * boot.sectors_per_cluster + i =
      some-inj (sym at_c ∙ to_sectors-at boot c i vc hi) in
    let s_d : s ≡ data_start boot + (d - 2) * boot.sectors_per_cluster + j =
      some-inj (sym at_d ∙ to_sectors-at boot d j vd hj) in
    let (rows, places) =
      one_row boot.sectors_per_cluster (c - 2) (d - 2) i j hi hj (omega (arith, s_c, s_d)) in
    (omega (arith, rows, vc.numbered, vd.numbered), places, omega (arith, s_c))
