-- ===== src/Pfs/Truncate/Sizes.antt =====
-- A file whose size is changed has as many clusters as the new size needs.
use fuselage_fat32_utn.Prelude.{
  ℕ, suc, ◌+◌, ◌-◌, ◌<◌, ◌≤◌, ◌≡◌, refl, ap, arith, false, List, [], ◌∷◌, ◌++◌, length,
  length-append, ltb, lt→ltb, ◌==◌, ne→==, All, inr,
}
use fuselage_fat32_utn.Prelude.Outcome.{ok}
use fuselage_fat32_utn.Pfs.BootSector.{BootSector, bytes_per_cluster}
use fuselage_fat32_utn.Pfs.Fat.{get_free_clusters}
use fuselage_fat32_utn.Pfs.Fat.Chain.{Chain, clusters}
use fuselage_fat32_utn.Pfs.Fat.Valid.{IsValid}
use fuselage_fat32_utn.Pfs.Fat.Supply.{IsUnused}
use fuselage_fat32_utn.Pfs.Volume.{Volume}
use fuselage_fat32_utn.Pfs.Truncate.{cluster_count, grow, resize}
use fuselage_fat32_utn.Pfs.Truncate.Chains.{IsCut, remove_clusters-IsCut, remove_clusters-all}
use fuselage_fat32_utn.Pfs.Truncate.Growth.{IsGrown, link_clusters-IsGrown}

-- The outcome of a change of size that leaves a chain of the file.
pub record IsShortened (boot : BootSector) (v v' : Volume) (c : ℕ) (whole : List ℕ)
    (removed needed : ℕ) : Type 0 where
  pub cut : IsCut boot v.fat v'.fat c whole removed
  pub many : length (clusters cut.front cut.last) ≡ needed
  pub same_contents : v'.contents ≡ v.contents

not_ltb : (m n : ℕ) → n ≤ m → ltb m n ≡ false
not_ltb m n h = ground arith

module _ (boot : BootSector) (rounds c : ℕ) (original_size new_size : ℕ) where
  abbrev actual : ℕ
  actual = cluster_count (bytes_per_cluster boot) original_size

  abbrev needed : ℕ
  needed = cluster_count (bytes_per_cluster boot) new_size

  -- This is about the part of fat32_truncate in front of the directory's entry, which is written
  -- behind it. In a valid table, when a file has as many clusters as its size needs and its new size
  -- needs fewer, but one at least, and the fuel is the size of the table, this part removes the last
  -- ones: the clusters that are left are the first ones of the chain, as many as the new size needs,
  -- the others are free, the first cluster is still the file's first one, the table stays valid, and
  -- no cluster's data have changed by then.
  pub resize-IsShortened :
      (v : Volume) {l : ℕ} {front : List ℕ}
      → IsValid boot v.fat
      → Chain v.fat.table l c front
      → length v.fat.table ≤ rounds
      → length (clusters front l) ≡ actual
      → 0 < needed
      → needed < actual
      → (v' : Volume) × (resize rounds boot original_size new_size c v ≡ ok (v', c))
        × IsShortened boot v v' c (clusters front l) (actual - needed) needed
  unfolding resize
  resize-IsShortened v {l} {front} valid ch enough sized some_left fewer =
      let here : length (clusters front l) ≡ length front + 1 = length-append front (l ∷ []) in
      let (g, r, runs, cut, positive) =
        remove_clusters-IsCut boot rounds c (actual - needed) 0 v.fat valid ch enough
          (omega (arith, sized, here, some_left, fewer)) in
      let last_kept : (r == 0) ≡ false = ne→== r 0 (positive (inr (omega (arith, fewer)))) in
      (
        record v { fat = g },
        rw (lt→ltb needed actual fewer, runs, last_kept) refl,
        record {
          cut = cut;
          many = omega (
            arith,
            ap length cut.split,
            length-append (clusters cut.front cut.last) cut.removed,
            cut.many,
            sized,
            fewer,
          );
          same_contents = refl;
        },
      )

  -- This is about the part of fat32_truncate in front of the directory's entry, which is written
  -- behind it. In a valid table, when a file has as many clusters as its size needs, one at least, and
  -- its new size is 0, and the fuel is the size of the table, this part frees all of them and gives
  -- the file the first cluster 0. What was free stays free, the table stays valid, and no cluster's
  -- data have changed by then.
  pub resize-none :
      (v : Volume) {l : ℕ} {front : List ℕ}
      → IsValid boot v.fat
      → Chain v.fat.table l c front
      → length v.fat.table ≤ rounds
      → length (clusters front l) ≡ actual
      → new_size ≡ 0
      → (v' : Volume) × (resize rounds boot original_size new_size c v ≡ ok (v', 0))
        × All (IsUnused v'.fat.table) (clusters front l)
        × ((d : ℕ) → IsUnused v.fat.table d → IsUnused v'.fat.table d)
        × IsValid boot v'.fat
        × (v'.contents ≡ v.contents)
  unfolding resize
  resize-none v {l} {front} valid ch enough sized none =
      let here : length (clusters front l) ≡ length front + 1 = length-append front (l ∷ []) in
      let no_need : needed ≡ 0 = rw none refl in
      let fewer : needed < actual = omega (arith, no_need, sized, here) in
      let (g, runs, freed, still_free, valid') =
        remove_clusters-all boot rounds c (length front) 0 v.fat valid ch enough refl in
      let count : actual - needed ≡ suc (length front) = omega (arith, no_need, sized, here) in
      (
        record v { fat = g },
        rw (lt→ltb needed actual fewer, count, runs) refl,
        freed,
        still_free,
        valid',
        refl,
      )

  -- This is about the part of fat32_truncate in front of the directory's entry, which is written
  -- behind it. In a valid table, when a file has as many clusters as its size needs, one at least, and
  -- its new size needs more, and as many are free, with data of 4096 bytes at least, and the fuel is
  -- the size of the table, this part puts the first free clusters behind the chain, which then has
  -- as many clusters as the new size needs. The first 4096 bytes of each of them become zeros, the
  -- data of all others have not changed by then, the other free clusters stay free and the table
  -- stays valid.
  pub resize-IsGrown :
      (v : Volume) {l : ℕ} {front : List ℕ} (added rest : List ℕ)
      → IsValid boot v.fat
      → Chain v.fat.table l c front
      → 2 ≤ length v.fat.table
      → length v.fat.table ≤ rounds
      → length (clusters front l) ≡ actual
      → actual < needed
      → get_free_clusters v.fat ≡ ok (added ++ rest)
      → length added ≡ needed - actual
      → ((d : ℕ) → 4096 ≤ length (v.contents d))
      → (v' : Volume) × (resize rounds boot original_size new_size c v ≡ ok (v', c))
        × (grown : IsGrown boot c (clusters front l) added rest v v') × (length
              (clusters grown.front grown.last)
            ≡ needed)
  unfolding resize grow
  resize-IsGrown v {l} {front} added rest valid ch reserved enough sized more free same long =
      let here : length (clusters front l) ≡ length front + 1 = length-append front (l ∷ []) in
      let (v', runs, grown) =
        link_clusters-IsGrown boot rounds c (needed - actual) v added rest valid ch reserved enough
          free same long in
      let not_fewer : ltb needed actual ≡ false = not_ltb needed actual (omega (arith, more)) in
      let not_none : (actual == 0) ≡ false = ne→== actual 0 (λ e. omega (arith, e, sized, here)) in
      (
        v',
        rw (not_fewer, lt→ltb actual needed more, not_none, runs) refl,
        grown,
        omega (
          arith,
          ap length grown.longer,
          length-append (clusters front l) added,
          same,
          sized,
          more,
        ),
      )
