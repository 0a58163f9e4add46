-- ===== src/Pfs/Files/Freed.antt =====
-- The loop of fat32_remove that frees the clusters of a file.
use fuselage_fat32_utn.Prelude.{
  ℕ, ◌<◌, ◌≡◌, ◌≢◌, refl, sym, ap, ◌∙◌, arith, some, List, [], ◌∷◌, ◌==◌, length, get_elem?, set,
  length-set, get_elem?-set_self, get_elem?-set_ne, All, All-mono, Bool-cases, inl, inr,
}
use fuselage_fat32_utn.Prelude.Outcome.{ok}
use fuselage_fat32_utn.Pfs.BootSector.{BootSector}
use fuselage_fat32_utn.Pfs.Fat.{FatTable, set_free_cluster}
use fuselage_fat32_utn.Pfs.Fat.Valid.{IsValid, mark_modified-ok, set_entry-ok}
use fuselage_fat32_utn.Pfs.Files.{free_clusters}

-- The clusters are free, what was free stays so, and no other entry has changed.
pub record IsFreed (boot : BootSector) (fat : FatTable) (cs : List ℕ) (g : FatTable) : Type 0 where
  pub freed : All (λ c. get_elem? g.table c ≡ some 0) cs
  pub zeros : (d : ℕ) → get_elem? fat.table d ≡ some 0 → get_elem? g.table d ≡ some 0
  pub others : (d : ℕ) → All (λ c. c ≢ d) cs → get_elem? g.table d ≡ get_elem? fat.table d
  pub valid : IsValid boot g

set-keeps_zero :
    (t : List ℕ) (c d : ℕ)
    → c < length t
    → get_elem? t d ≡ some 0
    → get_elem? (set t c 0) d ≡ some 0
set-keeps_zero t c d inside h = elim (Bool-cases (c == d)) [
  | inl same ↦
      let e : c ≡ d = ground arith in
      ap (get_elem? (set t c 0)) (sym e) ∙ get_elem?-set_self t c 0 inside
  | inr other ↦ let apart : c ≢ d = ground arith in get_elem?-set_ne t c d 0 apart ∙ h
]

pub free_clusters-IsFreed :
    (boot : BootSector) (cs : List ℕ) (fat : FatTable)
    → IsValid boot fat
    → All (λ c. c < length fat.table) cs
    → (g : FatTable) × (free_clusters boot cs fat ≡ ok g) × IsFreed boot fat cs g
unfolding free_clusters set_free_cluster
free_clusters-IsFreed boot [] fat v inside =
    (fat, refl, record { freed = tt; zeros = λ d h. h; others = λ d h. refl; valid = v })
free_clusters-IsFreed boot (c ∷ cs) fat v inside =
    let n = length-set fat.table c 0 in
    let (e1, v1) = set_entry-ok boot fat c 0 v inside.0 in
    let (ss, e2, v2) =
      mark_modified-ok boot (record fat { table = set fat.table c 0 }) c v1
        (omega (arith, n, inside.0)) in
    let fat2 : FatTable = record fat { table = set fat.table c 0; sectors = ss } in
    let (g, runs, r) =
      free_clusters-IsFreed boot cs fat2 v2
        (All-mono (λ d (h : d < length fat.table). omega (arith, n, h)) cs inside.1) in
    (
      g,
      rw e1 (rw e2 runs),
      record {
        freed = (r.zeros c (get_elem?-set_self fat.table c 0 inside.0), r.freed);
        zeros = λ d h. r.zeros d (set-keeps_zero fat.table c d inside.0 h);
        others = λ d h. r.others d h.1 ∙ get_elem?-set_ne fat.table c d 0 h.0;
        valid = r.valid;
      },
    )
