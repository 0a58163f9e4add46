-- ===== src/Pfs/Fat/Unlink.antt =====
-- FAT_remove_last_linked_cluster (PFS/src/tad_fat.c).
use fuselage_fat32_utn.Prelude.{
  ℕ, ◌<◌, ◌≤◌, ◌≡◌, refl, ◌≢◌, false, some, List, [], ◌∷◌, arith, ap, ◌∙◌, sym, length, get_elem?,
  set, length-set, get_elem?-set_self, get_elem?-set_ne, get_elem?-lt, length-append, some-inj,
}
use fuselage_fat32_utn.Prelude.Outcome.{ok}
use fuselage_fat32_utn.Pfs.BootSector.{BootSector}
use fuselage_fat32_utn.Pfs.Fat.{FatTable, is_eoc, remove_last_linked_cluster}
use fuselage_fat32_utn.Pfs.Fat.Chain.{
  Chain, link, end, clusters, Chain-end, Chain-before, Chain-shorten, length-clusters-le,
}
use fuselage_fat32_utn.Pfs.Fat.Walk.{last_two_of_chain-Chain, eoc-ge}
use fuselage_fat32_utn.Pfs.Fat.Valid.{
  IsValid, mark_modified-ok, set_entry-ok, IsMarked, mark_modified-IsMarked, mark_modified-keeps,
}

-- The result: `b` ends the chain, `l` is free, no other entry has changed, and the sectors of the
-- two entries are marked.
pub record IsUnlinked (boot : BootSector) (fat : FatTable) (c b l : ℕ) (front : List ℕ)
    (g : FatTable) : Type 0 where
  pub freed : get_elem? g.table l ≡ some 0
  pub chain : Chain g.table b c front
  pub others : (d : ℕ) → d ≢ l → d ≢ b → get_elem? g.table d ≡ get_elem? fat.table d
  pub valid : IsValid boot g
  pub same_length : length g.table ≡ length fat.table
  pub before_marked : IsMarked boot g b
  pub last_marked : IsMarked boot g l

head-link :
    {t : List ℕ} {l c : ℕ} {whole : List ℕ} (b : ℕ) (front : List ℕ)
    → Chain t l c whole
    → whole ≡ clusters front b
    → (v : ℕ) × (get_elem? t c ≡ some v) × (is_eoc v ≡ false)
head-link b [] (end v e at k) eq = absurd (cc)
head-link b (x ∷ front) (end v e at k) eq = absurd (cc)
head-link b front (link v at k n r) eq = (v, at, k)

before-ne-last :
    {t : List ℕ} {l c b : ℕ} {whole : List ℕ} (front : List ℕ)
    → Chain t l c whole
    → whole ≡ clusters front b
    → length t ≤ 0x0FFFFFF0
    → b ≢ l
before-ne-last {t} {l} front ch eq small e =
    let (w, at, k) = Chain-end ch in
    let to_l : w ≡ l = some-inj (sym at ∙ ap (get_elem? t) (sym e) ∙ Chain-before front _ ch eq) in
    omega (arith, eoc-ge w k, get_elem?-lt t l w at)

module _ (boot : BootSector) (fat : FatTable) (rounds : ℕ) where
  -- Of a chain with two clusters or more, FAT_remove_last_linked_cluster frees the last cluster,
  -- returns it, makes the one before it the end, leaves all other entries alone and marks the
  -- sectors of these two.
  pub remove_last_linked_cluster_lem :
      {c l : ℕ} {whole : List ℕ} (b : ℕ) (front : List ℕ)
      → IsValid boot fat
      → Chain fat.table l c whole
      → whole ≡ clusters front b
      → length fat.table ≤ rounds
      → (g : FatTable) × (remove_last_linked_cluster rounds boot c fat ≡ ok (g, l))
        × IsUnlinked boot fat c b l front g
  unfolding remove_last_linked_cluster
  remove_last_linked_cluster_lem {c} {l} {whole} b front v ch eq h =
      let (w, at, k) = Chain-end ch in
      let (x, atx, kx) = head-link b front ch eq in
      let in_l : l < length fat.table = get_elem?-lt fat.table l w at in
      let in_b : b < length fat.table = get_elem?-lt fat.table b l (Chain-before front b ch eq) in
      let apart = before-ne-last front ch eq v.small in
      let (e1, v1) = set_entry-ok boot fat l 0 v in_l in
      let fat1 : FatTable = record fat { table = set fat.table l 0 } in
      let n1 = length-set fat.table l 0 in
      let (e2, v2) = set_entry-ok boot fat1 b fat.eoc v1 (omega (arith, n1)) in
      let fat2 : FatTable = record fat { table = set (set fat.table l 0) b fat.eoc } in
      let n2 = length-set (set fat.table l 0) b fat.eoc in
      let (ss, e3, v3) = mark_modified-ok boot fat2 b v2 (omega (arith, n1, n2)) in
      let fat3 : FatTable = record fat2 { sectors = ss } in
      let (ss', e4, v4) = mark_modified-ok boot fat3 l v3 (omega (arith, n1, n2)) in
      (
        record fat2 { sectors = ss' },
        rw (atx, kx)
            (rw
              (last_two_of_chain-Chain fat rounds b front ch eq
                (omega (arith, length-clusters-le ch, length-append whole (l ∷ []))))
              (rw e1 (rw e2 (rw e3 (rw e4))))),
        record {
          freed =
              get_elem?-set_ne (set fat.table l 0) b l fat.eoc apart
              ∙ get_elem?-set_self fat.table l 0 in_l;
          chain =
              Chain-shorten front b fat.eoc ch eq
                (λ d y db dy ky.
                  get_elem?-set_ne (set fat.table l 0) b d fat.eoc (λ e. db (sym e))
                  ∙ get_elem?-set_ne fat.table l d 0 (λ e.
                    cc (ap is_eoc (some-inj (sym dy ∙ ap (get_elem? fat.table) (sym e) ∙ at))))
                  ∙ dy)
                (get_elem?-set_self (set fat.table l 0) b fat.eoc (omega (arith, n1))) v.mark;
          others = λ d dl db.
              get_elem?-set_ne (set fat.table l 0) b d fat.eoc (λ e. db (sym e))
              ∙ get_elem?-set_ne fat.table l d 0 (λ e. dl (sym e));
          valid = v4;
          same_length = n2 ∙ n1;
          before_marked =
              mark_modified-keeps boot fat3 _ l e4 b (mark_modified-IsMarked boot fat2 fat3 b e3);
          last_marked = mark_modified-IsMarked boot fat3 _ l e4;
        },
      )

  -- A chain of one cluster is freed, and 0 is returned.
  pub remove_last_linked_cluster-single :
      {c : ℕ}
      → IsValid boot fat
      → Chain fat.table c c []
      → (g : FatTable) × (remove_last_linked_cluster rounds boot c fat ≡ ok (g, 0))
        × (g.table ≡ set fat.table c 0)
        × IsValid boot g
  unfolding remove_last_linked_cluster
  remove_last_linked_cluster-single {c} v ch =
      let (w, at, k) = Chain-end ch in
      let in_c : c < length fat.table = get_elem?-lt fat.table c w at in
      let (e1, v1) = set_entry-ok boot fat c 0 v in_c in
      let fat1 : FatTable = record fat { table = set fat.table c 0 } in
      let (ss, e2, v2) =
        mark_modified-ok boot fat1 c v1 (omega (arith, length-set fat.table c 0)) in
      (record fat1 { sectors = ss }, rw (at, k) (rw e2), refl, v2)
