-- ===== src/Pfs/Fat/Link.antt =====
-- FAT_link_free_cluster (PFS/src/tad_fat.c).
use fuselage_fat32_utn.Prelude.{
  ℕ, ◌<◌, ◌≤◌, ◌≡◌, ◌≢◌, false, some, List, [], ◌∷◌, arith, ap, ◌∙◌, sym, length, get_elem?, set,
  length-set, get_elem?-set_self, get_elem?-set_ne, get_elem?-lt, drop, ==-refl, length-append,
  some-inj,
}
use fuselage_fat32_utn.Prelude.Outcome.{ok, fault}
use fuselage_fat32_utn.Pfs.BootSector.{BootSector}
use fuselage_fat32_utn.Pfs.Fat.{FatTable, is_eoc, link_free_cluster, get_free_clusters, scan_free}
use fuselage_fat32_utn.Pfs.Fat.Chain.{Chain, clusters, Chain-end, Chain-extend, length-clusters-le}
use fuselage_fat32_utn.Pfs.Fat.Walk.{last_of_chain-Chain, eoc-ne-zero}
use fuselage_fat32_utn.Pfs.Fat.Valid.{
  IsValid, mark_modified-ok, set_entry-ok, IsMarked, mark_modified-IsMarked, mark_modified-keeps,
}
use fuselage_fat32_utn.Pfs.Fat.Free.{get_free_clusters-exact, searches_agree}

-- The result: the first free cluster `f` is behind the chain, no other entry has changed, and the
-- sectors of the two entries are marked.
pub record IsLinked (boot : BootSector) (fat : FatTable) (c l f : ℕ) (front : List ℕ) (g : FatTable)
    : Type 0 where
  pub was_free : get_elem? fat.table f ≡ some 0
  pub not_reserved : 2 ≤ f
  pub chain : Chain g.table f c (clusters front l)
  pub others : (d : ℕ) → d ≢ l → d ≢ f → get_elem? g.table d ≡ get_elem? fat.table d
  pub valid : IsValid boot g
  pub same_length : length g.table ≡ length fat.table
  pub last_marked : IsMarked boot g l
  pub new_marked : IsMarked boot g f

small_not_eoc : (n : ℕ) → n < 0x0FFFFFF0 → is_eoc n ≡ false
unfolding is_eoc
small_not_eoc n h = ground arith

module _ (boot : BootSector) (fat : FatTable) (rounds : ℕ) where
  linked_table :
      {c l : ℕ} {front : List ℕ} (f : ℕ)
      → IsValid boot fat
      → Chain fat.table l c front
      → get_elem? fat.table f ≡ some 0
      → 2 ≤ f
      → Chain (set (set fat.table l f) f fat.eoc) f c (clusters front l)
  linked_table {l} f v ch free high =
      let (w, at, k) = Chain-end ch in
      let in_f : f < length fat.table = get_elem?-lt fat.table f 0 free in
      let in_l : l < length fat.table = get_elem?-lt fat.table l w at in
      let apart : f ≢ l =
        λ e. eoc-ne-zero w k (some-inj (sym at ∙ ap (get_elem? fat.table) (sym e) ∙ free)) in
      Chain-extend f fat.eoc ch
        (λ d x dx kx nx.
          get_elem?-set_ne (set fat.table l f) f d fat.eoc
            (λ e. nx (some-inj (sym dx ∙ ap (get_elem? fat.table) (sym e) ∙ free)))
          ∙ get_elem?-set_ne fat.table l d f
              (λ e. cc (ap is_eoc (some-inj (sym dx ∙ ap (get_elem? fat.table) (sym e) ∙ at))))
          ∙ dx)
        (get_elem?-set_ne (set fat.table l f) f l fat.eoc apart
          ∙ get_elem?-set_self fat.table l f in_l)
        (small_not_eoc f (omega (arith, v.small))) (omega arith)
        (get_elem?-set_self (set fat.table l f) f fat.eoc (omega (arith, length-set fat.table l f)))
        v.mark

  link_at :
      {c l : ℕ} {front : List ℕ} (f : ℕ)
      → IsValid boot fat
      → Chain fat.table l c front
      → length fat.table ≤ rounds
      → scan_free (drop 2 fat.table) 2 ≡ ok f
      → get_elem? fat.table f ≡ some 0
      → 2 ≤ f
      → (g : FatTable) × (link_free_cluster rounds boot c fat ≡ ok (g, f))
        × IsLinked boot fat c l f front g
  unfolding link_free_cluster
  link_at {c} {l} {front} f v ch h scan free high =
      let (w, at, k) = Chain-end ch in
      let in_f : f < length fat.table = get_elem?-lt fat.table f 0 free in
      let in_l : l < length fat.table = get_elem?-lt fat.table l w at in
      let (e1, v1) = set_entry-ok boot fat l f v in_l in
      let fat1 : FatTable = record fat { table = set fat.table l f } in
      let n1 = length-set fat.table l f in
      let (e2, v2) = set_entry-ok boot fat1 f fat.eoc v1 (omega (arith, n1)) in
      let fat2 : FatTable = record fat { table = set (set fat.table l f) f fat.eoc } in
      let n2 = length-set (set fat.table l f) f fat.eoc in
      let (ss, e3, v3) = mark_modified-ok boot fat2 l v2 (omega (arith, n1, n2)) in
      let fat3 : FatTable = record fat2 { sectors = ss } in
      let (ss', e4, v4) = mark_modified-ok boot fat3 f v3 (omega (arith, n1, n2)) in
      (
        record fat2 { sectors = ss' },
        rw
            (
              last_of_chain-Chain fat rounds ch
                  (omega (arith, length-clusters-le ch, length-append front (l ∷ []))),
              scan,
            )
            (rw e1 (rw e2 (rw e3 (rw e4)))),
        record {
          was_free = free;
          not_reserved = high;
          chain = linked_table f v ch free high;
          others = λ d dl df.
              get_elem?-set_ne (set fat.table l f) f d fat.eoc (λ e. df (sym e))
              ∙ get_elem?-set_ne fat.table l d f (λ e. dl (sym e));
          valid = v4;
          same_length = n2 ∙ n1;
          last_marked =
              mark_modified-keeps boot fat3 _ f e4 l (mark_modified-IsMarked boot fat2 fat3 l e3);
          new_marked = mark_modified-IsMarked boot fat3 _ f e4;
        },
      )

  module _ {c l : ℕ} {front : List ℕ} (v : IsValid boot fat) (ch : Chain fat.table l c front)
      (reserved : 2 ≤ length fat.table) (enough : length fat.table ≤ rounds) where
    -- In a valid table with a free cluster, FAT_link_free_cluster puts the first free cluster
    -- behind the last cluster of the chain, with an end mark, leaves all other entries alone,
    -- marks the sectors of the two that it changes and keeps the table valid. `fat.size` rounds are
    -- enough for its loop.
    pub link_free_cluster_lem :
        (f : ℕ) (rest : List ℕ)
        → get_free_clusters fat ≡ ok (f ∷ rest)
        → (g : FatTable) × (link_free_cluster rounds boot c fat ≡ ok (g, f))
          × IsLinked boot fat c l f front g
    link_free_cluster_lem f rest e =
        let (xs, found, exact) = get_free_clusters-exact fat v.sized reserved in
        let same : xs ≡ f ∷ rest = cc (found, e) in
        let (high, free) = (exact f).0 (rw (same, ==-refl f)) in
        let (_, scan) = searches_agree fat v.sized reserved (f ∷ rest) e in
        link_at f v ch enough (rw ==-refl at scan) free high

    -- With no free cluster it reads past the end of the table: nothing stops its search.
    pub link_free_cluster-full :
        get_free_clusters fat ≡ ok [] → link_free_cluster rounds boot c fat ≡ fault
    unfolding link_free_cluster
    link_free_cluster-full e =
        let (_, scan) = searches_agree fat v.sized reserved [] e in
        rw (
          last_of_chain-Chain fat rounds ch
              (omega (arith, length-clusters-le ch, length-append front (l ∷ []))),
          scan,
        )
