-- ===== src/Pfs/Truncate/Chains.antt =====
-- The chain of a file that gets shorter or longer.
use fuselage_fat32_utn.Prelude.{
  ℕ, zero, suc, ◌<◌, ◌≤◌, ◌≡◌, refl, ◌≢◌, sym, ap, subst, ◌∙◌, arith, some, List, [], ◌∷◌, ◌++◌,
  length, get_elem?, ◌⊎◌, inl, inr, set, get_elem?-set_self, get_elem?-set_ne, get_elem?-lt,
  length-append, append_assoc, append-nil, some-inj, All, All-append,
}
use fuselage_fat32_utn.Prelude.Outcome.{ok}
use fuselage_fat32_utn.Pfs.BootSector.{BootSector}
use fuselage_fat32_utn.Pfs.Fat.{FatTable}
use fuselage_fat32_utn.Pfs.Fat.Chain.{Chain, link, end, clusters, Chain-end, Chain-before}
use fuselage_fat32_utn.Pfs.Fat.Walk.{eoc-ne-zero}
use fuselage_fat32_utn.Pfs.Fat.Valid.{IsValid}
use fuselage_fat32_utn.Pfs.Fat.Supply.{IsUnused}
use fuselage_fat32_utn.Pfs.Fat.Unlink.{
  IsUnlinked, remove_last_linked_cluster_lem, remove_last_linked_cluster-single,
}
use fuselage_fat32_utn.Pfs.Truncate.{remove_clusters}

-- A list that is not empty ends in an item.
last_item : (xs : List ℕ) → 0 < length xs → (ys : List ℕ) × (y : ℕ) × (xs ≡ ys ++ y ∷ [])
last_item [] h = absurd (omega (arith, h))
last_item (x ∷ []) h = ([], x, refl)
last_item (x ∷ x' ∷ xs) h =
    let (ys, y, e) = last_item (x' ∷ xs) (omega arith) in (x ∷ ys, y, ap (λ l. x ∷ l) e)

-- The last cluster of a chain with others before it is not cluster 0.
last-ne-zero :
    {t : List ℕ} {l c : ℕ} {front : List ℕ} → Chain t l c front → 0 < length front → l ≢ 0
last-ne-zero (end v e at k) h = absurd (omega (arith, h))
last-ne-zero (link v at k n (end w e m q)) h = λ z. n (e ∙ z)
last-ne-zero (link v at k n (link w m q p r)) h = last-ne-zero (link w m q p r) (omega arith)

-- Free entries stay free when a cluster is removed.
unlinked-IsUnused :
    {boot : BootSector} {fat g : FatTable} {c b l : ℕ} {whole front : List ℕ}
    → Chain fat.table l c whole
    → whole ≡ clusters front b
    → IsUnlinked boot fat c b l front g
    → (d : ℕ) → get_elem? fat.table d ≡ some 0
    → get_elem? g.table d ≡ some 0
unlinked-IsUnused {fat = fat} {b = b} {l = l} {whole} {front} ch eq u d zero_there =
    let (w, at, k) = Chain-end ch in
    let positive : l ≢ 0 =
      last-ne-zero ch (omega (arith, ap length eq, length-append front (b ∷ []))) in
    u.others d
      (λ e. eoc-ne-zero w k (some-inj (sym at ∙ ap (get_elem? fat.table) (sym e) ∙ zero_there)))
      (λ e. positive (
        some-inj
          (sym (Chain-before front b ch eq) ∙ ap (get_elem? fat.table) (sym e) ∙ zero_there)))
    ∙ zero_there

-- A chain without a cluster before its last one.
alone : {t : List ℕ} {l c : ℕ} → Chain t l c [] → c ≡ l
alone (end v e at k) = e

-- What is left when the last clusters of a chain are removed: the clusters before them, in a valid
-- table in which the removed ones are free, and with them all that were.
pub record IsCut (boot : BootSector) (fat g : FatTable) (c : ℕ) (whole : List ℕ) (k : ℕ)
    : Type 0 where
  pub last : ℕ
  pub front : List ℕ
  pub removed : List ℕ
  pub chain : Chain g.table last c front
  pub split : whole ≡ clusters front last ++ removed
  pub many : length removed ≡ k
  pub freed : All (IsUnused g.table) removed
  pub still_free : (d : ℕ) → IsUnused fat.table d → IsUnused g.table d
  pub valid : IsValid boot g

module _ (boot : BootSector) (rounds c : ℕ) where
  -- In a valid table, when fewer clusters are to be removed than the chain of the file has and the
  -- fuel is the size of the table, the loop of fat32_truncate that removes clusters ends without a
  -- fault: it takes that many off the end of the chain and frees them, the clusters before them are
  -- the chain that is left, what was free stays free, and the table stays valid. The number that the
  -- loop ends with is not 0 when it removes a cluster.
  pub remove_clusters-IsCut :
      (k last_removed : ℕ) (fat : FatTable) {l : ℕ} {front : List ℕ}
      → IsValid boot fat
      → Chain fat.table l c front
      → length fat.table ≤ rounds
      → k ≤ length front
      → (g : FatTable) × (r : ℕ) × (remove_clusters k rounds boot c last_removed fat ≡ ok (g, r))
        × IsCut boot fat g c (clusters front l) k
        × ((last_removed ≢ 0) ⊎ (0 < k) → r ≢ 0)
  unfolding remove_clusters
  remove_clusters-IsCut zero last_removed fat {l} {front} v ch enough h = (
    fat,
    last_removed,
    refl,
    record {
      last = l;
      front = front;
      removed = [];
      chain = ch;
      split = sym (append-nil (clusters front l));
      many = refl;
      freed = tt;
      still_free = λ d z. z;
      valid = v;
    },
    nonzero,
  )
    where
      nonzero : (last_removed ≢ 0) ⊎ (0 < 0) → last_removed ≢ 0
      nonzero (inl n) = n
      nonzero (inr h) = absurd (omega (arith, h))
  remove_clusters-IsCut (suc k) last_removed fat {l} {front} v ch enough h =
      let (ys, b, eq) = last_item front (omega (arith, h)) in
      let (g1, runs, u) = remove_last_linked_cluster_lem boot fat rounds b ys v ch eq enough in
      let shorter : k ≤ length ys = omega (arith, h, ap length eq, length-append ys (b ∷ [])) in
      let (g, r, rest, cut, positive) =
        remove_clusters-IsCut k l g1 u.valid u.chain (omega (arith, enough, u.same_length))
          shorter in
      (
        g,
        r,
        rw (runs, rest) refl,
        record {
          last = cut.last;
          front = cut.front;
          removed = cut.removed ++ l ∷ [];
          chain = cut.chain;
          split =
              ap (λ xs. xs ++ l ∷ []) (eq ∙ cut.split)
              ∙ append_assoc (clusters cut.front cut.last) cut.removed (l ∷ []);
          many = omega (arith, cut.many, length-append cut.removed (l ∷ []));
          freed =
              All-append (IsUnused g.table) cut.removed (l ∷ []) cut.freed
                (cut.still_free l u.freed, tt);
          still_free = λ d z. cut.still_free d (unlinked-IsUnused ch eq u d z);
          valid = cut.valid;
        },
        λ _. positive (inl (last-ne-zero ch (omega (arith, h)))),
      )

  -- In a valid table, when as many clusters are to be removed as the chain of the file has and the
  -- fuel is the size of the table, the loop frees them all and ends with the number 0, by which
  -- fat32_truncate sees that no cluster is left. What was free stays free, and the table stays valid.
  pub remove_clusters-all :
      (n last_removed : ℕ) (fat : FatTable) {l : ℕ} {front : List ℕ}
      → IsValid boot fat
      → Chain fat.table l c front
      → length fat.table ≤ rounds
      → length front ≡ n
      → (g : FatTable) × (remove_clusters (suc n) rounds boot c last_removed fat ≡ ok (g, 0))
        × All (IsUnused g.table) (clusters front l)
        × ((d : ℕ) → IsUnused fat.table d → IsUnused g.table d)
        × IsValid boot g
  unfolding remove_clusters
  remove_clusters-all zero last_removed fat {l} {front = []} v ch enough h =
      let same = alone ch in
      let (w, at, e) = Chain-end ch in
      let (g, runs, table, v') =
        remove_last_linked_cluster-single boot fat rounds v
          (subst (λ x. Chain fat.table x c []) (sym same) ch) in
      (
        g,
        rw runs refl,
        (
          ap (λ t. get_elem? t l) table
              ∙ ap (λ x. get_elem? (set fat.table x 0) l) same
              ∙ get_elem?-set_self fat.table l 0 (get_elem?-lt fat.table l w at),
          tt,
        ),
        λ d z.
            ap (λ t. get_elem? t d) table
            ∙ get_elem?-set_ne fat.table c d 0 (λ q.
              eoc-ne-zero w e (some-inj (sym at ∙ ap (get_elem? fat.table) (sym same ∙ q) ∙ z)))
            ∙ z,
        v',
      )
  remove_clusters-all zero last_removed fat {l} {front = x ∷ front} v ch enough h =
      absurd (omega (arith, h))
  remove_clusters-all (suc n) last_removed fat {l} {front} v ch enough h =
      let (ys, b, eq) = last_item front (omega (arith, h)) in
      let (g1, runs, u) = remove_last_linked_cluster_lem boot fat rounds b ys v ch eq enough in
      let shorter : length ys ≡ n = omega (arith, h, ap length eq, length-append ys (b ∷ [])) in
      let (g, rest, freed, still_free, v') =
        remove_clusters-all n l g1 u.valid u.chain (omega (arith, enough, u.same_length)) shorter in
      (
        g,
        rw (runs, rest) refl,
        subst (λ xs. All (IsUnused g.table) (xs ++ l ∷ [])) (sym eq)
            (All-append (IsUnused g.table) (clusters ys b) (l ∷ []) freed
              (still_free l u.freed, tt)),
        λ d z. still_free d (unlinked-IsUnused ch eq u d z),
        v',
      )
