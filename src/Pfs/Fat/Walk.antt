-- ===== src/Pfs/Fat/Walk.antt =====
-- The loops of PFS/src/tad_fat.c that follow a chain to its end.
use fuselage_fat32_utn.Prelude.{
  ℕ, zero, suc, ◌<◌, ◌≤◌, ◌≡◌, ◌≢◌, true, List, [], ◌∷◌, ◌++◌, arith, ap, ◌∙◌, length, get_elem?,
  append_assoc, length-append, ne→==,
}
use fuselage_fat32_utn.Prelude.Outcome.{ok}
use fuselage_fat32_utn.Pfs.Fat.{
  FatTable, is_eoc, follow, get_linked_clusters, last_of_chain, last_two_of_chain,
}
use fuselage_fat32_utn.Pfs.Fat.Chain.{Chain, end, link, clusters, length-clusters-le}

pub eoc-ne-zero : (v : ℕ) → is_eoc v ≡ true → v ≢ 0
unfolding is_eoc
eoc-ne-zero v k = ground arith

pub eoc-ge : (v : ℕ) → is_eoc v ≡ true → 0x0FFFFFF8 ≤ v
unfolding is_eoc
eoc-ge v k = ground arith

module _ (fat : FatTable) where
  follow-Chain :
      {l c : ℕ} {front : List ℕ} (rounds : ℕ) (acc : List ℕ)
      → Chain fat.table l c front
      → length front < rounds
      → follow rounds fat c acc ≡ ok (acc ++ clusters front l)
  unfolding follow
  follow-Chain zero acc ch h = absurd (omega arith)
  follow-Chain (suc rounds) acc (end v e at k) h = rw (e, at, k)
  follow-Chain {l} (suc rounds) acc (link {c} {front} v at k n r) h =
      rw (at, k)
        (follow-Chain rounds (acc ++ c ∷ []) r (omega arith)
          ∙ ap ok (append_assoc acc (c ∷ []) (clusters front l)))

  pub last_of_chain-Chain :
      {l c : ℕ} {front : List ℕ} (rounds : ℕ)
      → Chain fat.table l c front
      → length front < rounds
      → last_of_chain rounds fat c ≡ ok l
  unfolding last_of_chain
  last_of_chain-Chain zero ch h = absurd (omega arith)
  last_of_chain-Chain (suc rounds) (end v e at k) h = rw (e, at, k)
  last_of_chain-Chain (suc rounds) (link v at k n r) h =
      rw (at, k) (last_of_chain-Chain rounds r (omega arith))

  last_two-Chain :
      {l c : ℕ} {whole : List ℕ} (rounds : ℕ) (before b : ℕ) (front : List ℕ)
      → Chain fat.table l c whole
      → before ∷ whole ≡ front ++ b ∷ []
      → length whole < rounds
      → last_two_of_chain rounds fat before c ≡ ok (b, l)
  unfolding last_two_of_chain
  last_two-Chain zero before b front ch eq h = absurd (omega arith)
  last_two-Chain (suc rounds) before b [] (end v e at k) eq h = rw (e, at, k) (ap ok (cc))
  last_two-Chain (suc rounds) before b (x ∷ front) (end v e at k) eq h =
      absurd (omega (arith, ap length eq, length-append front (b ∷ [])))
  last_two-Chain (suc rounds) before b [] (link v at k n r) eq h = absurd (cc)
  last_two-Chain (suc rounds) before b (x ∷ front) (link {c} v at k n r) eq h =
      rw (at, k) (last_two-Chain rounds c b front r (cc) (omega arith))

  -- The walk of a chain with two clusters or more finds the last two of them.
  pub last_two_of_chain-Chain :
      {l c : ℕ} {whole : List ℕ} (rounds b : ℕ) (front : List ℕ)
      → Chain fat.table l c whole
      → whole ≡ clusters front b
      → length whole < rounds
      → last_two_of_chain rounds fat c c ≡ ok (b, l)
  last_two_of_chain-Chain {c} rounds b front ch eq h =
      last_two-Chain rounds c b (c ∷ front) ch (ap (λ r. c ∷ r) eq) h

  -- Over a chain that starts at cluster 2 or later, with rounds for every entry of the table and
  -- `fat.EOC` an end mark, FAT_get_linked_clusters returns the clusters of the chain in order.
  pub get_linked_clusters-Chain :
      {l c : ℕ} {front : List ℕ} (rounds : ℕ)
      → is_eoc fat.eoc ≡ true
      → length fat.table ≤ rounds
      → 2 ≤ c
      → Chain fat.table l c front
      → get_linked_clusters rounds fat c ≡ ok (clusters front l)
  unfolding get_linked_clusters
  get_linked_clusters-Chain rounds mark h low (end {c} v e at k) =
      rw (ne→== c 0 (omega arith), ne→== c 1 (omega arith), ap (get_elem? fat.table) e, at)
        (rw (ne→== v 0 (eoc-ne-zero v k), k, e))
  get_linked_clusters-Chain {l} rounds mark h low (link {c} {front} v at k n r) =
      rw (ne→== c 0 (omega arith), ne→== c 1 (omega arith), at)
        (rw (ne→== v 0 n, k, ne→== v fat.eoc (λ q. cc (ap is_eoc q)))
          (follow-Chain rounds [] (link v at k n r) (
            omega
              (arith, length-clusters-le (link v at k n r), length-append (c ∷ front) (l ∷ [])))))
