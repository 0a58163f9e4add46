-- ===== src/Pfs/Fat/Free.antt =====
-- The three searches for a free entry of the table (PFS/src/tad_fat.c).
use fuselage_fat32_utn.Prelude.{
  ℕ, zero, suc, ◌+◌, ◌-◌, ◌<◌, ◌≤◌, ◌≡◌, refl, Bool, true, false, some, List, [], ◌∷◌, ◌++◌, ◌||◌,
  arith, ap, ◌∙◌, sym, ◌↔◌, length, get_elem?, drop, get_elem?-drop, append_assoc, ◌==◌, ne→==,
  ==-refl, dec_lt, Bool-cases, inl, inr, if◌then◌else◌, get_elem?-some, append-nil, head_or,
  drop-next, drop_all,
}
use fuselage_fat32_utn.Prelude.Outcome.{Outcome, ok, fault}
use fuselage_fat32_utn.Pfs.Fat.{
  FatTable, scan_free, collect_free, get_free_clusters, first_free, get_next_free_cluster,
}

-- The positions of the zeros of a list that starts at position `i`.
unfoldable pub free_from : List ℕ → ℕ → List ℕ
free_from [] i = []
free_from (x ∷ xs) i = if x == 0 then i ∷ free_from xs (i + 1) else free_from xs (i + 1)

abbrev pub has : ℕ → List ℕ → Bool
has a [] = false
has a (x ∷ xs) = (a == x) || has a xs

above : (xs : List ℕ) (i j : ℕ) → j < i → has j (free_from xs i) ≡ false
unfolding free_from
above [] i j h = refl
above (x ∷ xs) i j h =
    let rest = above xs (i + 1) j (omega arith) in
    elim (Bool-cases (x == 0)) [
      | inl z ↦ rw (z, ne→== j i (omega arith), rest)
      | inr z ↦ rw (z, rest)
    ]

has-free_from :
    (xs : List ℕ) (i k j : ℕ)
    → j ≡ i + k
    → (has j (free_from xs i) ≡ true) ↔ (get_elem? xs k ≡ some 0)
unfolding free_from
has-free_from [] i k j e = (λ h. absurd (cc), λ h. absurd (cc))
has-free_from (x ∷ xs) i zero j e = elim (Bool-cases (x == 0)) [
  | inl z ↦ rw z (ground arith)
  | inr z ↦ rw (z, above xs (i + 1) j (omega arith)) (ground arith)
]
has-free_from (x ∷ xs) i (suc k) j e =
    let rest = has-free_from xs (i + 1) k j (omega arith) in
    elim (Bool-cases (x == 0)) [ inl z ↦ rw (z, ne→== j i (omega arith)) rest | inr z ↦ rw z rest ]

module _ (fat : FatTable) where
  collect_free-from :
      (rounds c : ℕ) (acc : List ℕ)
      → length fat.table ≡ c + rounds
      → collect_free rounds fat c acc ≡ ok (acc ++ free_from (drop c fat.table) c)
  unfolding collect_free free_from
  collect_free-from zero c acc h =
      rw (drop_all fat.table c (omega arith)) (ap ok (sym (append-nil acc)))
  collect_free-from (suc rounds) c acc h =
      step (get_elem?-some fat.table c (omega arith))
        (λ a. collect_free-from rounds (c + 1) a (omega arith))
    where
      step :
          (x : ℕ) × (get_elem? fat.table c ≡ some x)
          → ((a : List ℕ)
              → collect_free rounds fat (c + 1) a
                ≡ ok (a ++ free_from (drop (c + 1) fat.table) (c + 1)))
          → collect_free (suc rounds) fat c acc ≡ ok (acc ++ free_from (drop c fat.table) c)
      step (x, e) rest = elim (Bool-cases (x == 0)) [
        | inl z ↦
            rw (e, drop-next fat.table c x e, z)
              (rest (acc ++ c ∷ []) ∙ ap ok (append_assoc acc (c ∷ []) _))
        | inr z ↦ rw (e, drop-next fat.table c x e, z) (rest acc)
      ]

  first_free-from :
      (rounds c : ℕ)
      → length fat.table ≡ c + rounds
      → first_free rounds fat c ≡ ok (head_or 0 (free_from (drop c fat.table) c))
  unfolding first_free free_from
  first_free-from zero c h = rw (drop_all fat.table c (omega arith))
  first_free-from (suc rounds) c h =
      step (get_elem?-some fat.table c (omega arith)) (first_free-from rounds (c + 1) (omega arith))
    where
      step :
          (x : ℕ) × (get_elem? fat.table c ≡ some x)
          → first_free rounds fat (c + 1)
            ≡ ok (head_or 0 (free_from (drop (c + 1) fat.table) (c + 1)))
          → first_free (suc rounds) fat c ≡ ok (head_or 0 (free_from (drop c fat.table) c))
      step (x, e) rest = elim (Bool-cases (x == 0)) [
        | inl z ↦ rw (e, drop-next fat.table c x e, z)
        | inr z ↦ rw (e, drop-next fat.table c x e, z) rest
      ]

-- The head of a list of free clusters, where running off the table is a fault.
head_or_fault : List ℕ → Outcome ℕ
head_or_fault [] = fault
head_or_fault (x ∷ xs) = ok x

head_or_fault_lem :
    (xs : List ℕ) → head_or_fault xs ≡ (if has (head_or 0 xs) xs then ok (head_or 0 xs) else fault)
unfolding head_or_fault
head_or_fault_lem [] = refl
head_or_fault_lem (x ∷ xs) = rw (==-refl x)

scan_free-from : (xs : List ℕ) (i : ℕ) → scan_free xs i ≡ head_or_fault (free_from xs i)
unfolding scan_free free_from head_or_fault
scan_free-from [] i = refl
scan_free-from (x ∷ xs) i = elim (Bool-cases (x == 0)) [
  | inl z ↦ rw z
  | inr z ↦ rw z (scan_free-from xs (i + 1))
]

module _ (fat : FatTable) (sized : fat.size ≡ length fat.table)
    (reserved : 2 ≤ length fat.table) where
  has-search :
      (c : ℕ)
      → (has c (free_from (drop 2 fat.table) 2) ≡ true)
        ↔ ((2 ≤ c) × (get_elem? fat.table c ≡ some 0))
  has-search c = elim (dec_lt c 2) [
    | yes low ↦
        (λ h. absurd (cc (above (drop 2 fat.table) 2 c low)), λ (high, _). absurd (omega arith))
    | no high ↦
        let at : get_elem? (drop 2 fat.table) (c - 2) ≡ get_elem? fat.table c =
          get_elem?-drop 2 fat.table (c - 2) ∙ ap (get_elem? fat.table) (omega arith) in
        let exact = has-free_from (drop 2 fat.table) 2 (c - 2) c (omega arith) in
        (λ h. (omega arith, sym at ∙ exact.0 h), λ (_, z). exact.1 (at ∙ z))
  ]

  pub get_free_clusters-from : get_free_clusters fat ≡ ok (free_from (drop 2 fat.table) 2)
  unfolding get_free_clusters
  get_free_clusters-from =
      collect_free-from fat (fat.size - 2) 2 [] (omega (arith, sized, reserved))

  -- FAT_get_free_clusters returns the clusters from 2 on whose entries are 0, and no others.
  pub get_free_clusters-exact :
      (xs : List ℕ) × (get_free_clusters fat ≡ ok xs)
      × ((c : ℕ) → (has c xs ≡ true) ↔ ((2 ≤ c) × (get_elem? fat.table c ≡ some 0)))
  unfolding get_free_clusters
  get_free_clusters-exact = (
    free_from (drop 2 fat.table) 2,
    collect_free-from fat (fat.size - 2) 2 [] (omega arith),
    λ c. has-search c,
  )

  -- FAT_get_next_free_cluster returns the first of them or 0, and the unbounded search of
  -- FAT_link_free_cluster returns the first of them or runs off the table.
  pub searches_agree :
      (xs : List ℕ)
      → get_free_clusters fat ≡ ok xs
      → (get_next_free_cluster fat ≡ ok (head_or 0 xs))
        × (scan_free (drop 2 fat.table) 2
            ≡ (if has (head_or 0 xs) xs then ok (head_or 0 xs) else fault))
  unfolding get_next_free_cluster get_free_clusters
  searches_agree xs e =
      let same : free_from (drop 2 fat.table) 2 ≡ xs =
        cc (collect_free-from fat (fat.size - 2) 2 [] (omega arith)) in
      (
        first_free-from fat (fat.size - 2) 2 (omega arith) ∙ ap (λ ys. ok (head_or 0 ys)) same,
        scan_free-from (drop 2 fat.table) 2 ∙ ap head_or_fault same ∙ head_or_fault_lem xs,
      )
