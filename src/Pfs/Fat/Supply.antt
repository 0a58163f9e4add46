-- ===== src/Pfs/Fat/Supply.antt =====
-- The clusters that are free before and after one is linked.
use fuselage_fat32_utn.Prelude.{
  ℕ, suc, ◌+◌, ◌≤◌, ◌≡◌, refl, ◌≢◌, sym, ap, ◌∙◌, arith, false, some, List, [], ◌∷◌, length,
  get_elem?, drop, ◌==◌, Bool-cases, inl, inr, some-inj, length-drop, get_elem?-drop,
}
use fuselage_fat32_utn.Prelude.Outcome.{ok, ok-inj}
use fuselage_fat32_utn.Pfs.BootSector.{BootSector}
use fuselage_fat32_utn.Pfs.Fat.{FatTable, get_free_clusters}
use fuselage_fat32_utn.Pfs.Fat.Chain.{Chain, Chain-end, Chain-before}
use fuselage_fat32_utn.Pfs.Fat.Walk.{eoc-ne-zero}
use fuselage_fat32_utn.Pfs.Fat.Valid.{IsValid}
use fuselage_fat32_utn.Pfs.Fat.Free.{free_from, get_free_clusters-from}
use fuselage_fat32_utn.Pfs.Fat.Link.{IsLinked}

-- The entry of a cluster that is free.
abbrev pub IsUnused : List ℕ → ℕ → Type 0
IsUnused t d = get_elem? t d ≡ some 0

head-IsUnused : (x : ℕ) (xs : List ℕ) → (x == 0) ≡ false → IsUnused (x ∷ xs) 0 → ⊥
head-IsUnused x xs n e = ground arith

free_from-same :
    (xs ys : List ℕ) (i : ℕ)
    → length xs ≡ length ys
    → ((k : ℕ) → IsUnused ys k → IsUnused xs k)
    → ((k : ℕ) → IsUnused xs k → IsUnused ys k)
    → free_from ys i ≡ free_from xs i
unfolding free_from
free_from-same [] [] i h back forth = refl
free_from-same [] (y ∷ ys) i h back forth = absurd (omega (arith, h))
free_from-same (x ∷ xs) [] i h back forth = absurd (omega (arith, h))
free_from-same (x ∷ xs) (y ∷ ys) i h back forth =
    let rest =
      free_from-same xs ys (i + 1) (omega (arith, h)) (λ k. back (suc k)) (λ k. forth (suc k)) in
    elim (Bool-cases (x == 0)) [
      | inl zx ↦ elim (Bool-cases (y == 0)) [
        | inl zy ↦ rw (zx, zy) (ap (λ l. i ∷ l) rest)
        | inr ny ↦ absurd (head-IsUnused y ys ny (forth 0 (ground arith)))
      ]
      | inr nx ↦ elim (Bool-cases (y == 0)) [
        | inl zy ↦ absurd (head-IsUnused x xs nx (back 0 (ground arith)))
        | inr ny ↦ rw (nx, ny) rest
      ]
    ]

-- When the first free entry is no longer free, the others are what is left.
free_from-without :
    (xs ys : List ℕ) (i f : ℕ) (rest : List ℕ)
    → length xs ≡ length ys
    → ((k : ℕ) → IsUnused ys k → IsUnused xs k)
    → ((k : ℕ) → i + k ≢ f → IsUnused xs k → IsUnused ys k)
    → ((k : ℕ) → i + k ≡ f → IsUnused ys k → ⊥)
    → free_from xs i ≡ f ∷ rest
    → free_from ys i ≡ rest
unfolding free_from
free_from-without [] ys i f rest h back forth taken e = absurd (cc)
free_from-without (x ∷ xs) [] i f rest h back forth taken e = absurd (omega (arith, h))
free_from-without (x ∷ xs) (y ∷ ys) i f rest h back forth taken e = elim (Bool-cases (x == 0)) [
  | inl zx ↦
      let split : i ∷ free_from xs (i + 1) ≡ f ∷ rest = rw zx at e in
      let first : i ≡ f = cc split in
      let others : free_from xs (i + 1) ≡ rest = cc split in
      elim (Bool-cases (y == 0)) [
        | inl zy ↦ absurd (taken 0 (omega (arith, first)) (ground arith))
        | inr ny ↦ rw ny (
            free_from-same xs ys (i + 1) (omega (arith, h)) (λ k. back (suc k))
              (λ k. forth (suc k) (λ q. omega (arith, q, first)))
            ∙ others)
      ]
  | inr nx ↦ elim (Bool-cases (y == 0)) [
    | inl zy ↦ absurd (head-IsUnused x xs nx (back 0 (ground arith)))
    | inr ny ↦ rw ny (
        free_from-without xs ys (i + 1) f rest (omega (arith, h)) (λ k. back (suc k))
          (λ k n. forth (suc k) (λ q. n (omega (arith, q))))
          (λ k q. taken (suc k) (omega (arith, q))) (rw nx at e))
  ]
]

module _ {boot : BootSector} {fat g : FatTable} {c l f : ℕ} {front : List ℕ}
    (ch : Chain fat.table l c front) (u : IsLinked boot fat c l f front g) where
  -- The entries that change are not free behind the link, and the last cluster was not before.
  new_used : IsUnused g.table f → ⊥
  new_used z = let (w, at, k) = Chain-end u.chain in eoc-ne-zero w k (some-inj (sym at ∙ z))

  last_points : get_elem? g.table l ≡ some f
  last_points = Chain-before front l u.chain refl

  last_used : IsUnused g.table l → ⊥
  last_used z = omega (arith, u.not_reserved, some-inj (sym last_points ∙ z))

  last_was_used : IsUnused fat.table l → ⊥
  last_was_used z = let (w, at, k) = Chain-end ch in eoc-ne-zero w k (some-inj (sym at ∙ z))

  IsUnused-back : (d : ℕ) → IsUnused g.table d → IsUnused fat.table d
  IsUnused-back d z =
      sym (
        u.others d (λ e. last_used (ap (get_elem? g.table) (sym e) ∙ z))
          (λ e. new_used (ap (get_elem? g.table) (sym e) ∙ z)))
      ∙ z

  IsUnused-forth : (d : ℕ) → d ≢ f → IsUnused fat.table d → IsUnused g.table d
  IsUnused-forth d n z =
      u.others d (λ e. last_was_used (ap (get_elem? fat.table) (sym e) ∙ z)) n ∙ z

  -- The clusters that are free behind a link are those before it without the first.
  pub get_free_clusters-linked :
      (rest : List ℕ)
      → IsValid boot fat
      → 2 ≤ length fat.table
      → get_free_clusters fat ≡ ok (f ∷ rest)
      → get_free_clusters g ≡ ok rest
  get_free_clusters-linked rest v reserved e =
      let n = u.same_length in
      let before : free_from (drop 2 fat.table) 2 ≡ f ∷ rest =
        ok-inj (sym (get_free_clusters-from fat v.sized reserved) ∙ e) in
      get_free_clusters-from g u.valid.sized (omega (arith, n, reserved))
      ∙ ap ok (
          free_from-without (drop 2 fat.table) (drop 2 g.table) 2 f rest
            (omega (arith, n, length-drop 2 fat.table, length-drop 2 g.table))
            (λ k z.
              get_elem?-drop 2 fat.table k
              ∙ IsUnused-back (2 + k) (sym (get_elem?-drop 2 g.table k) ∙ z))
            (λ k q z.
              get_elem?-drop 2 g.table k
              ∙ IsUnused-forth (2 + k) q (sym (get_elem?-drop 2 fat.table k) ∙ z))
            (λ k q z.
              new_used (ap (get_elem? g.table) (sym q) ∙ sym (get_elem?-drop 2 g.table k) ∙ z))
            before)
