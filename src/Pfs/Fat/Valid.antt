-- ===== src/Pfs/Fat/Valid.antt =====
-- The state of the table that the operations keep, and what a step of one of them does under it.
use fuselage_fat32_utn.Prelude.{
  some, get_elem?, some-inj, ap, ◌+◌, subst, Bool-cases, ℕ, zero, suc, ◌*◌, ◌<◌, ◌≤◌, ◌≡◌, refl,
  ◌≢◌, true, none, List, [], ◌∷◌, arith, ◌∙◌, sym, length, set, length-set, get_elem?-some, ◌/◌,
  Option-cases, inl, inr,
}
use fuselage_fat32_utn.Prelude.Outcome.{ok, ok-inj, >>=-eq-ok, need-ok}
use fuselage_fat32_utn.Pfs.BootSector.{BootSector}
use fuselage_fat32_utn.Pfs.Fat.{
  FatTable, Sector, is_eoc, set_entry, mark_modified, set_modified, search_from, points_into,
  search_sector_by_pointer,
}

pub record IsValid (boot : BootSector) (fat : FatTable) : Type 0 where
  -- `fat.size` is the number of entries, and every number of a cluster is below the end marks.
  pub sized : fat.size ≡ length fat.table
  pub small : length fat.table ≤ 0x0FFFFFF0
  -- The mark that the operations write is one that they recognise.
  pub mark : is_eoc fat.eoc ≡ true
  -- Every entry lies in a sector.
  pub covers :
      (c : ℕ) → c < length fat.table → search_sector_by_pointer boot fat.sectors (c * 4) ≢ none

search-set_modified :
    (entries : ℕ) (ss : List Sector) (i position pointer : ℕ)
    → search_from entries (set_modified ss i) position pointer
      ≡ search_from entries ss position pointer
unfolding search_from set_modified
search-set_modified entries [] i position pointer = refl
search-set_modified entries (s ∷ ss) zero position pointer = refl
search-set_modified entries (s ∷ ss) (suc i) position pointer =
    rw (search-set_modified entries ss i (position + 1) pointer)

module _ (boot : BootSector) where
  -- The flag of a sector that holds the entry is set, and the search is not disturbed.
  pub mark_modified-ok :
      (fat : FatTable) (c : ℕ)
      → IsValid boot fat
      → c < length fat.table
      → (ss : List Sector) × (mark_modified boot c fat ≡ ok (record fat { sectors = ss }))
        × IsValid boot (record fat { sectors = ss })
  unfolding mark_modified search_sector_by_pointer
  mark_modified-ok fat c v h =
      elim (Option-cases (search_sector_by_pointer boot fat.sectors (c * 4))) [
        | inl e ↦ absurd (v.covers c h e)
        | inr (i, e) ↦ (
          set_modified fat.sectors i,
          rw e,
          record {
            sized = v.sized;
            small = v.small;
            mark = v.mark;
            covers = λ d hd q.
                v.covers d hd (
                  sym (search-set_modified (boot.bytes_per_sector / 4) fat.sectors i 0 (d * 4))
                  ∙ q);
          },
        )
      ]

  -- A write of an entry of the table.
  pub set_entry-ok :
      (fat : FatTable) (c n : ℕ)
      → IsValid boot fat
      → c < length fat.table
      → (set_entry fat c n ≡ ok (record fat { table = set fat.table c n }))
        × IsValid boot (record fat { table = set fat.table c n })
  set_entry-ok fat c n v h =
      let (w, e) = get_elem?-some fat.table c h in
      (
        rw e,
        record {
          sized = omega (arith, v.sized, length-set fat.table c n);
          small = omega (arith, v.small, length-set fat.table c n);
          mark = v.mark;
          covers = λ d hd. v.covers d (omega (arith, length-set fat.table c n));
        },
      )

-- The sector that holds the entry of a cluster is marked, so that FAT_write_table sends it.
abbrev pub IsMarked : BootSector → FatTable → ℕ → Type 0
IsMarked boot fat c =
    (i : ℕ) × (s : Sector) × (search_sector_by_pointer boot fat.sectors (c * 4) ≡ some i)
    × (get_elem? fat.sectors i ≡ some s)
    × (s.modified ≡ true)

-- A sector that is found is one of the list.
search_from-some :
    (entries : ℕ) (ss : List Sector) (position pointer i : ℕ)
    → search_from entries ss position pointer ≡ some i
    → (k : ℕ) × (s : Sector) × (i ≡ position + k) × (get_elem? ss k ≡ some s)
unfolding search_from
search_from-some entries [] position pointer i e = absurd (cc)
search_from-some entries (s ∷ ss) position pointer i e =
    elim (Bool-cases (points_into entries 0 s.data_offset pointer)) [
      | inl here ↦
          let same : position ≡ i = some-inj (rw here at e) in (zero, s, omega (arith, same), refl)
      | inr not_here ↦
          let (k, t, place, at) =
            search_from-some entries ss (position + 1) pointer i (rw not_here at e) in
          (suc k, t, omega (arith, place), at)
    ]

set_modified-at :
    (ss : List Sector) (i : ℕ) (s : Sector)
    → get_elem? ss i ≡ some s
    → get_elem? (set_modified ss i) i ≡ some (record s { modified = true })
unfolding set_modified
set_modified-at [] i s e = absurd (cc)
set_modified-at (x ∷ ss) zero s e =
    ap (λ (t : Sector). some (record t { modified = true })) (some-inj e)
set_modified-at (x ∷ ss) (suc i) s e = set_modified-at ss i s e

-- No flag is cleared.
set_modified-keeps :
    (ss : List Sector) (j i : ℕ) (s : Sector)
    → get_elem? ss i ≡ some s
    → s.modified ≡ true
    → (t : Sector) × (get_elem? (set_modified ss j) i ≡ some t) × (t.modified ≡ true)
unfolding set_modified
set_modified-keeps [] j i s e m = absurd (cc)
set_modified-keeps (x ∷ ss) zero zero s e m = (record x { modified = true }, refl, refl)
set_modified-keeps (x ∷ ss) zero (suc i) s e m = (s, e, m)
set_modified-keeps (x ∷ ss) (suc j) zero s e m = (s, e, m)
set_modified-keeps (x ∷ ss) (suc j) (suc i) s e m = set_modified-keeps ss j i s e m

module _ (boot : BootSector) (fat g : FatTable) (c : ℕ) (e : mark_modified boot c fat ≡ ok g) where
  marked_at :
      (i : ℕ) × (search_sector_by_pointer boot fat.sectors (c * 4) ≡ some i)
      × (g ≡ record fat { sectors = set_modified fat.sectors i })
  unfolding mark_modified
  marked_at =
      let (i, found, rest) = >>=-eq-ok _ _ e in
      (i, need-ok (search_sector_by_pointer boot fat.sectors (c * 4)) found, sym (ok-inj rest))

  -- The sector of the entry is marked.
  pub mark_modified-IsMarked : IsMarked boot g c
  unfolding search_sector_by_pointer
  mark_modified-IsMarked =
      let (i, found, same) = marked_at in
      let (k, s, place, at) =
        search_from-some (boot.bytes_per_sector / 4) fat.sectors 0 (c * 4) i found in
      let i_k : k ≡ i = omega (arith, place) in
      let here : get_elem? fat.sectors i ≡ some s =
        subst (λ n. get_elem? fat.sectors n ≡ some s) i_k at in
      rw same (
        i,
        record s { modified = true },
        search-set_modified (boot.bytes_per_sector / 4) fat.sectors i 0 (c * 4) ∙ found,
        set_modified-at fat.sectors i s here,
        refl,
      )

  -- What was marked stays marked.
  pub mark_modified-keeps : (d : ℕ) → IsMarked boot fat d → IsMarked boot g d
  unfolding search_sector_by_pointer
  mark_modified-keeps d (i, s, found, here, m) =
      let (j, _, same) = marked_at in
      let (t, there, m') = set_modified-keeps fat.sectors j i s here m in
      rw same (
        i,
        t,
        search-set_modified (boot.bytes_per_sector / 4) fat.sectors j 0 (d * 4) ∙ found,
        there,
        m',
      )
