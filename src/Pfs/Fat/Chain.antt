-- ===== src/Pfs/Fat/Chain.antt =====
-- What it is for a cluster to head a chain of clusters in the table, and which writes a chain
-- survives.
use fuselage_fat32_utn.Prelude.{
  ℕ, suc, ◌<◌, ◌≤◌, ◌≡◌, refl, ◌≢◌, true, false, some, List, [], ◌∷◌, ◌++◌, arith, ap, subst, ◌∙◌,
  sym, length, get_elem?, get_elem?-lt, length-append, All, All-mono, Distinct,
  length-le_of_Distinct, some-inj,
}
use fuselage_fat32_utn.Pfs.Fat.{is_eoc}

-- From `c` the entries lead through `front` to the cluster `l`, which holds an end mark.
pub data Chain (t : List ℕ) (l : ℕ) : ℕ → List ℕ → Type 0 where
  end : {c : ℕ} (v : ℕ) → c ≡ l → get_elem? t l ≡ some v → is_eoc v ≡ true → Chain t l c []
  link :
      {c : ℕ} {front : List ℕ} (v : ℕ)
      → get_elem? t c ≡ some v
      → is_eoc v ≡ false
      → v ≢ 0
      → Chain t l v front
      → Chain t l c (c ∷ front)

-- All clusters of a chain.
abbrev pub clusters : List ℕ → ℕ → List ℕ
clusters front l = front ++ l ∷ []

-- Entries that point to a next cluster are the same in both tables.
abbrev pub SameLinks : List ℕ → List ℕ → Type 0
SameLinks t u =
    (d v : ℕ) → get_elem? t d ≡ some v → is_eoc v ≡ false → v ≢ 0 → get_elem? u d ≡ some v

module _ {t : List ℕ} {l : ℕ} where
  -- The last cluster of a chain holds an end mark.
  pub Chain-end :
      {c : ℕ} {front : List ℕ}
      → Chain t l c front
      → (v : ℕ) × (get_elem? t l ≡ some v) × (is_eoc v ≡ true)
  Chain-end (end v e m k) = (v, m, k)
  Chain-end (link v m k n r) = Chain-end r

  -- The chain goes on behind `l`, once `l` points to a cluster `f` with an end mark.
  pub Chain-extend :
      {u : List ℕ} {c : ℕ} {front : List ℕ} (f w : ℕ)
      → Chain t l c front
      → SameLinks t u
      → get_elem? u l ≡ some f
      → is_eoc f ≡ false
      → f ≢ 0
      → get_elem? u f ≡ some w
      → is_eoc w ≡ true
      → Chain u f c (clusters front l)
  Chain-extend f w (end v e at k) same at' small pos mark k' =
      rw e (link f at' small pos (end w refl mark k'))
  Chain-extend f w (link v at k n r) same at' small pos mark k' =
      link v (same _ v at k n) k n (Chain-extend f w r same at' small pos mark k')

  -- A chain from its own last cluster is that cluster alone.
  front-nil : {c : ℕ} {front : List ℕ} → Chain t l c front → c ≡ l → length front ≡ 0
  front-nil (end v e at k) _ = refl
  front-nil (link v at k n r) e =
      let (w, at', k') = Chain-end r in absurd (cc (some-inj (sym at ∙ ap (get_elem? t) e ∙ at')))

  -- The cluster before the last one points to it.
  pub Chain-before :
      {c : ℕ} {whole : List ℕ} (front : List ℕ) (b : ℕ)
      → Chain t l c whole
      → whole ≡ clusters front b
      → get_elem? t b ≡ some l
  Chain-before [] b (end v e at k) w = absurd (cc)
  Chain-before (x ∷ front) b (end v e at k) w = absurd (cc)
  Chain-before [] b (link v at k n (end v' e at' k')) w = cc
  Chain-before [] b (link v at k n (link v' at' k' n' r)) w = absurd (cc)
  Chain-before (x ∷ front) b (link v at k n r) w = Chain-before front b r (cc)

  -- Without its last cluster it is a chain, once the one before holds an end mark.
  pub Chain-shorten :
      {u : List ℕ} {c : ℕ} {whole : List ℕ} (front : List ℕ) (b w : ℕ)
      → Chain t l c whole
      → whole ≡ clusters front b
      → ((d v : ℕ) → d ≢ b → get_elem? t d ≡ some v → is_eoc v ≡ false → get_elem? u d ≡ some v)
      → get_elem? u b ≡ some w
      → is_eoc w ≡ true
      → Chain u b c front
  Chain-shorten [] b w (end v e at k) eq same at' k' = absurd (cc)
  Chain-shorten (x ∷ front) b w (end v e at k) eq same at' k' = absurd (cc)
  Chain-shorten [] b w (link v at k n r) eq same at' k' = end w (cc) at' k'
  Chain-shorten {u} (x ∷ front) b w (link {c} {front = front'} v at k n r) eq same at' k' =
      let tail : front' ≡ clusters front b = cc in
      let apart : c ≢ b = λ e.
        let behind : v ≡ l = some-inj (sym at ∙ ap (get_elem? t) e ∙ Chain-before front b r tail) in
        omega (arith, front-nil r behind, ap length tail, length-append front (b ∷ [])) in
      subst (λ y. Chain u b c (y ∷ front)) (cc)
        (link v (same c v apart at k) k n (Chain-shorten front b w r tail same at' k'))

-- Every cluster of a chain heads a chain of its own, no longer than the whole.
abbrev SuffixOf : List ℕ → ℕ → ℕ → ℕ → Type 0
SuffixOf t l n y = (front : List ℕ) × Chain t l y front × (length front ≤ n)

suffixes :
    {t : List ℕ} {l c : ℕ} {front : List ℕ} (n : ℕ)
    → Chain t l c front
    → length front ≤ n
    → All (SuffixOf t l n) (clusters front l)
suffixes n (end v e at k) h = (([], end v refl at k, omega arith), tt)
suffixes n (link {c} {front} v at k m r) h =
    ((c ∷ front, link v at k m r, h), suffixes n r (omega arith))

-- The length of a chain depends on its first cluster alone.
length-front :
    {t : List ℕ} {l c d : ℕ} {xs ys : List ℕ}
    → Chain t l c xs
    → Chain t l d ys
    → c ≡ d
    → length xs ≡ length ys
length-front (end v e at k) s q = sym (front-nil s (cc))
length-front r (end v e at k) q = front-nil r (cc)
length-front {t} (link v at k m r) (link v' at' k' m' s) q =
    ap suc (length-front r s (some-inj (sym at ∙ ap (get_elem? t) q ∙ at')))

Chain-Distinct :
    {t : List ℕ} {l c : ℕ} {front : List ℕ} → Chain t l c front → Distinct (clusters front l)
Chain-Distinct (end v e at k) = (tt, tt)
Chain-Distinct (link {c} {front} v at k m r) = (
  All-mono (λ y (ys, s, short) e. omega (arith, length-front (link v at k m r) s (sym e))) _
      (suffixes (length front) r (omega arith)),
  Chain-Distinct r,
)

in_table :
    {t : List ℕ} {l c : ℕ} {front : List ℕ}
    → Chain t l c front
    → All (λ y. y < length t) (clusters front l)
in_table {t} {l} (end v e at k) = (get_elem?-lt t l v at, tt)
in_table {t} (link {c} v at k m r) = (get_elem?-lt t c v at, in_table r)

-- A chain has no more clusters than the table has entries: as many rounds are enough for a loop
-- that follows it.
pub length-clusters-le :
    {t : List ℕ} {l c : ℕ} {front : List ℕ}
    → Chain t l c front
    → length (clusters front l) ≤ length t
length-clusters-le {t} {l} {front} ch =
    length-le_of_Distinct (length t) (clusters front l) (Chain-Distinct ch) (in_table ch)
