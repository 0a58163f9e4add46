-- ===== src/Pfs/FileIo/Reading.antt =====
-- What fuselage_read delivers of a file whose clusters are known.
use fuselage_fat32_utn.Prelude.{
  ℕ, zero, suc, ◌+◌, ◌*◌, ◌/◌, ◌%◌, ◌<◌, ◌≤◌, ◌≡◌, refl, sym, ap, subst, ◌∙◌, arith, List, [], ◌∷◌,
  ◌++◌, length, take, drop, length-append, append_assoc, drop-add, drop-append,
}
use fuselage_fat32_utn.Prelude.Outcome.{ok}
use fuselage_fat32_utn.Pfs.Fat.{FatTable, get_next_linked}
use fuselage_fat32_utn.Pfs.FileIo.{Session, skip, read_clusters, clamp}
use fuselage_fat32_utn.Pfs.FileIo.View.{fresh, data_of, IsCoherent}
use fuselage_fat32_utn.Pfs.FileIo.Fetch.{fetch-Keeps}
use fuselage_fat32_utn.Pfs.FileIo.Placing.{Keeps}

-- The clusters that FAT_get_next_linked passes from one on.
abbrev pub Follows : FatTable → (cluster : ℕ) → List ℕ → Type 0
Follows fat c [] = Unit
Follows fat c (x ∷ xs) =
    (c ≡ x) × ((next : ℕ) × (get_next_linked fat c ≡ ok next) × Follows fat next xs)

-- The data of some clusters behind one another.
unfoldable pub joined : (ℕ → List ℕ) → List ℕ → List ℕ
joined f [] = []
joined f (c ∷ cs) = f c ++ joined f cs

pub length-joined :
    (f : ℕ → List ℕ) (cs : List ℕ)
    → ((c : ℕ) → length (f c) ≡ 4096)
    → length (joined f cs) ≡ 4096 * length cs
unfolding joined
length-joined f [] h = omega arith
length-joined f (c ∷ cs) h =
    omega (arith, length-append (f c) (joined f cs), h c, length-joined f cs h)

joined-same : (f g : ℕ → List ℕ) (cs : List ℕ) → ((c : ℕ) → f c ≡ g c) → joined f cs ≡ joined g cs
unfolding joined
joined-same f g [] h = refl
joined-same f g (c ∷ cs) h = rw (h c, joined-same f g cs h) refl

joined-append : (f : ℕ → List ℕ) (xs ys : List ℕ) → joined f (xs ++ ys) ≡ joined f xs ++ joined f ys
unfolding joined
joined-append f [] ys = refl
joined-append f (x ∷ xs) ys =
    rw (joined-append f xs ys) (sym (append_assoc (f x) (joined f xs) (joined f ys)))

pub skip-Follows :
    (fat : FatTable) (pre rest : List ℕ) (c : ℕ)
    → Follows fat c (pre ++ rest)
    → (d : ℕ) × (skip (length pre) fat c ≡ ok d) × Follows fat d rest
unfolding skip
skip-Follows fat [] rest c h = (c, refl, h)
skip-Follows fat (x ∷ pre) rest c (same, (next, linked, h)) =
    let (d, runs, h') = skip-Follows fat pre rest next h in (d, rw linked runs, h')

module _ (clock : ℕ → ℕ) (cache_size : ℕ) (some_size : 4096 ≤ cache_size) (start : ℕ)
    (later : (k : ℕ) → start ≤ clock k) where
  pub read_clusters-joined :
      (mid rest : List ℕ) (round c : ℕ) (s : Session)
      → Follows s.volume.fat c (mid ++ rest)
      → IsCoherent s
      → fresh start s.cache + length mid ≤ cache_size / 4096
      → (s' : Session) × (read_clusters clock cache_size 4096 (length mid) round c s
          ≡ ok (joined (data_of s) mid, s'))
        × Keeps start (length mid) s s'
  unfolding read_clusters joined
  read_clusters-joined [] rest round c s h coherent few = (
    s,
    refl,
    record { same_fat = refl; same_data = λ d. refl; coherent = coherent; few = omega arith },
  )
  read_clusters-joined (x ∷ mid) rest round c s (same, (next, linked, h)) coherent few =
      let (s1, runs, k1) =
        fetch-Keeps cache_size some_size clock round c s start later coherent
          (omega (arith, few)) in
      let (s2, more, k2) =
        read_clusters-joined mid rest (round + 1) next s1
          (subst (λ fat. Follows fat next (mid ++ rest)) (sym k1.same_fat) h) k1.coherent
          (omega (arith, few, k1.few)) in
      let linked1 : get_next_linked s1.volume.fat c ≡ ok next =
        ap (λ fat. get_next_linked fat c) k1.same_fat ∙ linked in
      (
        s2,
        rw runs
            (rw (linked1, more, joined-same (data_of s1) (data_of s) mid k1.same_data, same) refl),
        record {
          same_fat = k2.same_fat ∙ k1.same_fat;
          same_data = λ d. k2.same_data d ∙ k1.same_data d;
          coherent = k2.coherent;
          few = omega (arith, k1.few, k2.few);
        },
      )

take-front : (n : ℕ) (xs ys : List ℕ) → n ≤ length xs → take n (xs ++ ys) ≡ take n xs
take-front zero xs ys h = refl
take-front (suc n) [] ys h = absurd (omega (arith, h))
take-front (suc n) (x ∷ xs) ys h = ap (λ l. x ∷ l) (take-front n xs ys (omega (arith, h)))

take-drop-front :
    (n r : ℕ) (xs ys : List ℕ) → r + n ≤ length xs → take n (drop r (xs ++ ys)) ≡ take n (drop r xs)
take-drop-front n zero xs ys h = take-front n xs ys (omega (arith, h))
take-drop-front n (suc r) [] ys h = absurd (omega (arith, h))
take-drop-front n (suc r) (x ∷ xs) ys h = take-drop-front n r xs ys (omega (arith, h))

-- What is taken from behind some clusters out of those that follow them.
pub take-joined :
    (f : ℕ → List ℕ) (pre mid rest : List ℕ) (offset n : ℕ)
    → ((c : ℕ) → length (f c) ≡ 4096)
    → length pre ≡ offset / 4096
    → offset % 4096 + n ≤ 4096 * length mid
    → take n (drop offset (joined f (pre ++ (mid ++ rest))))
      ≡ take n (drop (offset % 4096) (joined f mid))
take-joined f pre mid rest offset n h q fits =
    let whole : joined f (pre ++ (mid ++ rest)) ≡ joined f pre ++ (joined f mid ++ joined f rest) =
      joined-append f pre (mid ++ rest) ∙ ap (λ l. joined f pre ++ l) (joined-append f mid rest) in
    let before : length (joined f pre) ≡ 4096 * (offset / 4096) =
      omega (arith, length-joined f pre h, q) in
    let place : offset ≡ length (joined f pre) + offset % 4096 = omega (arith, before) in
    let behind : drop offset (joined f pre ++ (joined f mid ++ joined f rest))
        ≡ drop (offset % 4096) (joined f mid ++ joined f rest) =
      ap (λ k. drop k (joined f pre ++ (joined f mid ++ joined f rest))) place
      ∙ drop-add (offset % 4096) (length (joined f pre))
          (joined f pre ++ (joined f mid ++ joined f rest))
      ∙ ap (drop (offset % 4096)) (drop-append (joined f pre) (joined f mid ++ joined f rest)) in
    ap (λ l. take n (drop offset l)) whole
    ∙ ap (take n) behind
    ∙ take-drop-front n (offset % 4096) (joined f mid) (joined f rest)
        (omega (arith, fits, length-joined f mid h))

pub clamp-le :
    (file_size offset n : ℕ) → offset < file_size → offset + clamp file_size offset n ≤ file_size
clamp-le file_size offset n h = ground arith
