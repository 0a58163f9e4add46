-- ===== src/Pfs/FileIo/View.antt =====
-- What an open file shows: the data of a cluster in the cache, or on the disk.
use fuselage_fat32_utn.Prelude.{
  leb, ◌+◌, ◌≤◌, ℕ, leb, zero, suc, ◌≡◌, ◌≢◌, refl, sym, ap, ◌∙◌, arith, false, Option, none, some,
  List, [], ◌∷◌, ◌++◌, ◌==◌, ne→==, ==-refl, length, map, if◌then◌else◌, Bool-cases, Option-cases,
  inl, inr, get_elem?, set, All, All-mono, All-map, All-zip, All-get, some-inj, Distinct,
}
use fuselage_fat32_utn.Pfs.Volume.{Volume}
use fuselage_fat32_utn.Pfs.FileCache.{Block, find_block, overwrite, Cluster}
use fuselage_fat32_utn.Pfs.FileIo.{Session}

-- The bytes of the first block of a cluster.
unfoldable pub cached : (cluster : ℕ) → List Block → Option (List ℕ)
cached c [] = none
cached c (b ∷ bs) = if b.cluster_no == c then some b.bytes else cached c bs

-- The data that the open file shows for a cluster.
unfoldable pub data_of : Session → ℕ → List ℕ
data_of s c = elim (cached c s.cache) [ some bytes ↦ bytes | none ↦ s.volume.contents c ]

pub data_of-cached :
    (s : Session) (c : ℕ) (bytes : List ℕ) → cached c s.cache ≡ some bytes → data_of s c ≡ bytes
unfolding data_of
data_of-cached s c bytes e = rw (data_of, e) refl

pub data_of-missing :
    (s : Session) (c : ℕ) → cached c s.cache ≡ none → data_of s c ≡ s.volume.contents c
unfolding data_of
data_of-missing s c e = rw (data_of, e) refl

abbrev pub numbers : List Block → List ℕ
numbers cache = map (λ (b : Block). b.cluster_no) cache

-- A block with the bytes of a cluster, those on the disk if it is not marked as modified.
abbrev pub IsBlock : Volume → Block → Type 0
IsBlock v b = (length b.bytes ≡ 4096) × (b.modified ≡ false → v.contents b.cluster_no ≡ b.bytes)

-- Each cluster is in the cache once at most, and what is not marked as modified is on the disk.
pub record IsCoherent (s : Session) : Type 0 where
  pub once : Distinct (numbers s.cache)
  pub blocks : All (IsBlock s.volume) s.cache
  pub sized : (c : ℕ) → length (s.volume.contents c) ≡ 4096

pub cached-none :
    (c : ℕ) (cache : List Block) → cached c cache ≡ none → All (λ b. b.cluster_no ≢ c) cache
unfolding cached
cached-none c [] e = tt
cached-none c (b ∷ bs) e = elim (Bool-cases (b.cluster_no == c)) [
  | inl hit ↦ absurd (cc (rw hit at e))
  | inr miss ↦ (ground arith, cached-none c bs (rw miss at e))
]

pub cached-absent :
    (c : ℕ) (cache : List Block) → All (λ b. b.cluster_no ≢ c) cache → cached c cache ≡ none
unfolding cached
cached-absent c [] h = refl
cached-absent c (b ∷ bs) h = rw (ne→== b.cluster_no c h.0) (cached-absent c bs h.1)

pub overwrite-absent :
    (now : ℕ) (cluster : Cluster) (cache : List Block)
    → All (λ b. b.cluster_no ≢ cluster.number) cache
    → overwrite now cluster cache ≡ none
unfolding overwrite
overwrite-absent now cluster [] h = refl
overwrite-absent now cluster (b ∷ bs) h =
    rw (ne→== b.cluster_no cluster.number h.0, overwrite-absent now cluster bs h.1) refl

pub find_block-absent :
    (now c : ℕ) (cache : List Block)
    → All (λ b. b.cluster_no ≢ c) cache
    → find_block now c cache ≡ (none, cache)
unfolding find_block
find_block-absent now c [] h = refl
find_block-absent now c (b ∷ bs) h =
    rw (ne→== b.cluster_no c h.0, find_block-absent now c bs h.1) refl

-- How many blocks were used in the second `start` or behind it.
unfoldable pub fresh : (start : ℕ) → List Block → ℕ
fresh start [] = 0
fresh start (b ∷ bs) = (if leb start b.timestamp then 1 else 0) + fresh start bs

-- A read that finds a block leaves the bytes of all blocks.
pub record IsTouched (now c : ℕ) (v : Volume) (cache : List Block) (bytes : List ℕ)
    (r : Option Block × List Block) : Type 0 where
  pub block : Block
  pub found : r.0 ≡ some block
  pub same : block.bytes ≡ bytes
  pub number : block.cluster_no ≡ c
  pub size : length block.bytes ≡ 4096
  pub same_numbers : numbers r.1 ≡ numbers cache
  pub same_data : (d : ℕ) → cached d r.1 ≡ cached d cache
  pub blocks : All (IsBlock v) r.1
  pub few : (start : ℕ) → fresh start r.1 ≤ fresh start cache + 1
  pub same_length : length r.1 ≡ length cache

pub find_block-IsTouched :
    (now c : ℕ) (v : Volume) (cache : List Block) (bytes : List ℕ)
    → cached c cache ≡ some bytes
    → All (IsBlock v) cache
    → IsTouched now c v cache bytes (find_block now c cache)
unfolding cached find_block fresh
find_block-IsTouched now c v [] bytes e h = absurd (cc)
find_block-IsTouched now c v (b ∷ bs) bytes e h = elim (Bool-cases (b.cluster_no == c)) [
  | inl hit ↦ rw hit (record {
    block = record b { timestamp = now };
    found = refl;
    same = cc (rw hit at e);
    number = ground arith;
    size = h.0.0;
    same_numbers = refl;
    same_data = λ d. refl;
    blocks = h;
    few = λ start. ground arith;
    same_length = refl;
  })
  | inr miss ↦
      let t = find_block-IsTouched now c v bs bytes (rw miss at e) h.1 in
      rw miss (record {
        block = t.block;
        found = t.found;
        same = t.same;
        number = t.number;
        size = t.size;
        same_numbers = ap (λ l. b.cluster_no ∷ l) t.same_numbers;
        same_data = λ d. ap (λ o. if b.cluster_no == d then some b.bytes else o) (t.same_data d);
        blocks = (h.0, t.blocks);
        few = λ start. ground (arith, t.few start);
        same_length = ap suc t.same_length;
      })
]

pub cached-append :
    (d : ℕ) (b : Block) (cache : List Block)
    → All (λ (x : Block). x.cluster_no ≢ b.cluster_no) cache
    → cached d (cache ++ b ∷ []) ≡ (if b.cluster_no == d then some b.bytes else cached d cache)
unfolding cached
cached-append d b [] h = refl
cached-append d b (x ∷ xs) h = ground (arith, cached-append d b xs h.1)

pub cached-set :
    (d i : ℕ) (b victim : Block) (cache : List Block)
    → All (λ (x : Block). x.cluster_no ≢ b.cluster_no) cache
    → Distinct (numbers cache)
    → get_elem? cache i ≡ some victim
    → cached d (set cache i b) ≡ (
        if b.cluster_no == d
        then some b.bytes
        else if victim.cluster_no == d
        then none
        else cached d cache)
unfolding cached
cached-set d i b victim [] h u e = absurd (cc)
cached-set d zero b victim (x ∷ xs) h u e =
    let same : x ≡ victim = some-inj e in
    let others : All (λ (y : Block). y.cluster_no ≢ x.cluster_no) xs =
      All-map (λ n. n ≢ x.cluster_no) (λ (y : Block). y.cluster_no) xs u.0 in
    rw (← same) (elim (Bool-cases (x.cluster_no == d)) [
      | inl hit ↦
          let number : x.cluster_no ≡ d = ground arith in
          let gone : cached d xs ≡ none =
            cached-absent d xs (All-mono (λ y k q. k (q ∙ sym number)) xs others) in
          rw (hit, gone) refl
      | inr miss ↦ rw miss refl
    ])
cached-set d (suc i) b victim (x ∷ xs) h u e =
    let others : All (λ (y : Block). y.cluster_no ≢ x.cluster_no) xs =
      All-map (λ n. n ≢ x.cluster_no) (λ (y : Block). y.cluster_no) xs u.0 in
    let apart : victim.cluster_no ≢ x.cluster_no =
      All-get (λ (y : Block). y.cluster_no ≢ x.cluster_no) xs i victim others e in
    let rest = cached-set d i b victim xs h.1 u.1 e in
    elim (Bool-cases (x.cluster_no == d)) [
      | inl hit ↦
          let number : x.cluster_no ≡ d = ground arith in
          let b_not : (b.cluster_no == d) ≡ false =
            ne→== b.cluster_no d (λ q. h.0 (number ∙ sym q)) in
          let victim_not : (victim.cluster_no == d) ≡ false =
            ne→== victim.cluster_no d (λ q. apart (q ∙ sym number)) in
          rw (hit, b_not, victim_not) refl
      | inr miss ↦ rw miss rest
    ]

-- A cluster that is in the cache once is found there by its number.
pub cached-members :
    (cache : List Block)
    → Distinct (numbers cache)
    → All (λ (b : Block). cached b.cluster_no cache ≡ some b.bytes) cache
unfolding cached
cached-members [] u = tt
cached-members (x ∷ xs) u =
    let others : All (λ (y : Block). y.cluster_no ≢ x.cluster_no) xs =
      All-map (λ n. n ≢ x.cluster_no) (λ (y : Block). y.cluster_no) xs u.0 in
    (
      rw (==-refl x.cluster_no) refl,
      All-zip
          (λ (b : Block) (apart : b.cluster_no ≢ x.cluster_no)
              (e : cached b.cluster_no xs ≡ some b.bytes).
            rw (ne→== x.cluster_no b.cluster_no (λ q. apart (sym q))) e)
          xs others (cached-members xs u.1),
    )

cached-size :
    (c : ℕ) (v : Volume) (cache : List Block) (bytes : List ℕ)
    → All (IsBlock v) cache
    → cached c cache ≡ some bytes
    → length bytes ≡ 4096
unfolding cached
cached-size c v [] bytes h e = absurd (cc)
cached-size c v (b ∷ bs) bytes h e = elim (Bool-cases (b.cluster_no == c)) [
  | inl hit ↦ ap length (sym (some-inj (rw hit at e))) ∙ h.0.0
  | inr miss ↦ cached-size c v bs bytes h.1 (rw miss at e)
]

-- What a coherent session shows of a cluster has its size.
pub length-data_of : (s : Session) (c : ℕ) → IsCoherent s → length (data_of s c) ≡ 4096
length-data_of s c h = elim (Option-cases (cached c s.cache)) [
  | inl gone ↦ ap length (data_of-missing s c gone) ∙ h.sized c
  | inr (bytes, held) ↦
      ap length (data_of-cached s c bytes held) ∙ cached-size c s.volume s.cache bytes h.blocks held
]
