-- ===== src/Pfs/FileCache/Contents.antt =====
-- What a write leaves in the cache.
use fuselage_fat32_utn.Prelude.{
  ℕ, zero, suc, ◌/◌, ◌<◌, ◌≤◌, ◌≡◌, ◌≢◌, sym, ap, ◌∙◌, arith, Option, none, some, List, [], ◌∷◌,
  ◌++◌, ◌==◌, ==-refl, ne→==, subst, length, Bool-cases, Option-cases, inl, inr, get_elem?,
  get_elem?-lt, set, some-inj, length-append, length-set, All,
}
use mathlib.Core.Option
use fuselage_fat32_utn.Prelude.Outcome.{ok, ok-inj, ◌>>=◌, >>=-eq-ok, need, need-ok}
use fuselage_fat32_utn.Pfs.FileCache.{
  Cluster, Block, get_lru, find_block, read_block, overwrite, new_block, replaced, insert,
  write_block,
}

-- The three ways in which CACHE_write_block ends.
pub data Written (now : ℕ) (max_blocks : ℕ) (cluster : Cluster) (cache : List Block)
    : Option Cluster → List Block → Type 0 where
  overwritten :
      (cache' : List Block)
      → overwrite now cluster cache ≡ some cache'
      → Written now max_blocks cluster cache none cache'
  appended :
      overwrite now cluster cache ≡ none
      → length cache ≢ max_blocks
      → Written now max_blocks cluster cache none (cache ++ new_block now cluster ∷ [])
  evicted :
      (i : ℕ) (victim : Block)
      → overwrite now cluster cache ≡ none
      → length cache ≡ max_blocks
      → get_elem? cache i ≡ some victim
      → Written now max_blocks cluster cache (replaced victim) (set cache i (new_block now cluster))

insert-Written :
    (max_blocks now : ℕ) (cluster : Cluster) (cache : List Block) (p : Option Cluster × List Block)
    → overwrite now cluster cache ≡ none
    → insert max_blocks now cluster cache ≡ ok p
    → Written now max_blocks cluster cache p.0 p.1
unfolding insert
insert-Written max_blocks now cluster cache p new e =
    elim (Bool-cases (length cache == max_blocks)) [
      | inl full ↦ of_full (ground arith) (rw full at e)
      | inr free ↦
          subst (λ (q : Option Cluster × List Block). Written now max_blocks cluster cache q.0 q.1)
            (ok-inj (rw free at e)) (appended new (ground arith))
    ]
  where
    of_full :
        length cache ≡ max_blocks
        → (do
          index ← need (get_lru now cache)
          victim ← need (get_elem? cache index)
          ok (replaced victim, set cache index (new_block now cluster)))
          ≡ ok p
        → Written now max_blocks cluster cache p.0 p.1
    of_full full e =
        let (index, found, rest) = >>=-eq-ok (need (get_lru now cache)) _ e in
        let (victim, there, done) = >>=-eq-ok (need (get_elem? cache index)) _ rest in
        subst (λ (q : Option Cluster × List Block). Written now max_blocks cluster cache q.0 q.1)
          (ok-inj done) (evicted index victim new full (need-ok (get_elem? cache index) there))

pub write_block-Written :
    (cache_size now : ℕ) (cluster : Cluster) (cache : List Block) (p : Option Cluster × List Block)
    → cache_size ≢ 0
    → write_block cache_size now cluster cache ≡ ok p
    → Written now (cache_size / 4096) cluster cache p.0 p.1
unfolding write_block
write_block-Written cache_size now cluster cache p some_size e =
    elim (Option-cases (overwrite now cluster cache)) [
      | inl new ↦
          insert-Written _ now cluster cache p new (rw (ne→== cache_size 0 some_size, new) at e)
      | inr found ↦
          subst
            (λ (q : Option Cluster × List Block).
              Written now (cache_size / 4096) cluster cache q.0 q.1)
            (ok-inj (rw (ne→== cache_size 0 some_size, found.1) at e)) (overwritten found.0 found.1)
    ]

overwrite-length :
    (now : ℕ) (cluster : Cluster) (cache cache' : List Block)
    → overwrite now cluster cache ≡ some cache'
    → length cache' ≡ length cache
unfolding overwrite
overwrite-length now cluster [] cache' e = absurd (cc)
overwrite-length now cluster (b ∷ bs) cache' e =
    elim (Bool-cases (b.cluster_no == cluster.number)) [
      | inl hit ↦ ap length (sym (some-inj (rw hit at e)))
      | inr miss ↦ elim (Option-cases (overwrite now cluster bs)) [
        | inl new ↦ absurd (cc (rw (miss, new) at e))
        | inr found ↦
            ap length (sym (some-inj (rw (miss, found.1) at e)))
            ∙ ap suc (overwrite-length now cluster bs found.0 found.1)
      ]
    ]

overwrite-none :
    (now : ℕ) (cluster : Cluster) (cache : List Block)
    → overwrite now cluster cache ≡ none
    → All (λ b. b.cluster_no ≢ cluster.number) cache
unfolding overwrite
overwrite-none now cluster [] e = tt
overwrite-none now cluster (b ∷ bs) e = elim (Bool-cases (b.cluster_no == cluster.number)) [
  | inl hit ↦ absurd (cc (rw hit at e))
  | inr miss ↦ elim (Option-cases (overwrite now cluster bs)) [
    | inl new ↦ (ground arith, overwrite-none now cluster bs new)
    | inr found ↦ absurd (cc (rw (miss, found.1) at e))
  ]
]

-- The bytes that a later read of a cluster finds.
found_bytes : (now cluster_no : ℕ) → List Block → Option (List ℕ)
found_bytes now cluster_no cache =
    Option.map (λ (b : Block). b.bytes) (find_block now cluster_no cache).0

overwrite-found :
    (now later : ℕ) (cluster : Cluster) (cache cache' : List Block)
    → overwrite now cluster cache ≡ some cache'
    → found_bytes later cluster.number cache' ≡ some cluster.bytes
unfolding overwrite find_block found_bytes
overwrite-found now later cluster [] cache' e = absurd (cc)
overwrite-found now later cluster (b ∷ bs) cache' e =
    elim (Bool-cases (b.cluster_no == cluster.number)) [
      | inl hit ↦ rw (← some-inj (rw hit at e), hit)
      | inr miss ↦ elim (Option-cases (overwrite now cluster bs)) [
        | inl new ↦ absurd (cc (rw (miss, new) at e))
        | inr found ↦
            rw (← some-inj (rw (miss, found.1) at e), miss)
              (overwrite-found now later cluster bs found.0 found.1)
      ]
    ]

append-found :
    (now later : ℕ) (cluster : Cluster) (cache : List Block)
    → All (λ b. b.cluster_no ≢ cluster.number) cache
    → found_bytes later cluster.number (cache ++ new_block now cluster ∷ []) ≡ some cluster.bytes
unfolding find_block found_bytes
append-found now later cluster [] h = rw (==-refl cluster.number)
append-found now later cluster (b ∷ bs) h =
    rw (ne→== b.cluster_no cluster.number h.0) (append-found now later cluster bs h.1)

set-found :
    (now later : ℕ) (cluster : Cluster) (cache : List Block) (i : ℕ)
    → i < length cache
    → All (λ b. b.cluster_no ≢ cluster.number) cache
    → found_bytes later cluster.number (set cache i (new_block now cluster)) ≡ some cluster.bytes
unfolding find_block found_bytes
set-found now later cluster [] i r h = absurd (omega (arith, r))
set-found now later cluster (b ∷ bs) zero r h = rw (==-refl cluster.number)
set-found now later cluster (b ∷ bs) (suc i) r h =
    rw (ne→== b.cluster_no cluster.number h.0)
      (set-found now later cluster bs i (omega (arith, r)) h.1)

Written-read :
    (now max_blocks later : ℕ) (cluster : Cluster) (cache : List Block) (out : Option Cluster)
    (cache' : List Block)
    → Written now max_blocks cluster cache out cache'
    → found_bytes later cluster.number cache' ≡ some cluster.bytes
Written-read now max_blocks later cluster cache out after (overwritten cache' h) =
    overwrite-found now later cluster cache cache' h
Written-read now max_blocks later cluster cache out after (appended h free) =
    append-found now later cluster cache (overwrite-none now cluster cache h)
Written-read now max_blocks later cluster cache out after (evicted i victim h full there) =
    set-found now later cluster cache i (get_elem?-lt cache i victim there)
      (overwrite-none now cluster cache h)

Written-capacity :
    (now max_blocks : ℕ) (cluster : Cluster) (cache : List Block) (out : Option Cluster)
    (cache' : List Block)
    → Written now max_blocks cluster cache out cache'
    → length cache ≤ max_blocks
    → length cache' ≤ max_blocks
Written-capacity now max_blocks cluster cache out after (overwritten cache' w) h =
    omega (arith, h, overwrite-length now cluster cache cache' w)
Written-capacity now max_blocks cluster cache out after (appended w free) h =
    omega (arith, h, free, length-append cache (new_block now cluster ∷ []))
Written-capacity now max_blocks cluster cache out after (evicted i victim w full there) h =
    omega (arith, h, length-set cache i (new_block now cluster))

-- With a cache, a read of the cluster that was written finds the bytes that were written.
pub write_block-read :
    (cache_size now later : ℕ) (cluster : Cluster) (cache : List Block)
    (p : Option Cluster × List Block)
    → cache_size ≢ 0
    → write_block cache_size now cluster cache ≡ ok p
    → Option.map (λ (b : Block). b.bytes) (read_block cache_size later cluster.number p.1).0
      ≡ some cluster.bytes
unfolding read_block found_bytes
write_block-read cache_size now later cluster cache p some_size e =
    rw (ne→== cache_size 0 some_size) (
      Written-read now _ later cluster cache p.0 p.1
        (write_block-Written cache_size now cluster cache p some_size e))

-- With a cache, a write keeps the number of blocks within what the size allows.
pub write_block-capacity :
    (cache_size now : ℕ) (cluster : Cluster) (cache : List Block) (p : Option Cluster × List Block)
    → cache_size ≢ 0
    → write_block cache_size now cluster cache ≡ ok p
    → length cache ≤ cache_size / 4096
    → length p.1 ≤ cache_size / 4096
write_block-capacity cache_size now cluster cache p some_size e =
    Written-capacity now _ cluster cache p.0 p.1
      (write_block-Written cache_size now cluster cache p some_size e)
