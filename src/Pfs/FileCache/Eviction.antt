-- ===== src/Pfs/FileCache/Eviction.antt =====
-- What leaves the cache, and what a flush writes.
use fuselage_fat32_utn.Prelude.{
  ℕ, zero, suc, ◌+◌, ◌-◌, ◌/◌, ◌<◌, ◌≤◌, ◌≡◌, ◌≢◌, refl, sym, ap, ◌∙◌, arith, true, false, Option,
  none, some, List, [], ◌∷◌, ◌++◌, ◌==◌, ne→==, length, false, Bool-cases, Option-cases, inl, inr,
  ◌⊎◌, get_elem?, All, All-mono, some-inj, get_elem?-set_ne, get_elem?-append, length-append,
  ℕ_discrete,
}
use fuselage_fat32_utn.Prelude.Outcome.{ok, fault}
use fuselage_fat32_utn.Pfs.FileCache.{
  Cluster, Block, older, lru_from, get_lru, overwrite, insert, new_block, write_block, flush,
}
use fuselage_fat32_utn.Pfs.FileCache.Contents.{
  Written, overwritten, appended, evicted, write_block-Written,
}

-- The block at a place, or its data when it had to make room.
abbrev pub StaysOrLeaves : ℕ → Block → Option Cluster → List Block → Type 0
StaysOrLeaves i b out cache =
    (get_elem? cache i ≡ some b) ⊎ (out ≡ some (record { number = b.cluster_no; bytes = b.bytes }))

overwrite-stays :
    (now : ℕ) (cluster : Cluster) (cache cache' : List Block) (i : ℕ) (b : Block)
    → overwrite now cluster cache ≡ some cache'
    → get_elem? cache i ≡ some b
    → b.cluster_no ≢ cluster.number
    → get_elem? cache' i ≡ some b
unfolding overwrite
overwrite-stays now cluster [] cache' i b e there other = absurd (cc)
overwrite-stays now cluster (c ∷ cs) cache' i b e there other =
    elim (Bool-cases (c.cluster_no == cluster.number)) [
      | inl hit ↦ rw (← some-inj (rw hit at e)) (at_hit i (ground arith) there)
      | inr miss ↦ elim (Option-cases (overwrite now cluster cs)) [
        | inl new ↦ absurd (cc (rw (miss, new) at e))
        | inr found ↦ rw (← some-inj (rw (miss, found.1) at e)) (
            at_miss i found.0 (λ j h. overwrite-stays now cluster cs found.0 j b found.1 h other)
              there)
      ]
    ]
  where
    at_hit :
        (i : ℕ)
        → c.cluster_no ≡ cluster.number
        → get_elem? (c ∷ cs) i ≡ some b
        → get_elem? (record c { bytes = cluster.bytes; timestamp = now; modified = true } ∷ cs) i
          ≡ some b
    at_hit zero hit there =
        absurd (other (ap (λ (x : Block). x.cluster_no) (sym (some-inj there)) ∙ hit))
    at_hit (suc i) hit there = there

    at_miss :
        (i : ℕ) (rest : List Block)
        → ((j : ℕ) → get_elem? cs j ≡ some b → get_elem? rest j ≡ some b)
        → get_elem? (c ∷ cs) i ≡ some b
        → get_elem? (c ∷ rest) i ≡ some b
    at_miss zero rest e there = there
    at_miss (suc i) rest stays there = stays i there

Written-StaysOrLeaves :
    (now max_blocks : ℕ) (cluster : Cluster) (cache : List Block) (out : Option Cluster)
    (cache' : List Block) (i : ℕ) (b : Block)
    → Written now max_blocks cluster cache out cache'
    → get_elem? cache i ≡ some b
    → b.modified ≡ true
    → b.cluster_no ≢ cluster.number
    → StaysOrLeaves i b out cache'
Written-StaysOrLeaves now max_blocks cluster cache out after i b (overwritten cache' w) there dirty
      other =
    inl (overwrite-stays now cluster cache cache' i b w there other)
Written-StaysOrLeaves now max_blocks cluster cache out after i b (appended w free) there dirty
      other =
    inl (get_elem?-append cache i b _ there)
Written-StaysOrLeaves now max_blocks cluster cache out after i b (evicted j victim w full at_j)
      there dirty other =
    elim (ℕ_discrete j i) [
      | yes same ↦
          let it : victim ≡ b = some-inj (sym at_j ∙ ap (get_elem? cache) same ∙ there) in
          inr (rw (it, dirty))
      | no differ ↦ inl (get_elem?-set_ne cache j i (new_block now cluster) differ ∙ there)
    ]

-- A modified block of another cluster is not lost by a write: it is where it was, or its bytes are
-- what the write returns to be written to the disk.
pub write_block-StaysOrLeaves :
    (cache_size now : ℕ) (cluster : Cluster) (cache : List Block) (p : Option Cluster × List Block)
    (i : ℕ) (b : Block)
    → cache_size ≢ 0
    → write_block cache_size now cluster cache ≡ ok p
    → get_elem? cache i ≡ some b
    → b.modified ≡ true
    → b.cluster_no ≢ cluster.number
    → StaysOrLeaves i b p.0 p.1
write_block-StaysOrLeaves cache_size now cluster cache p i b some_size e =
    Written-StaysOrLeaves now _ cluster cache p.0 p.1 i b
      (write_block-Written cache_size now cluster cache p some_size e)

flush-append : (xs : List Block) (b : Block) → b.modified ≡ false → flush (xs ++ b ∷ []) ≡ flush xs
unfolding flush
flush-append [] b h = rw h
flush-append (x ∷ xs) b h = elim (Bool-cases x.modified) [
  | inl dirty ↦
      rw dirty
        (ap (λ l. record { number = x.cluster_no; bytes = x.bytes } ∷ l) (flush-append xs b h))
  | inr clean ↦ rw clean (flush-append xs b h)
]

-- A cluster that is written with room in the cache and no block of its own is not written to the
-- disk: neither now nor by a flush, which writes the same with the cluster and without it.
pub write_block-unflushed :
    (cache_size now : ℕ) (cluster : Cluster) (cache : List Block)
    → cache_size ≢ 0
    → length cache < cache_size / 4096
    → overwrite now cluster cache ≡ none
    → (cache' : List Block) × (write_block cache_size now cluster cache ≡ ok (none, cache'))
      × (length cache' ≡ length cache + 1)
      × (flush cache' ≡ flush cache)
unfolding write_block insert
write_block-unflushed cache_size now cluster cache some_size free new =
    rw
      (
        ne→== cache_size 0 some_size,
        new,
        ne→== (length cache) (cache_size / 4096) (omega (arith, free)),
      )
      (
        _,
        refl,
        length-append cache (new_block now cluster ∷ []),
        flush-append cache (new_block now cluster) refl,
      )

-- The block at the selected index is the oldest of all; without one, no block is older than `now`.
abbrev pub IsOldest : ℕ → Option ℕ → List Block → Type 0
IsOldest now none cache = All (λ b. now - b.timestamp ≡ 0) cache
IsOldest now (some i) cache =
    (b : Block) × (get_elem? cache i ≡ some b)
    × All (λ c. now - c.timestamp ≤ now - b.timestamp) cache

-- The selection from a node on, whose index is `index`.
LruFrom : (now index : ℕ) (selected : Option ℕ) (last_diff : ℕ) → List Block → Option ℕ → Type 0
LruFrom now index selected last_diff cache r =
    ((r ≡ selected) × All (λ c. now - c.timestamp ≤ last_diff) cache)
    ⊎ ((k : ℕ) × (b : Block) × (r ≡ some (k + index))
        × (get_elem? cache k ≡ some b)
        × (last_diff < now - b.timestamp)
        × All (λ c. now - c.timestamp ≤ now - b.timestamp) cache)

lru_from-LruFrom :
    (now index : ℕ) (selected : Option ℕ) (last_diff : ℕ) (cache : List Block)
    → LruFrom now index selected last_diff cache (lru_from now index selected last_diff cache)
unfolding lru_from LruFrom
lru_from-LruFrom now index selected last_diff [] = inl (refl, tt)
lru_from-LruFrom now index selected last_diff (b ∷ bs) = elim (Bool-cases (older now last_diff b)) [
  | inl hit ↦ rw hit (elim (lru_from-LruFrom now (suc index) (some index) (now - b.timestamp) bs) [
    | inl (kept, all) ↦
        inr (zero, b, kept ∙ ap some (omega arith), refl, ground arith, (ground arith, all))
    | inr (k, c, found, there, more, all) ↦
        inr (suc k, c, found ∙ ap some (omega arith), there, ground arith, (ground arith, all))
  ])
  | inr miss ↦ rw miss (elim (lru_from-LruFrom now (suc index) selected last_diff bs) [
    | inl (kept, all) ↦ inl (kept, (ground arith, all))
    | inr (k, c, found, there, more, all) ↦
        inr (suc k, c, found ∙ ap some (omega arith), there, more, (ground arith, all))
  ])
]

-- CACHE_getLRU selects a block that is at least as old as every other one, and none only when no
-- block is older than now.
pub get_lru-IsOldest : (now : ℕ) (cache : List Block) → IsOldest now (get_lru now cache) cache
unfolding get_lru LruFrom
get_lru-IsOldest now cache = elim (lru_from-LruFrom now 0 none 0 cache) [
  | inl (kept, all) ↦ rw kept (All-mono (λ c h. omega (arith, h)) cache all)
  | inr (k, b, found, there, more, all) ↦
      let at_k : lru_from now 0 none 0 cache ≡ some k = found ∙ ap some (omega arith) in
      rw at_k (b, there, all)
]

lru_from-none :
    (now index : ℕ) (cache : List Block)
    → All (λ b. now ≤ b.timestamp) cache
    → lru_from now index none 0 cache ≡ none
unfolding lru_from
lru_from-none now index [] h = refl
lru_from-none now index (b ∷ bs) h =
    let used : older now 0 b ≡ false = ground (arith, h.0) in
    rw used (lru_from-none now (suc index) bs h.1)

-- When every block of a full cache was used in the current second, none is older than that, none is
-- selected to make room, and a cluster that has no block is written through NULL.
pub write_block-same_second :
    (cache_size now : ℕ) (cluster : Cluster) (cache : List Block)
    → cache_size ≢ 0
    → length cache ≡ cache_size / 4096
    → overwrite now cluster cache ≡ none
    → All (λ b. now ≤ b.timestamp) cache
    → write_block cache_size now cluster cache ≡ fault
unfolding write_block insert get_lru
write_block-same_second cache_size now cluster cache some_size full new used =
    let whole : (length cache == cache_size / 4096) ≡ true = ground (arith, full) in
    rw (ne→== cache_size 0 some_size, new, whole, lru_from-none now 0 cache used) refl
