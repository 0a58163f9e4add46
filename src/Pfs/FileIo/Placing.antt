-- ===== src/Pfs/FileIo/Placing.antt =====
-- A cluster that the cache takes in, in a place of its own or in that of the oldest block, leaves what
-- the open file shows.
use fuselage_fat32_utn.Prelude.{
  ◌+◌, ◌<◌, ℕ, zero, suc, ◌≤◌, ◌≡◌, ◌≢◌, refl, sym, ap, ◌∙◌, arith, true, false, Option, none, some,
  List, [], ◌∷◌, ◌++◌, ◌==◌, ne→==, length, if◌then◌else◌, Bool-cases, Option-cases, inl, inr,
  get_elem?, set, All, All-append, map-All, All-get, All-set, All-zip, Distinct-set, Distinct-snoc,
  some-inj,
}
use fuselage_fat32_utn.Prelude.Outcome.{ok}
use fuselage_fat32_utn.Pfs.FileCache
use fuselage_fat32_utn.Pfs.FileCache.{
  Block, get_lru, insert, overwrite, new_block, read_block, write_block,
}
use fuselage_fat32_utn.Pfs.FileCache.Contents
use fuselage_fat32_utn.Pfs.FileCache.Contents.{Written, write_block-Written}
use fuselage_fat32_utn.Pfs.FileCache.Eviction.{IsOldest, get_lru-IsOldest}
use fuselage_fat32_utn.Pfs.FileIo.{Session, write_replaced}
use fuselage_fat32_utn.Pfs.FileIo.View.{
  cached, fresh, data_of, data_of-cached, data_of-missing, numbers, IsBlock, IsCoherent,
  cached-absent, overwrite-absent, cached-append, cached-set, cached-members,
}

-- The table, what the file shows, and the coherence of the cache. At most `count` blocks more were used
-- in the second `start` or behind it.
pub record Keeps (start count : ℕ) (s s' : Session) : Type 0 where
  pub same_fat : s'.volume.fat ≡ s.volume.fat
  pub same_data : (d : ℕ) → data_of s' d ≡ data_of s d
  pub coherent : IsCoherent s'
  pub few : fresh start s'.cache ≤ fresh start s.cache + count

fresh-append :
    (start : ℕ) (cache : List Block) (b : Block)
    → fresh start (cache ++ b ∷ []) ≤ fresh start cache + 1
unfolding fresh
fresh-append start [] b = ground arith
fresh-append start (x ∷ xs) b = omega (arith, fresh-append start xs b)

fresh-set :
    (start : ℕ) (cache : List Block) (i : ℕ) (b : Block)
    → fresh start (set cache i b) ≤ fresh start cache + 1
unfolding fresh
fresh-set start [] i b = omega arith
fresh-set start (x ∷ xs) zero b = ground arith
fresh-set start (x ∷ xs) (suc i) b = omega (arith, fresh-set start xs i b)

-- When no block is older than now, all were used in the second in which it all started, or later.
fresh-none :
    (start now : ℕ) (cache : List Block)
    → start ≤ now
    → IsOldest now none cache
    → fresh start cache ≡ length cache
unfolding fresh
fresh-none start now [] h all = refl
fresh-none start now (b ∷ bs) h all = ground (arith, fresh-none start now bs h all.1, all.0, h)

-- With a block that was not used since `start`, or room for one more, there is always a place.
pub insert-ok :
    (start max_blocks now : ℕ) (cluster : FileCache.Cluster) (cache : List Block)
    → start ≤ now
    → fresh start cache < max_blocks
    → (p : Option FileCache.Cluster × List Block) × (insert max_blocks now cluster cache ≡ ok p)
unfolding insert
insert-ok start max_blocks now cluster cache later few =
    elim (Bool-cases (length cache == max_blocks)) [
      | inr room ↦ rw room (_, refl)
      | inl full ↦ rw full (elim (Option-cases (get_lru now cache)) [
        | inl no_block ↦
            let size : length cache ≡ max_blocks = ground arith in
            let all =
              fresh-none start now cache later (rw no_block at (get_lru-IsOldest now cache)) in
            absurd (omega (arith, all, size, few))
        | inr (i, found) ↦
            let (b, there, oldest) = rw found at (get_lru-IsOldest now cache) in
            rw (found, there) (_, refl)
      ])
    ]

numbers-append :
    (cache : List Block) (b : Block)
    → numbers (cache ++ b ∷ []) ≡ numbers cache ++ b.cluster_no ∷ []
numbers-append [] b = refl
numbers-append (x ∷ xs) b = ap (λ l. x.cluster_no ∷ l) (numbers-append xs b)

numbers-set :
    (cache : List Block) (i : ℕ) (b : Block)
    → numbers (set cache i b) ≡ set (numbers cache) i b.cluster_no
numbers-set [] i b = refl
numbers-set (x ∷ xs) zero b = refl
numbers-set (x ∷ xs) (suc i) b = ap (λ l. x.cluster_no ∷ l) (numbers-set xs i b)

module _ (start now : ℕ) (cluster : FileCache.Cluster) (s : Session)
    (missing : All (λ (b : Block). b.cluster_no ≢ cluster.number) s.cache)
    (on_disk : s.volume.contents cluster.number ≡ cluster.bytes) (c : IsCoherent s) where
  absent : cached cluster.number s.cache ≡ none
  absent = cached-absent cluster.number s.cache missing

  new_IsBlock : IsBlock s.volume (new_block now cluster)
  new_IsBlock = (ap length (sym on_disk) ∙ c.sized cluster.number, λ _. on_disk)

  appended : Session
  appended = record { volume = s.volume; cache = s.cache ++ new_block now cluster ∷ [] }

  -- The cluster itself is shown with the bytes that the disk holds.
  new_data :
      (s' : Session) (d : ℕ)
      → cluster.number ≡ d
      → cached d s'.cache ≡ some cluster.bytes
      → data_of s' d ≡ data_of s d
  new_data s' d number e =
      data_of-cached s' d cluster.bytes e
      ∙ sym on_disk
      ∙ ap s.volume.contents number
      ∙ sym (data_of-missing s d (ap (λ n. cached n s.cache) (sym number) ∙ absent))

  -- A cluster that the cache has, or has not, as before.
  old_data :
      (s' : Session) (d : ℕ)
      → cached d s'.cache ≡ cached d s.cache
      → s'.volume.contents d ≡ s.volume.contents d
      → data_of s' d ≡ data_of s d
  old_data s' d e f = elim (Option-cases (cached d s.cache)) [
    | inl none_there ↦
        data_of-missing s' d (e ∙ none_there) ∙ f ∙ sym (data_of-missing s d none_there)
    | inr (bytes, held) ↦ data_of-cached s' d bytes (e ∙ held) ∙ sym (data_of-cached s d bytes held)
  ]

  same_data_appended : (d : ℕ) → data_of appended d ≡ data_of s d
  unfolding appended
  same_data_appended d =
      let shown = cached-append d (new_block now cluster) s.cache missing in
      elim (Bool-cases (cluster.number == d)) [
        | inl hit ↦ new_data appended d (ground arith) (rw hit at shown)
        | inr miss ↦ old_data appended d (rw miss at shown) refl
      ]

  appended-Keeps : Keeps start 1 s appended
  unfolding appended
  appended-Keeps = record {
    same_fat = refl;
    same_data = same_data_appended;
    coherent = record {
      once = rw (numbers-append s.cache (new_block now cluster)) (
          Distinct-snoc (numbers s.cache) cluster.number c.once
            (map-All (λ n. n ≢ cluster.number) (λ (b : Block). b.cluster_no) s.cache missing));
      blocks =
          All-append (IsBlock s.volume) s.cache (new_block now cluster ∷ []) c.blocks
            (new_IsBlock, tt);
      sized = c.sized;
    };
    few = fresh-append start s.cache (new_block now cluster);
  }

  module _ (i : ℕ) (victim : Block) (there : get_elem? s.cache i ≡ some victim) where
    out : Option FileCache.Cluster
    out = FileCache.replaced victim

    after : Session
    after = record {
      volume = write_replaced out s.volume;
      cache = set s.cache i (new_block now cluster);
    }

    -- The disk behind the write of the block that leaves.
    on_disk_after :
        (d : ℕ)
        → (write_replaced out s.volume).contents d
          ≡ (if d == victim.cluster_no then victim.bytes else s.volume.contents d)
    unfolding out
    on_disk_after d = elim (Bool-cases victim.modified) [
      | inl dirty ↦ rw dirty refl
      | inr clean ↦
          let held : s.volume.contents victim.cluster_no ≡ victim.bytes =
            (All-get (IsBlock s.volume) s.cache i victim c.blocks there).1 clean in
          rw clean (elim (Bool-cases (d == victim.cluster_no)) [
            | inl hit ↦
                let number : d ≡ victim.cluster_no = ground arith in
                rw hit (ap s.volume.contents number ∙ held)
            | inr miss ↦ rw miss refl
          ])
    ]

    same_fat_after : (write_replaced out s.volume).fat ≡ s.volume.fat
    unfolding out
    same_fat_after = elim (Bool-cases victim.modified) [
      | inl dirty ↦ rw dirty refl
      | inr clean ↦ rw clean refl
    ]

    held_in_cache : cached victim.cluster_no s.cache ≡ some victim.bytes
    held_in_cache =
        All-get (λ (b : Block). cached b.cluster_no s.cache ≡ some b.bytes) s.cache i victim
          (cached-members s.cache c.once) there

    blocks_after : All (IsBlock (write_replaced out s.volume)) s.cache
    blocks_after =
        All-zip
          (λ (b : Block) (k : IsBlock s.volume b) (e : cached b.cluster_no s.cache ≡ some b.bytes).
            (
              k.0,
              λ clean.
                  on_disk_after b.cluster_no
                  ∙ elim (Bool-cases (b.cluster_no == victim.cluster_no)) [
                    | inl hit ↦
                        let number : b.cluster_no ≡ victim.cluster_no = ground arith in
                        rw hit (
                          some-inj
                            (sym held_in_cache ∙ ap (λ n. cached n s.cache) (sym number) ∙ e))
                    | inr miss ↦ rw miss (k.1 clean)
                  ],
            ))
          s.cache c.blocks (cached-members s.cache c.once)

    same_data_after : (d : ℕ) → data_of after d ≡ data_of s d
    unfolding after
    same_data_after d =
        let shown = cached-set d i (new_block now cluster) victim s.cache missing c.once there in
        elim (Bool-cases (cluster.number == d)) [
          | inl hit ↦ new_data after d (ground arith) (rw hit at shown)
          | inr miss ↦ elim (Bool-cases (victim.cluster_no == d)) [
            | inl left ↦
                let number : victim.cluster_no ≡ d = ground arith in
                let here : (d == victim.cluster_no) ≡ true = ground (arith, number) in
                data_of-missing after d (rw (miss, left) at shown)
                ∙ on_disk_after d
                ∙ rw here (
                    sym (
                      data_of-cached s d victim.bytes
                        (ap (λ n. cached n s.cache) (sym number) ∙ held_in_cache)))
            | inr stays ↦
                let elsewhere : (d == victim.cluster_no) ≡ false = ground arith in
                old_data after d (rw (miss, stays) at shown) (on_disk_after d ∙ rw elsewhere refl)
          ]
        ]

    sized_after : (d : ℕ) → length ((write_replaced out s.volume).contents d) ≡ 4096
    sized_after d = ap length (on_disk_after d) ∙ elim (Bool-cases (d == victim.cluster_no)) [
      | inl hit ↦ rw hit (All-get (IsBlock s.volume) s.cache i victim c.blocks there).0
      | inr miss ↦ rw miss (c.sized d)
    ]

    new_after : (write_replaced out s.volume).contents cluster.number ≡ cluster.bytes
    new_after =
        let apart : victim.cluster_no ≢ cluster.number =
          All-get (λ (b : Block). b.cluster_no ≢ cluster.number) s.cache i victim missing there in
        on_disk_after cluster.number
        ∙ rw (ne→== cluster.number victim.cluster_no (λ q. apart (sym q))) on_disk

    evicted-Keeps : Keeps start 1 s after
    unfolding after
    evicted-Keeps = record {
      same_fat = same_fat_after;
      same_data = same_data_after;
      coherent = record {
        once = rw (numbers-set s.cache i (new_block now cluster)) (
            Distinct-set (numbers s.cache) i cluster.number c.once
              (map-All (λ n. n ≢ cluster.number) (λ (b : Block). b.cluster_no) s.cache missing));
        blocks =
            All-set (IsBlock (write_replaced out s.volume)) s.cache i (new_block now cluster)
              blocks_after (new_IsBlock.0, λ _. new_after);
        sized = sized_after;
      };
      few = fresh-set start s.cache i (new_block now cluster);
    }

-- CACHE_write_block of a cluster that is on the disk and not in the cache.
pub Written-Keeps :
    (start now max_blocks : ℕ) (cluster : FileCache.Cluster) (s : Session)
    (o : Option FileCache.Cluster) (cs : List Block)
    → Written now max_blocks cluster s.cache o cs
    → All (λ (b : Block). b.cluster_no ≢ cluster.number) s.cache
    → s.volume.contents cluster.number ≡ cluster.bytes
    → IsCoherent s
    → Keeps start 1 s (record { volume = write_replaced o s.volume; cache = cs })
unfolding appended after out
Written-Keeps start now max_blocks cluster s o cs (Contents.overwritten cache' w) missing on_disk
      c =
    absurd (cc (overwrite-absent now cluster s.cache missing))
Written-Keeps start now max_blocks cluster s o cs (Contents.appended w room) missing on_disk c =
    appended-Keeps start now cluster s missing on_disk c
Written-Keeps start now max_blocks cluster s o cs (Contents.evicted i victim w full there) missing
      on_disk c =
    evicted-Keeps start now cluster s missing on_disk c i victim there
