-- ===== src/Pfs/FileIo/Fetch.antt =====
-- A cluster that fuselage_read takes through the cache has the bytes that the open file shows, and
-- what the file shows does not change, whatever leaves the cache for it.
use fuselage_fat32_utn.Prelude.{
  ℕ, ◌+◌, ◌*◌, ◌/◌, ◌<◌, ◌≤◌, ◌≡◌, ◌≢◌, refl, sym, ap, ◌∙◌, subst, arith, false, Option, none, some,
  List, ◌==◌, ne→==, length, Option-cases, inl, inr, All, Distinct, memcpy, memcpy_all,
}
use fuselage_fat32_utn.Prelude.Outcome.{ok}
use fuselage_fat32_utn.Pfs.FileCache
use fuselage_fat32_utn.Pfs.FileCache.{
  Block, get_lru, insert, overwrite, new_block, read_block, write_block,
}
use fuselage_fat32_utn.Pfs.FileCache.Contents.{write_block-Written}
use fuselage_fat32_utn.Pfs.FileIo.{Session, write_replaced, fetch, fetch_missing}
use fuselage_fat32_utn.Pfs.FileIo.Placing.{Keeps, insert-ok, Written-Keeps}
use fuselage_fat32_utn.Pfs.FileIo.View.{
  cached, fresh, data_of, data_of-cached, data_of-missing, IsCoherent, cached-none,
  overwrite-absent, find_block-absent, IsTouched, find_block-IsTouched,
}

module _ (cache_size : ℕ) (some_size : 4096 ≤ cache_size) where
  nonzero : (cache_size == 0) ≡ false
  nonzero = ne→== cache_size 0 (λ e. omega (arith, e, some_size))

  write_block-ok :
      (start now : ℕ) (cluster : FileCache.Cluster) (cache : List Block)
      → All (λ (b : Block). b.cluster_no ≢ cluster.number) cache
      → start ≤ now
      → fresh start cache < cache_size / 4096
      → (p : Option FileCache.Cluster × List Block) × (write_block cache_size now cluster cache
          ≡ ok p)
  unfolding write_block
  write_block-ok start now cluster cache missing later few =
      rw (nonzero, overwrite-absent now cluster cache missing)
        (insert-ok start (cache_size / 4096) now cluster cache later few)

  -- A cluster that the cache does not have is delivered with the bytes on the disk.
  fetch_missing-Keeps :
      (start now c : ℕ) (s : Session)
      → cached c s.cache ≡ none
      → IsCoherent s
      → start ≤ now
      → fresh start s.cache < cache_size / 4096
      → (s' : Session) × (fetch_missing cache_size now 4096 c s ≡ ok (data_of s c, s'))
        × Keeps start 1 s s'
  unfolding fetch_missing
  fetch_missing-Keeps start now c s new coherent later few =
      let missing = cached-none c s.cache new in
      let bytes = s.volume.contents c in
      let cluster : FileCache.Cluster = record { number = c; bytes = bytes } in
      let copy : memcpy 4096 bytes ≡ ok bytes = memcpy_all bytes 4096 (sym (coherent.sized c)) in
      let (p, written) = write_block-ok start now cluster s.cache missing later few in
      (
        record { volume = write_replaced p.0 s.volume; cache = p.1 },
        rw (nonzero, copy)
            (rw written (
              ap (λ b. ok (b, record { volume = write_replaced p.0 s.volume; cache = p.1 }))
                (sym (data_of-missing s c new)))),
        Written-Keeps start now (cache_size / 4096) cluster s p.0 p.1
            (write_block-Written cache_size now cluster s.cache p (λ e. omega (arith, e, some_size))
              written)
            missing refl coherent,
      )

  read_block-lem :
      (now c : ℕ) (cache : List Block)
      → read_block cache_size now c cache ≡ FileCache.find_block now c cache
  unfolding read_block
  read_block-lem now c cache = rw nonzero refl

  module _ (clock : ℕ → ℕ) (round c : ℕ) (s : Session) where
    fetch-miss :
        read_block cache_size (clock (2 * round)) c s.cache ≡ (none, s.cache)
        → fetch clock cache_size 4096 round c s
          ≡ fetch_missing cache_size (clock (2 * round + 1)) 4096 c s
    unfolding fetch
    fetch-miss e = rw (fetch, e) refl

    fetch-hit :
        (block : Block) (cache : List Block)
        → read_block cache_size (clock (2 * round)) c s.cache ≡ (some block, cache)
        → length block.bytes ≡ 4096
        → fetch clock cache_size 4096 round c s ≡ ok (block.bytes, record s { cache = cache })
    unfolding fetch
    fetch-hit block cache e n =
        rw (fetch, e)
          (rw (memcpy_all block.bytes 4096 (sym n))
            (ap (λ (p : Option Block × List Block). ok (block.bytes, record s { cache = p.1 })) e))

    touched-Keeps :
        (start : ℕ) (bytes : List ℕ)
        → IsCoherent s
        → (t : IsTouched
            (clock (2 * round))
            c
            s.volume
            s.cache
            bytes
            (FileCache.find_block (clock (2 * round)) c s.cache))
        → Keeps start 1 s
            (record s { cache = (FileCache.find_block (clock (2 * round)) c s.cache).1 })
    touched-Keeps start bytes coherent t = record {
      same_fat = refl;
      same_data = λ d. elim (Option-cases (cached d s.cache)) [
        | inl gone ↦
            data_of-missing
              (record s { cache = (FileCache.find_block (clock (2 * round)) c s.cache).1 }) d
              (t.same_data d ∙ gone)
            ∙ sym (data_of-missing s d gone)
        | inr (old, held) ↦
            data_of-cached
              (record s { cache = (FileCache.find_block (clock (2 * round)) c s.cache).1 }) d old
              (t.same_data d ∙ held)
            ∙ sym (data_of-cached s d old held)
      ];
      coherent = record {
        once = subst Distinct (sym t.same_numbers) coherent.once;
        blocks = t.blocks;
        sized = coherent.sized;
      };
      few = t.few start;
    }

    -- With a coherent session, a clock that does not go behind `start`, and a block that was not used
    -- since or room for one, a round of fuselage_read delivers what the file shows.
    pub fetch-Keeps :
        (start : ℕ)
        → ((k : ℕ) → start ≤ clock k)
        → IsCoherent s
        → fresh start s.cache < cache_size / 4096
        → (s' : Session) × (fetch clock cache_size 4096 round c s ≡ ok (data_of s c, s'))
          × Keeps start 1 s s'
    fetch-Keeps start later coherent few = elim (Option-cases (cached c s.cache)) [
      | inl new ↦
          let (s', runs, keeps) =
            fetch_missing-Keeps start (clock (2 * round + 1)) c s new coherent
              (later (2 * round + 1)) few in
          let absent_block =
            read_block-lem (clock (2 * round)) c s.cache
            ∙ find_block-absent (clock (2 * round)) c s.cache (cached-none c s.cache new) in
          (s', fetch-miss absent_block ∙ runs, keeps)
      | inr (bytes, held) ↦
          let t =
            find_block-IsTouched (clock (2 * round)) c s.volume s.cache bytes held
              coherent.blocks in
          let rest = (FileCache.find_block (clock (2 * round)) c s.cache).1 in
          let found : read_block cache_size (clock (2 * round)) c s.cache ≡ (some t.block, rest) =
            read_block-lem (clock (2 * round)) c s.cache ∙ ap (λ o. (o, rest)) t.found in
          (
            record s { cache = rest },
            fetch-hit t.block rest found t.size
                ∙ ap (λ b. ok (b, record s { cache = rest }))
                    (t.same ∙ sym (data_of-cached s c bytes held)),
            touched-Keeps start bytes coherent t,
          )
    ]
