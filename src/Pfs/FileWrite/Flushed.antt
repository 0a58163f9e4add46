-- ===== src/Pfs/FileWrite/Flushed.antt =====
-- fuselage_flush of an open file.
use fuselage_fat32_utn.Prelude.{
  ℕ, ◌≡◌, ◌≢◌, refl, sym, ap, ◌∙◌, arith, true, false, Option, some, none, List, [], ◌∷◌, ◌==◌,
  ne→==, All, All-map, All-mono, All-zip, Distinct, Bool-cases, inl, inr,
}
use fuselage_fat32_utn.Pfs.Volume.{Volume, write_cluster}
use fuselage_fat32_utn.Pfs.FileCache.{Block, flush}
use fuselage_fat32_utn.Pfs.FileIo.{Session}
use fuselage_fat32_utn.Pfs.FileIo.View.{
  cached, cached-absent, data_of, numbers, IsBlock, IsCoherent,
}
use fuselage_fat32_utn.Pfs.FileWrite.{write_flushed, flush_session}

-- What is not marked as modified is on the disk.
abbrev IsClean : Volume → Block → Type 0
IsClean v b = b.modified ≡ false → v.contents b.cluster_no ≡ b.bytes

abbrev shown : Volume → ℕ → Option (List ℕ) → List ℕ
shown v d o = elim o [ some bytes ↦ bytes | none ↦ v.contents d ]

shown-same :
    (v' v : Volume) (d : ℕ) (o : Option (List ℕ))
    → v'.contents d ≡ v.contents d
    → shown v' d o ≡ shown v d o
shown-same v' v d none h = h
shown-same v' v d (some bytes) h = refl

others :
    (b : Block) (bs : List Block)
    → Distinct (numbers (b ∷ bs))
    → All (λ (x : Block). x.cluster_no ≢ b.cluster_no) bs
others b bs once = All-map (λ n. n ≢ b.cluster_no) (λ (x : Block). x.cluster_no) bs once.0

-- The blocks that are written one after the other.
write_flushed-shown :
    (cache : List Block) (v : Volume) (d : ℕ)
    → Distinct (numbers cache)
    → All (IsClean v) cache
    → (write_flushed (flush cache) v).contents d ≡ shown v d (cached d cache)
unfolding flush cached
write_flushed-shown [] v d once clean = refl
write_flushed-shown (b ∷ bs) v d once clean = elim (Bool-cases b.modified) [
  | inl dirty ↦
      let v' = write_cluster b.cluster_no b.bytes v in
      let clean' : All (IsClean v') bs =
        All-zip {R = IsClean v'}
          (λ (x : Block) (k : IsClean v x) (n : x.cluster_no ≢ b.cluster_no) m.
            rw (ne→== x.cluster_no b.cluster_no n) (k m))
          bs clean.1 (others b bs once) in
      let rest = write_flushed-shown bs v' d once.1 clean' in
      rw dirty (
        rest ∙ elim (Bool-cases (b.cluster_no == d)) [
          | inl hit ↦
              let number : b.cluster_no ≡ d = ground arith in
              let here : (d == b.cluster_no) ≡ true = ground (arith, number) in
              let gone : cached d bs ≡ none =
                ap (λ n. cached n bs) (sym number)
                ∙ cached-absent b.cluster_no bs (others b bs once) in
              rw (hit, gone) (rw here refl)
          | inr miss ↦
              let elsewhere : (d == b.cluster_no) ≡ false = ground arith in
              rw miss (shown-same v' v d (cached d bs) (rw elsewhere refl))
        ])
  | inr unchanged ↦
      let rest = write_flushed-shown bs v d once.1 clean.1 in
      rw unchanged (
        rest ∙ elim (Bool-cases (b.cluster_no == d)) [
          | inl hit ↦
              let number : b.cluster_no ≡ d = ground arith in
              let gone : cached d bs ≡ none =
                ap (λ n. cached n bs) (sym number)
                ∙ cached-absent b.cluster_no bs (others b bs once) in
              rw (hit, gone) (ap v.contents (sym number) ∙ clean.0 unchanged)
          | inr miss ↦ rw miss refl
        ])
]

write_flushed-fat : (cache : List Block) (v : Volume) → (write_flushed (flush cache) v).fat ≡ v.fat
unfolding flush
write_flushed-fat [] v = refl
write_flushed-fat (b ∷ bs) v = elim (Bool-cases b.modified) [
  | inl dirty ↦ rw dirty (write_flushed-fat bs (write_cluster b.cluster_no b.bytes v))
  | inr unchanged ↦ rw unchanged (write_flushed-fat bs v)
]

-- Behind a flush of a coherent session the disk holds what the open file showed for every cluster, the
-- file shows the same, and the cache is empty. The table is as before.
pub flush_session-contents :
    (s : Session)
    → IsCoherent s
    → ((d : ℕ) → (flush_session s).volume.contents d ≡ data_of s d)
      × ((d : ℕ) → data_of (flush_session s) d ≡ data_of s d)
      × ((flush_session s).cache ≡ [])
      × ((flush_session s).volume.fat ≡ s.volume.fat)
unfolding flush_session data_of cached
flush_session-contents s c =
    let clean : All (IsClean s.volume) s.cache =
      All-mono (λ (b : Block) (k : IsBlock s.volume b). k.1) s.cache c.blocks in
    (
      λ d. write_flushed-shown s.cache s.volume d c.once clean,
      λ d. write_flushed-shown s.cache s.volume d c.once clean,
      refl,
      write_flushed-fat s.cache s.volume,
    )
