-- ===== src/Pfs/FileIo/Contents.antt =====
-- fuselage_read as a read of the contents of the file.
use fuselage_fat32_utn.Prelude.{
  ℕ, ◌+◌, ◌-◌, ◌*◌, ◌/◌, ◌%◌, ◌<◌, ◌≤◌, ◌≡◌, refl, sym, ap, subst, ◌∙◌, arith, false, List, ◌++◌,
  length, take, drop, leb, memcpy-ok, memcpy, length-take, length-drop, take-append-drop,
}
use fuselage_fat32_utn.Prelude.Outcome.{ok, fault, ◌>>=◌}
use fuselage_fat32_utn.Pfs.BootSector.{BootSector, bytes_per_cluster}
use fuselage_fat32_utn.Pfs.FileIo.{Session, skip, read_clusters, read_within, read, clamp}
use fuselage_fat32_utn.Pfs.FileIo.View.{fresh, data_of, IsCoherent, length-data_of}
use fuselage_fat32_utn.Pfs.FileIo.Placing.{Keeps}
use fuselage_fat32_utn.Pfs.FileIo.Reading.{
  Follows, joined, length-joined, skip-Follows, read_clusters-joined, take-joined, clamp-le,
}
use fuselage_fat32_utn.Pfs.Span.{cluster_span, cluster_span-exact}

gt→leb : (m n : ℕ) → n < m → leb m n ≡ false
gt→leb m n h = ground arith

module _ (clock : ℕ → ℕ) (cache_size : ℕ) (boot : BootSector) (first : ℕ) (cs : List ℕ)
    (s : Session) (offset n : ℕ) where
  -- The clusters that are read.
  abbrev span : ℕ
  span = (n + 4095) / 4096

  abbrev mid : List ℕ
  mid = take span (drop (offset / 4096) cs)

  -- The buffer of the clusters that are read.
  module _ (some_size : 4096 ≤ cache_size) (later : (k : ℕ) → clock 0 ≤ clock k)
      (follows : Follows s.volume.fat first cs) (coherent : IsCoherent s)
      (whole_size : bytes_per_cluster boot ≡ 4096) (small : offset + n < 16777216)
      (few : fresh (clock 0) s.cache + span ≤ cache_size / 4096)
      (enough : offset / 4096 + span ≤ length cs) where
    pre_length : length (take (offset / 4096) cs) ≡ offset / 4096
    pre_length = omega (arith, enough, length-take (offset / 4096) cs)

    length-mid : length mid ≡ span
    length-mid =
        omega (
          arith,
          enough,
          length-take span (drop (offset / 4096) cs),
          length-drop (offset / 4096) cs,
        )

    parts : take (offset / 4096) cs ++ (mid ++ drop span (drop (offset / 4096) cs)) ≡ cs
    parts =
        ap (λ l. take (offset / 4096) cs ++ l) (take-append-drop span (drop (offset / 4096) cs))
        ∙ take-append-drop (offset / 4096) cs

    spans : cluster_span offset n 4096 ≡ span
    spans = cluster_span-exact offset n 4096 small

    read_within-buffer :
        (s' : Session) × (read_within clock cache_size boot first n offset s
          ≡ (do bytes ← memcpy n (drop (offset % 4096) (joined (data_of s) mid)); ok (bytes, s')))
        × Keeps (clock 0) span s s'
    unfolding read_within
    read_within-buffer =
        let rest = drop span (drop (offset / 4096) cs) in
        let (d, skips, at_d) =
          skip-Follows s.volume.fat (take (offset / 4096) cs) (mid ++ rest) first
            (subst (Follows s.volume.fat first) (sym parts) follows) in
        let (s', runs, keeps) =
          read_clusters-joined clock cache_size some_size (clock 0) later mid rest 0 d s at_d
            coherent (omega (arith, few, length-mid)) in
        let skipped : skip (offset / 4096) s.volume.fat first ≡ ok d =
          ap (λ k. skip k s.volume.fat first) (sym pre_length) ∙ skips in
        let run : read_clusters clock cache_size 4096 (cluster_span offset n 4096) 0 d s
            ≡ ok (joined (data_of s) mid, s') =
          ap (λ k. read_clusters clock cache_size 4096 k 0 d s) (spans ∙ sym length-mid) ∙ runs in
        (
          s',
          rw (whole_size, skipped) (rw run refl),
          subst (λ k. Keeps (clock 0) k s s') length-mid keeps,
        )

    shown : (c : ℕ) → length (data_of s c) ≡ 4096
    shown c = length-data_of s c coherent

    buffer_size :
        length (drop (offset % 4096) (joined (data_of s) mid)) ≡ 4096 * span - offset % 4096
    buffer_size = omega (
      arith,
      length-drop (offset % 4096) (joined (data_of s) mid),
      length-joined (data_of s) mid shown,
      length-mid,
    )

    read_within-contents :
        offset % 4096 + n ≤ 4096 * span
        → (s' : Session) × (read_within clock cache_size boot first n offset s
            ≡ ok (take n (drop offset (joined (data_of s) cs)), s'))
          × Keeps (clock 0) span s s'
    read_within-contents fits =
        let (s', runs, keeps) = read_within-buffer in
        let rest = drop span (drop (offset / 4096) cs) in
        let bytes = drop (offset % 4096) (joined (data_of s) mid) in
        let copy : memcpy n bytes ≡ ok (take n bytes) =
          memcpy-ok n bytes (omega (arith, buffer_size, fits)) in
        let front : take n bytes ≡ take n (drop offset (joined (data_of s) cs)) =
          sym (
            take-joined (data_of s) (take (offset / 4096) cs) mid rest offset n shown pre_length
              (omega (arith, length-mid, fits)))
          ∙ ap (λ l. take n (drop offset (joined (data_of s) l))) parts in
        (s', runs ∙ rw copy (ap (λ l. ok (l, s')) front), keeps)

    read_within-outside :
        0 < n
        → 4096 * span < offset % 4096 + n
        → read_within clock cache_size boot first n offset s ≡ fault
    read_within-outside some over =
        let (s', runs, keeps) = read_within-buffer in
        let bytes = drop (offset % 4096) (joined (data_of s) mid) in
        runs ∙ rw (gt→leb n (length bytes) (omega (arith, buffer_size, some, over))) refl

clamp_pos :
    (file_size offset bytes : ℕ) → offset < file_size → 0 < bytes → 0 < clamp file_size offset bytes
clamp_pos file_size offset bytes h k = ground arith

module _ (clock : ℕ → ℕ) (cache_size : ℕ) (boot : BootSector) (first file_size bytes offset : ℕ)
    (cs : List ℕ) (s : Session) where
  abbrev count : ℕ
  count = clamp file_size offset bytes

  -- With a coherent session, a clock that is not set back during the read, clusters of 4096 bytes and a
  -- file below 16 MB that lies in the clusters that follow its first one: let the cache have a block
  -- at least, and as many as the blocks of it that were used in the second in which the read starts or
  -- later and the (count + 4095) / 4096 clusters that are read. Let the read start in the file, and let
  -- its bytes, `count` of them, as many as asked for or as are left, end within these clusters from the one with
  -- the offset on. It delivers these bytes of the file. What the file shows does not change, the
  -- session stays coherent, and no more blocks than clusters were read are added to those used since the start,
  -- whatever leaves the cache.
  pub read-contents :
      4096 ≤ cache_size
      → ((k : ℕ) → clock 0 ≤ clock k)
      → Follows s.volume.fat first cs
      → IsCoherent s
      → fresh (clock 0) s.cache + (count + 4095) / 4096 ≤ cache_size / 4096
      → bytes_per_cluster boot ≡ 4096
      → file_size < 16777216
      → file_size ≤ 4096 * length cs
      → offset < file_size
      → offset % 4096 + count ≤ 4096 * ((count + 4095) / 4096)
      → (s' : Session) × (read clock cache_size boot file_size first bytes offset s
          ≡ ok (take count (drop offset (joined (data_of s) cs)), s'))
        × Keeps (clock 0) ((count + 4095) / 4096) s s'
  unfolding read
  read-contents some_size later follows coherent few whole_size small holds inside fits =
      let last : offset + count ≤ file_size = clamp-le file_size offset bytes inside in
      rw (gt→leb file_size offset inside) (
        read_within-contents clock cache_size boot first cs s offset count some_size later follows
          coherent whole_size (omega (arith, last, small)) few (omega (arith, last, holds, fits))
          fits)

  -- With a coherent session, a clock that is not set back during the read, clusters of 4096 bytes and a
  -- file below 16 MB that lies in the clusters that follow its first one: let the cache have a block
  -- at least, and as many as the blocks of it that were used in the second in which the read starts or
  -- later and the (count + 4095) / 4096 clusters that are read. Let the read start in the file, and let
  -- its bytes, `count` of them, as many as asked for or as are left, one at least asked for, end behind these
  -- clusters from the one with the offset on. The clusters are read, and then bytes are copied from
  -- behind the end of the buffer that was allocated for them.
  pub read-straddling :
      4096 ≤ cache_size
      → ((k : ℕ) → clock 0 ≤ clock k)
      → Follows s.volume.fat first cs
      → IsCoherent s
      → fresh (clock 0) s.cache + (count + 4095) / 4096 ≤ cache_size / 4096
      → bytes_per_cluster boot ≡ 4096
      → file_size < 16777216
      → file_size ≤ 4096 * length cs
      → offset < file_size
      → 0 < bytes
      → 4096 * ((count + 4095) / 4096) < offset % 4096 + count
      → read clock cache_size boot file_size first bytes offset s ≡ fault
  unfolding read
  read-straddling some_size later follows coherent few whole_size small holds inside asked over =
      let some : 0 < count = clamp_pos file_size offset bytes inside asked in
      let last : offset + count ≤ file_size = clamp-le file_size offset bytes inside in
      rw (gt→leb file_size offset inside) (
        read_within-outside clock cache_size boot first cs s offset count some_size later follows
          coherent whole_size (omega (arith, last, small)) few (omega (arith, last, holds, over))
          some over)
