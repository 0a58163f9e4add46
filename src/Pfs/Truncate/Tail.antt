-- ===== src/Pfs/Truncate/Tail.antt =====
-- A file that gets shorter and needs all its clusters still.
use native.Mathlib.Nat.{mod-lt}
use fuselage_fat32_utn.Prelude.{
  ℕ, ◌+◌, ◌-◌, ◌%◌, ◌<◌, ◌≤◌, ◌≡◌, refl, arith, false, List, [], ◌∷◌, ◌++◌, length, take, drop,
  length-append, ltb, lt→ltb, replicate, length-replicate, le→leb, drop_all, append-nil,
  get_elem?-lt,
}
use fuselage_fat32_utn.Prelude.Outcome.{ok}
use fuselage_fat32_utn.Pfs.BootSector.{BootSector, bytes_per_cluster}
use fuselage_fat32_utn.Pfs.Fat.{is_eoc, last_of_chain, get_last_linked}
use fuselage_fat32_utn.Pfs.Fat.Chain.{Chain, link, end, length-clusters-le}
use fuselage_fat32_utn.Pfs.Fat.Walk.{last_of_chain-Chain}
use fuselage_fat32_utn.Pfs.Fat.Valid.{IsValid}
use fuselage_fat32_utn.Pfs.Volume.{Volume, write_cluster}
use fuselage_fat32_utn.Pfs.Truncate.{cluster_count, clear_bytes, clear_tail, resize}

not_ltb : (n : ℕ) → ltb n n ≡ false
not_ltb n = ground arith

is_eoc-small : (c : ℕ) → c < 0x0FFFFFF0 → is_eoc c ≡ false
unfolding is_eoc
is_eoc-small c h = ground arith

Chain-head : {t : List ℕ} {l c : ℕ} {front : List ℕ} → Chain t l c front → c < length t
Chain-head {t} (end {c} v e at k) = omega (arith, e, get_elem?-lt t _ v at)
Chain-head {t} (link {c} v at k n r) = get_elem?-lt t c v at

clear_bytes-tail :
    (place count c : ℕ) (v : Volume)
    → place + count ≡ length (v.contents c)
    → clear_bytes place count c v
      ≡ ok (write_cluster c (take place (v.contents c) ++ replicate count 0) v)
unfolding clear_bytes
clear_bytes-tail place count c v h =
    let n : length {A = ℕ} (replicate count 0) ≡ count = length-replicate {A = ℕ} count 0 in
    let all : drop (place + count) (v.contents c) ≡ [] =
      drop_all (v.contents c) (place + count) (omega (arith, h)) in
    rw
      (
        n,
        le→leb (place + count) (length (v.contents c)) (omega (arith, h)),
        all,
        append-nil {A = ℕ} (replicate count 0),
      )
      refl

-- This is about the part of fat32_truncate in front of the directory's entry, which is written behind
-- it. In a valid table, when the new size of a file is below its size, but needs as many clusters,
-- and the data of its last cluster have the bytes of a cluster, one at least, and the fuel is the
-- size of the table, this part keeps the bytes of the last cluster up to the new size, and clears all
-- others of it. The table and the data of the other clusters have not changed by then.
pub resize-cleared :
    (boot : BootSector) (rounds original_size new_size : ℕ) (v : Volume) {l c : ℕ} {front : List ℕ}
    → IsValid boot v.fat
    → Chain v.fat.table l c front
    → length v.fat.table ≤ rounds
    → cluster_count (bytes_per_cluster boot) new_size
      ≡ cluster_count (bytes_per_cluster boot) original_size
    → new_size < original_size
    → 0 < bytes_per_cluster boot
    → length (v.contents l) ≡ bytes_per_cluster boot
    → resize rounds boot original_size new_size c v
      ≡ ok (
        write_cluster l
            (take (new_size % bytes_per_cluster boot) (v.contents l)
              ++ replicate (bytes_per_cluster boot - new_size % bytes_per_cluster boot) 0)
            v,
        c,
      )
unfolding resize clear_tail get_last_linked
resize-cleared boot rounds original_size new_size v {l} {c} {front} valid ch enough same less some
      whole =
    let place = new_size % bytes_per_cluster boot in
    let within : place < bytes_per_cluster boot = mod-lt new_size some in
    let no_mark : is_eoc c ≡ false = is_eoc-small c (omega (arith, Chain-head ch, valid.small)) in
    let walks : last_of_chain rounds v.fat c ≡ ok l =
      last_of_chain-Chain v.fat rounds ch
        (omega (arith, enough, length-clusters-le ch, length-append front (l ∷ []))) in
    let clears =
      clear_bytes-tail place (bytes_per_cluster boot - place) l v (omega (arith, within, whole)) in
    rw
      (
        same,
        not_ltb (cluster_count (bytes_per_cluster boot) original_size),
        lt→ltb new_size original_size less,
        no_mark,
        walks,
      )
      (rw clears refl)
