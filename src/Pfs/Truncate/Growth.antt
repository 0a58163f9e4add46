-- ===== src/Pfs/Truncate/Growth.antt =====
-- The chain of a file that gets longer, with cleared clusters.
use fuselage_fat32_utn.Prelude.{
  ℕ, zero, suc, ◌+◌, ◌≤◌, ◌≡◌, refl, sym, ap, ◌∙◌, arith, true, false, ◌||◌, List, [], ◌∷◌, ◌++◌,
  length, take, drop, replicate, length-replicate, length-append, append_assoc, append-nil, le→leb,
  ◌==◌, if◌then◌else◌, Bool-cases, inl, inr, Bool,
}
use fuselage_fat32_utn.Prelude.Outcome.{ok}
use fuselage_fat32_utn.Pfs.BootSector.{BootSector}
use fuselage_fat32_utn.Pfs.Fat.{get_free_clusters}
use fuselage_fat32_utn.Pfs.Fat.Chain.{Chain, clusters}
use fuselage_fat32_utn.Pfs.Fat.Free.{has}
use fuselage_fat32_utn.Pfs.Fat.Valid.{IsValid}
use fuselage_fat32_utn.Pfs.Fat.Link.{link_free_cluster_lem}
use fuselage_fat32_utn.Pfs.Fat.Supply.{get_free_clusters-linked}
use fuselage_fat32_utn.Pfs.Volume.{Volume, write_cluster}
use fuselage_fat32_utn.Pfs.Truncate.{clear_bytes, link_clusters}

take-replicate : (n : ℕ) (ys : List ℕ) → take n (replicate n 0 ++ ys) ≡ replicate n 0
take-replicate zero ys = refl
take-replicate (suc n) ys = ap (λ l. 0 ∷ l) (take-replicate n ys)

-- The bytes of a cluster of which the first `n` are cleared.
abbrev cleared : ℕ → List ℕ → List ℕ
cleared n bytes = replicate n 0 ++ drop n bytes

clear_bytes-start :
    (n c : ℕ) (v : Volume)
    → n ≤ length (v.contents c)
    → clear_bytes 0 n c v ≡ ok (write_cluster c (cleared n (v.contents c)) v)
unfolding clear_bytes
clear_bytes-start n c v h =
    let count : 0 + length {A = ℕ} (replicate n 0) ≡ n =
      omega (arith, length-replicate {A = ℕ} n 0) in
    rw count (rw (le→leb n (length (v.contents c)) h) refl)

-- The clusters that are appended begin with zeros, and the others are as they were.
pub record IsCleared (n : ℕ) (added : List ℕ) (v v' : Volume) : Type 0 where
  pub zeros : (d : ℕ) → has d added ≡ true → take n (v'.contents d) ≡ replicate n 0
  pub others : (d : ℕ) → has d added ≡ false → v'.contents d ≡ v.contents d

-- What linking some clusters does to the chain of a file and to the volume.
pub record IsGrown (boot : BootSector) (c : ℕ) (whole added rest : List ℕ) (v v' : Volume)
    : Type 0 where
  pub last : ℕ
  pub front : List ℕ
  pub chain : Chain v'.fat.table last c front
  pub longer : clusters front last ≡ whole ++ added
  pub left : get_free_clusters v'.fat ≡ ok rest
  pub valid : IsValid boot v'.fat
  pub data_cleared : IsCleared 4096 added v v'

or-false : (a b : Bool) → a || b ≡ false → (a ≡ false) × (b ≡ false)
or-false true b e = absurd (cc)
or-false false b e = (refl, e)

or-true : (a b : Bool) → a || b ≡ true → b ≡ false → a ≡ true
or-true true b e n = refl
or-true false b e n = absurd (cc)

-- A cluster is cleared, and then others are.
IsCleared-next :
    (n f : ℕ) (added : List ℕ) (v v' : Volume)
    → IsCleared n added (write_cluster f (cleared n (v.contents f)) v) v'
    → IsCleared n (f ∷ added) v v'
IsCleared-next n f added v v' later = record {
  zeros = λ d e. elim (Bool-cases (has d added)) [
    | inl again ↦ later.zeros d again
    | inr once ↦
        let here : (d == f) ≡ true = or-true (d == f) (has d added) e once in
        let now : v'.contents d ≡ (if d == f then cleared n (v.contents f) else v.contents d) =
          later.others d once in
        rw (now, here) (take-replicate n (drop n (v.contents f)))
  ];
  others = λ d e.
      let (elsewhere, never) = or-false (d == f) (has d added) e in
      let now : v'.contents d ≡ (if d == f then cleared n (v.contents f) else v.contents d) =
        later.others d never in
      rw (now, elsewhere) refl;
}

-- A cleared cluster is no shorter than what was cleared.
long_enough :
    (n f : ℕ) (v : Volume)
    → ((d : ℕ) → n ≤ length (v.contents d))
    → (d : ℕ) → n ≤ length ((write_cluster f (cleared n (v.contents f)) v).contents d)
long_enough n f v h d = elim (Bool-cases (d == f)) [
  | inl here ↦ rw here (
      omega (
        arith,
        length-append {A = ℕ} (replicate n 0) (drop n (v.contents f)),
        length-replicate {A = ℕ} n 0,
      ))
  | inr elsewhere ↦ rw elsewhere (h d)
]

module _ (boot : BootSector) (rounds c : ℕ) where
  -- In a valid table with clusters that are free, the loop of fat32_truncate that links clusters puts
  -- the first ones, as many as it is to link, behind the chain in their order, fills the first 4096
  -- bytes of each with zeros, and leaves the data of all others alone. The table stays valid and
  -- the other free clusters stay free.
  pub link_clusters-IsGrown :
      (n : ℕ) (v : Volume) {l : ℕ} {front : List ℕ} (added rest : List ℕ)
      → IsValid boot v.fat
      → Chain v.fat.table l c front
      → 2 ≤ length v.fat.table
      → length v.fat.table ≤ rounds
      → get_free_clusters v.fat ≡ ok (added ++ rest)
      → length added ≡ n
      → ((d : ℕ) → 4096 ≤ length (v.contents d))
      → (v' : Volume) × (link_clusters n rounds boot c v ≡ ok v')
        × IsGrown boot c (clusters front l) added rest v v'
  unfolding link_clusters
  link_clusters-IsGrown zero v {l} {front} [] rest valid ch reserved enough free same long = (
    v,
    refl,
    record {
      last = l;
      front = front;
      chain = ch;
      longer = sym (append-nil (clusters front l));
      left = free;
      valid = valid;
      data_cleared = record { zeros = λ d e. absurd (cc); others = λ d e. refl };
    },
  )
  link_clusters-IsGrown zero v (f ∷ added) rest valid ch reserved enough free same long =
      absurd (omega (arith, same))
  link_clusters-IsGrown (suc n) v [] rest valid ch reserved enough free same long =
      absurd (omega (arith, same))
  link_clusters-IsGrown (suc n) v {l} {front} (f ∷ added) rest valid ch reserved enough free same
        long =
      let (g, runs, u) =
        link_free_cluster_lem boot v.fat rounds valid ch reserved enough f (added ++ rest) free in
      let v0 : Volume = record v { fat = g } in
      let v1 : Volume = write_cluster f (cleared 4096 (v.contents f)) v0 in
      let clears : clear_bytes 0 4096 f v0 ≡ ok v1 = clear_bytes-start 4096 f v0 (long f) in
      let (v', more, grown) =
        link_clusters-IsGrown n v1 added rest u.valid u.chain
          (omega (arith, reserved, u.same_length)) (omega (arith, enough, u.same_length))
          (get_free_clusters-linked ch u (added ++ rest) valid reserved free) (omega (arith, same))
          (long_enough 4096 f v0 long) in
      (
        v',
        rw runs (rw clears more),
        record {
          last = grown.last;
          front = grown.front;
          chain = grown.chain;
          longer = grown.longer ∙ append_assoc (clusters front l) (f ∷ []) added;
          left = grown.left;
          valid = grown.valid;
          data_cleared =
              let d = IsCleared-next 4096 f added v0 v' grown.data_cleared in
              record { zeros = d.zeros; others = d.others };
        },
      )
