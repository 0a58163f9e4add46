-- ===== src/Ppd/Geometry/Addresses.antt =====
-- When an address and its sector number agree.
use fuselage_fat32_utn.Prelude.{
  ℕ, ◌+◌, ◌-◌, ◌*◌, ◌/◌, ◌%◌, ◌^◌, ◌<◌, ◌≤◌, ◌≡◌, ◌≢◌, arith, ap, sym, ◌∙◌, u32_mod, ltb,
  Bool-cases, ◌==◌, ==_iff, ltb→lt, inl, inr,
}
use native.Mathlib.Nat.{mod-eq_of_lt, div-add-mod, div-eq_of_lt-le}
use fuselage_fat32_utn.Ppd.Geometry.{
  Disk, chs, turn_to_chs, turn_to_sector_num, abs_diff, sector_dist, update_head_position,
}

-- A geometry with at least one address, whose sector numbers fit 32 bits.
pub record IsGeometry (disk : Disk) : Type 0 where
  pub some_sectors : 0 < disk.sectors
  pub some_heads : 0 < disk.heads
  pub fits : disk.cylinders * (disk.sectors * disk.heads) < u32_mod
  pub track_fits : disk.sectors * disk.heads < u32_mod

-- A number is its cylinder, track and sector put together.
split_number :
    (s h n : ℕ) → 0 < s → 0 < h → n ≡ s * (h * (n / (s * h)) + n % (s * h) / s) + n % (s * h) % s
split_number s h n ps ph =
    let whole = div-add-mod n (s * h) in
    let part = div-add-mod (n % (s * h)) s in omega (arith, whole, part)

mod-le : (a m : ℕ) → a % m ≤ a
mod-le a m = omega arith

one_track : (s n : ℕ) → 0 < s → s * (n / s + n % s / s) + n % s % s ≡ n
one_track s n h = grind (arith, div-add-mod n s)

skipped_heads-suc : (j k m : ℕ) → (1 + j) * (1 + m) < (1 + j) * ((2 + k) * (1 + m))
skipped_heads-suc j k m = omega arith

skipped_heads : (s h q : ℕ) → 0 < s → 1 < h → 0 < q → s * q < s * (h * q)
skipped_heads s h q ps ph pq =
    let es : 1 + (s - 1) ≡ s = omega arith in
    let eh : 2 + (h - 2) ≡ h = omega arith in
    let eq : 1 + (q - 1) ≡ q = omega arith in
    rw (es, eh, eq) at (skipped_heads-suc (s - 1) (h - 2) (q - 1))

same_track : (s n : ℕ) → 0 < s → (n + 1) % s ≢ 0 → (n + 1) / s ≡ n / s
same_track s n ps h = grind arith

-- The number before a multiple of `s`, and the one a whole turn before it, are on one track.
full_turn : (s m n : ℕ) → 0 < s → s * (1 + m) ≡ n + 1 → ((n + 1 - s) / s ≡ m) × (n / s ≡ m)
full_turn s m n ps e =
    (div-eq_of_lt-le s (omega arith) (omega arith), div-eq_of_lt-le s (omega arith) (omega arith))

next_track : (s n : ℕ) → 0 < s → (n + 1) % s ≡ 0 → (n + 1 - s) / s ≡ n / s
next_track s n ps h =
    let whole = div-add-mod (n + 1) s in
    let some_turn : 0 < (n + 1) / s = grind (arith, whole) in
    let turns : 1 + ((n + 1) / s - 1) ≡ (n + 1) / s = omega arith in
    let (after, before) = full_turn s ((n + 1) / s - 1) n ps (rw turns (omega (arith, whole))) in
    after ∙ sym before

le_of_multiple : (s n : ℕ) → 0 < s → (n + 1) % s ≡ 0 → s ≤ n + 1
le_of_multiple s n ps h = grind arith

in_disk :
    (n c s m : ℕ) → c < m → s < n → m * (n * 1) < u32_mod → (n * (c + 0) + s) % u32_mod ≡ c * n + s
in_disk n c s m hc hs fits =
    let below : c * n + s < m * n = grind arith in
    let number : n * (c + 0) + s ≡ c * n + s = omega arith in
    rw number (mod-eq_of_lt (omega (arith, below, fits)))

-- On a disk with one head TAKER_turnToSectorNum undoes COMMON_turnToCHS.
pub turn_to_sector_num-turn_to_chs :
    (disk : Disk) (n : ℕ)
    → IsGeometry disk
    → disk.heads ≡ 1
    → n < u32_mod
    → turn_to_sector_num disk (turn_to_chs disk n) ≡ n
unfolding turn_to_sector_num turn_to_chs
turn_to_sector_num-turn_to_chs disk n g one h =
    let track : disk.sectors * disk.heads % u32_mod ≡ disk.sectors =
      rw one (omega (arith, rw one at g.track_fits)) in
    rw track (ap (λ k. k % u32_mod) (one_track disk.sectors n g.some_sectors) ∙ mod-eq_of_lt h)

-- On such a disk an address in range is the one of its sector number.
pub turn_to_chs-cylinder :
    (disk : Disk) (c s : ℕ)
    → IsGeometry disk
    → disk.heads ≡ 1
    → c < disk.cylinders
    → s < disk.sectors
    → (turn_to_chs disk (turn_to_sector_num disk (chs c 0 s))).cylinder ≡ c
unfolding turn_to_sector_num turn_to_chs
turn_to_chs-cylinder disk c s g one hc hs =
    let track : disk.sectors * disk.heads % u32_mod ≡ disk.sectors =
      rw one (omega (arith, rw one at g.track_fits)) in
    let number : (disk.sectors * (c + 0) + s) % u32_mod ≡ c * disk.sectors + s =
      in_disk disk.sectors c s disk.cylinders hc hs (rw one at g.fits) in
    rw (track, number) (div-eq_of_lt-le disk.sectors (omega arith) (omega arith))

-- With more heads it loses the heads of the cylinders in between: every sector of a cylinder other
-- than the first is served at a smaller number than the one asked for.
pub turn_to_sector_num-lossy :
    (disk : Disk) (n : ℕ)
    → IsGeometry disk
    → 1 < disk.heads
    → n < u32_mod
    → disk.sectors * disk.heads ≤ n
    → turn_to_sector_num disk (turn_to_chs disk n) < n
unfolding turn_to_sector_num turn_to_chs
turn_to_sector_num-lossy disk n g more bound beyond =
    let s : ℕ = disk.sectors in
    let q : ℕ = n / (s * disk.heads) in
    let h : ℕ = n % (s * disk.heads) / s in
    let t : ℕ = n % (s * disk.heads) % s in
    let wrap : disk.sectors * disk.heads % u32_mod ≡ s * disk.heads = mod-eq_of_lt g.track_fits in
    let whole : n ≡ s * (disk.heads * q + h) + t =
      split_number s disk.heads n g.some_sectors g.some_heads in
    let full : 0 < q = grind arith in
    let gap : s * q < s * (disk.heads * q) =
      skipped_heads s disk.heads q g.some_sectors more full in
    rw wrap (omega (arith, whole, gap, mod-le (s * (q + h) + t) u32_mod))

-- Below 2 ^ 31, `abs` of the unsigned difference is the distance.
pub abs_diff-eq : (a b : ℕ) → a < 2 ^ 31 → b < 2 ^ 31 → abs_diff a b ≡ (a - b) + (b - a)
unfolding abs_diff
abs_diff-eq a b ha hb = ground arith

one_turn : (s first last : ℕ) → last < first → first < s → (first + (s - (first - last))) % s ≡ last
one_turn s first last h hf =
    let round : first + (s - (first - last)) ≡ last + s = omega arith in rw round (grind arith)

-- TAKER_sectorDist turns forward: from `first` it is the number of sectors that reach `last`.
pub sector_dist-turn :
    (disk : Disk) (first last : ℕ)
    → disk.sectors < u32_mod
    → first < disk.sectors
    → last < disk.sectors
    → ((first + sector_dist disk first last) % disk.sectors ≡ last)
      × (sector_dist disk first last < disk.sectors)
unfolding sector_dist
sector_dist-turn disk first last fits hf hl = elim (Bool-cases (ltb last first)) [
  | inl e ↦
      let back : (disk.sectors + u32_mod - (first - last)) % u32_mod
          ≡ disk.sectors - (first - last) =
        omega (arith, ltb→lt last first e) in
      rw e (
        rw back (one_turn disk.sectors first last (ltb→lt last first e) hf),
        omega (arith, ltb→lt last first e),
      )
  | inr e ↦ rw e (grind arith, omega arith)
]

-- TAKER_updateHPos keeps the head on the track of the sector that was served, one sector further on.
pub update_head_position-turn :
    (disk : Disk) (n : ℕ)
    → 0 < disk.sectors
    → n + 1 < u32_mod
    → (update_head_position disk n / disk.sectors ≡ n / disk.sectors)
      × (update_head_position disk n % disk.sectors ≡ (n + 1) % disk.sectors)
unfolding update_head_position
update_head_position-turn disk n some h =
    elim (Bool-cases ((n + 1) % u32_mod % disk.sectors == 0)) [
      | inl e ↦
          let plain : (n + 1) % u32_mod ≡ n + 1 = mod-eq_of_lt h in
          let multiple : (n + 1) % disk.sectors ≡ 0 = (==_iff _ 0).0 (rw plain at e) in
          let enough = le_of_multiple disk.sectors n some multiple in
          let back : (n + 1 + u32_mod - disk.sectors) % u32_mod ≡ n + 1 - disk.sectors =
            omega arith in
          rw e (
            rw (plain, back) (next_track disk.sectors n some multiple),
            rw (plain, back) (grind arith),
          )
      | inr e ↦
          let plain : (n + 1) % u32_mod ≡ n + 1 = mod-eq_of_lt h in
          rw e (
            rw plain (
                same_track disk.sectors n some
                  (λ z. cc ((==_iff ((n + 1) % u32_mod % disk.sectors) 0).1 (rw plain z)))),
            rw plain,
          )
    ]
