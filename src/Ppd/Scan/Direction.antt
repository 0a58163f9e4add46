-- ===== src/Ppd/Scan/Direction.antt =====
-- What FSCAN serves: a request ahead of the head, or else, after the way to the edge and back, one
-- of the other direction.
use fuselage_fat32_utn.Prelude.{
  ℕ, ◌+◌, ◌-◌, ◌*◌, ◌/◌, ◌%◌, ◌^◌, ◌<◌, ◌≤◌, ◌≡◌, refl, true, false, some, List, ◌∷◌, arith, sym,
  All, All-mono, u32_mod, inl, inr, Bool-cases, ◌==◌, subst,
}
use native.Mathlib.Nat.{div-eq_of_lt}
use fuselage_fat32_utn.Prelude.Outcome.{ok}
use fuselage_fat32_utn.Ppd.Geometry.{
  Chs, chs, Disk, turn_to_chs, abs_diff, reached_sector, turn_to_sector_num,
}
use fuselage_fat32_utn.Ppd.Geometry.Addresses.{IsGeometry, turn_to_chs-cylinder}
use fuselage_fat32_utn.Ppd.Taker.{Request, Condition, candidate, less_than, greater_than}
use fuselage_fat32_utn.Ppd.Taker.Nearest.{NoWorse, distance, get_next_node-nearest}
use fuselage_fat32_utn.Ppd.Queues.{Flag, up, down, sstf, select_condition}
use fuselage_fat32_utn.Ppd.Scan.{Search, sstf_get_next, move_to_cylinder}

-- SSTF serves a request on a cylinder that is as near to the head as any.
pub sstf_get_next-nearest :
    (disk : Disk) (first : Request) (rest : List Request) (trace head_position : ℕ)
    → (s : Search) × (best : Request) × (sstf_get_next disk (first ∷ rest) sstf trace head_position
        ≡ ok s)
      × (candidate (first ∷ rest) s.prev ≡ some best)
      × All
          (λ r.
            distance (turn_to_chs disk head_position) best
            ≤ distance (turn_to_chs disk head_position) r)
          (first ∷ rest)
unfolding sstf_get_next select_condition
sstf_get_next-nearest disk first rest trace head_position =
    let (prev, best, runs, stands, no_worse, _) =
      get_next_node-nearest disk first rest head_position (λ a b. true) in
    (
      record { delay = 0; prev = prev; direction = sstf; trace_position = trace },
      best,
      rw runs,
      stands,
      All-mono (λ r k. (k refl).1) (first ∷ rest) no_worse,
    )

low_quotient : (m n : ℕ) → 0 < m → n % m / m ≡ 0
low_quotient m n h = div-eq_of_lt (omega arith)

-- A one-head disk on which the head can move.
pub record IsMovable (disk : Disk) : Type 0 where
  pub geometry : IsGeometry disk
  pub one_head : disk.heads ≡ 1
  pub some_cylinders : 0 < disk.cylinders
  pub jumps : 0 < disk.sector_jump_time
  pub few : disk.cylinders < 2 ^ 31

module _ (disk : Disk) (v : IsMovable disk) where
  from_head : (n : ℕ) → (turn_to_chs disk n).head ≡ 0
  unfolding turn_to_chs
  from_head n =
      let track : disk.sectors * disk.heads % u32_mod ≡ disk.sectors =
        rw v.one_head (omega (arith, rw v.one_head at v.geometry.track_fits)) in
      rw track (low_quotient disk.sectors n v.geometry.some_sectors)

  pub from_sector : (n : ℕ) → (turn_to_chs disk n).sector < disk.sectors
  unfolding turn_to_chs
  from_sector n = omega (arith, v.geometry.some_sectors)

  pub reached_sector-lt :
      (c : ℕ) (from : Chs)
      → from.sector < disk.sectors
      → (s : ℕ) × (reached_sector disk c from ≡ ok s) × (s < disk.sectors)
  unfolding reached_sector
  reached_sector-lt c from h = elim (Bool-cases (abs_diff c from.cylinder == 0)) [
    | inl e ↦ (from.sector, rw e, h)
    | inr e ↦
        let jumps : (disk.sector_jump_time == 0) ≡ false = ground (arith, v.jumps) in
        let per_track : ℕ =
          ((disk.track_jump_time + u32_mod - 1) % u32_mod / disk.sector_jump_time + 1) % u32_mod in
        let turned : ℕ = abs_diff c from.cylinder * per_track % u32_mod % disk.sectors in
        (
          (turned + from.sector) % u32_mod % disk.sectors,
          rw (e, jumps),
          omega (arith, v.geometry.some_sectors),
        )
  ]

  pub move_to_cylinder-lands :
      (c trace : ℕ)
      → c < disk.cylinders
      → (delay : ℕ) × (t : ℕ) × (move_to_cylinder disk c trace ≡ ok (delay, t))
        × ((turn_to_chs disk t).cylinder ≡ c)
  unfolding move_to_cylinder
  move_to_cylinder-lands c trace h =
      let (s, e, hs) = reached_sector-lt c (turn_to_chs disk trace) (from_sector trace) in
      (
        abs_diff (turn_to_chs disk trace).cylinder c * disk.track_jump_time % u32_mod,
        turn_to_sector_num disk (chs c (turn_to_chs disk trace).head s),
        rw e,
        subst (λ k. (turn_to_chs disk (turn_to_sector_num disk (chs c k s))).cylinder ≡ c)
            (sym (from_head trace)) (turn_to_chs-cylinder disk c s v.geometry v.one_head h hs),
      )

-- A direction in which the head moves, its condition, the other direction and its condition.
pub data Heading (disk : Disk) : Flag → Condition → Flag → Condition → ℕ → Type 0 where
  upward : Heading disk up greater_than down less_than (disk.cylinders - 1)
  downward : Heading disk down less_than up greater_than 0

-- A request ahead was chosen, and it is on the nearest cylinder ahead.
abbrev pub Ahead : List Request → Condition → Chs → Request → Type 0
Ahead queue condition head best =
    (condition best.address head ≡ true)
    × All (λ r. condition r.address head ≡ true → distance head best ≤ distance head r) queue

-- Nothing was ahead, the head has gone to cylinder `c`, and the choice is nearest to it there.
abbrev pub Behind : Disk → List Request → Condition → Chs → ℕ → ℕ → Request → Type 0
Behind disk queue condition head c trace best =
    ((turn_to_chs disk trace).cylinder ≡ c)
    × All (λ r. condition r.address head ≡ false) queue
    × All (λ r. distance (turn_to_chs disk trace) best ≤ distance (turn_to_chs disk trace) r) queue

pub none_ahead :
    (condition : Condition) (head : Chs) (best : Request) (queue : List Request)
    → condition best.address head ≡ false
    → All (NoWorse head condition best) queue
    → All (λ r. condition r.address head ≡ false) queue
none_ahead condition head best queue e =
    All-mono
      (λ r k. elim (Bool-cases (condition r.address head)) [
        | inl t ↦ absurd (cc (k t).0)
        | inr f ↦ f
      ])
      queue
