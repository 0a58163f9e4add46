-- ===== src/Ppd/Service/Rounds.antt =====
-- A round of TAKER_main serves one of the requests that wait, whatever the algorithm.
use fuselage_fat32_utn.Prelude.{
  ℕ, ◌+◌, ◌*◌, ◌%◌, ◌<◌, ◌≤◌, ◌≡◌, refl, sym, subst, arith, false, ◌⊎◌, inl, inr, Option, some,
  List, [], ◌∷◌, ◌++◌, length, take, drop, u32_mod, bytes32, All,
}
use fuselage_fat32_utn.Prelude.Outcome.{ok}
use fuselage_fat32_utn.Ppd.Geometry.{
  Chs, Disk, turn_to_chs, turn_to_sector_num, distance_time, sect_reached_distance, abs_diff,
  sector_dist,
}
use fuselage_fat32_utn.Ppd.Taker.{
  read_sectors, write_sectors, Request, Condition, identity, candidate, take_request,
}
use fuselage_fat32_utn.Ppd.Taker.Nearest.{get_next_node-nearest}
use fuselage_fat32_utn.Ppd.Taker.Removal.{take_candidate-Split}
use fuselage_fat32_utn.Ppd.Queues.{
  Flag, sstf, fscan, up, down, queue1_active, queue2_active, MultiQueue, Side, first, second,
  queue_of, select_active_queue, select_condition,
}
use fuselage_fat32_utn.Ppd.Scan.{Search, sstf_get_next}
use fuselage_fat32_utn.Ppd.Scan.Direction.{
  IsMovable, Heading, upward, downward, from_sector, reached_sector-lt,
}
use fuselage_fat32_utn.Ppd.Scan.Fscan.{fscan_get_next_lem}
use fuselage_fat32_utn.Ppd.Io.{offset}
use fuselage_fat32_utn.Ppd.Service.{Ppd, get_next, handle_request}
use fuselage_fat32_utn.Ppd.Service.Answers.{handle_request-read, handle_request-write}

-- The flags under each algorithm, as `main` sets them and the code changes them.
pub data Mode : (algorithm qflag direction : Flag) → Type 0 where
  one_queue : Mode sstf sstf sstf
  first_up : Mode fscan queue1_active up
  first_down : Mode fscan queue1_active down
  second_up : Mode fscan queue2_active up
  second_down : Mode fscan queue2_active down

abbrev pub queues_of : List Request → List Request → Flag → Flag → MultiQueue
queues_of q1 q2 flag d = record { queue1 = q1; queue2 = q2; qflag = flag; direction = d }

-- What the selection of a queue does when a request waits.
abbrev pub Selected : List Request → List Request → Flag → Flag → Flag → Type 0
Selected q1 q2 algorithm flag d =
    (flag' : Flag) × (side : Side) × (r : Request) × (rest : List Request) × (select_active_queue
        (queues_of q1 q2 flag d)
      ≡ ok (queues_of q1 q2 flag' d, side))
    × Mode algorithm flag' d
    × (queue_of side (queues_of q1 q2 flag' d) ≡ r ∷ rest)

pub select :
    {algorithm flag d : Flag} (q1 q2 : List Request)
    → Mode algorithm flag d
    → (algorithm ≡ sstf → q2 ≡ [])
    → 0 < length q1 + length q2
    → Selected q1 q2 algorithm flag d
unfolding select_active_queue
select (r ∷ q1) q2 one_queue alone h = (sstf, first, r, q1, refl, one_queue, refl)
select [] [] one_queue alone h = absurd (omega arith)
select [] (r ∷ q2) one_queue alone h = absurd (cc (alone refl))
select (r ∷ q1) q2 first_up alone h = (queue1_active, first, r, q1, refl, first_up, refl)
select [] (r ∷ q2) first_up alone h = (queue2_active, second, r, q2, refl, second_up, refl)
select [] [] first_up alone h = absurd (omega arith)
select (r ∷ q1) q2 first_down alone h = (queue1_active, first, r, q1, refl, first_down, refl)
select [] (r ∷ q2) first_down alone h = (queue2_active, second, r, q2, refl, second_down, refl)
select [] [] first_down alone h = absurd (omega arith)
select q1 (r ∷ q2) second_up alone h = (queue2_active, second, r, q2, refl, second_up, refl)
select (r ∷ q1) [] second_up alone h = (queue1_active, first, r, q1, refl, first_up, refl)
select [] [] second_up alone h = absurd (omega arith)
select q1 (r ∷ q2) second_down alone h = (queue2_active, second, r, q2, refl, second_down, refl)
select (r ∷ q1) [] second_down alone h = (queue1_active, first, r, q1, refl, first_down, refl)
select [] [] second_down alone h = absurd (omega arith)

module _ (disk : Disk) (v : IsMovable disk) where
  -- Each algorithm finds a request, and the direction that it leaves is one of its own.
  abbrev pub Found : (algorithm flag d : Flag) → List Request → (trace initial : ℕ) → Type 0
  Found algorithm flag d queue trace initial =
      (s : Search) × (best : Request) × (get_next algorithm disk queue d trace initial ≡ ok s)
      × Mode algorithm flag s.direction
      × (candidate queue s.prev ≡ some best)

  heading_search :
      {flag d d' : Flag} (found : Flag)
      → (found ≡ d) ⊎ (found ≡ d')
      → Mode fscan flag d
      → Mode fscan flag d'
      → Mode fscan flag found
  heading_search {flag} found (inl e) m m' = subst (λ d. Mode fscan flag d) (sym e) m
  heading_search {flag} found (inr e) m m' = subst (λ d. Mode fscan flag d) (sym e) m'

  fscan-Found :
      {flag d d' : Flag} {c c' : Condition} {e : ℕ} (r : Request) (rest : List Request)
      (trace initial : ℕ)
      → Heading disk d c d' c' e
      → Mode fscan flag d
      → Mode fscan flag d'
      → All (λ q. q.address.cylinder < disk.cylinders) (r ∷ rest)
      → Found fscan flag d (r ∷ rest) trace initial
  fscan-Found r rest trace initial heading m m' all =
      let (s, best, runs, stands, way) =
        fscan_get_next_lem disk v r rest trace initial heading all in
      (s, best, runs, heading_search s.direction (which way) m m', stands)
    where
      which : {A B C D : Type 0} → (A × B) ⊎ (C × D) → A ⊎ C
      which (inl (a, b)) = inl a
      which (inr (c, d)) = inr c

  pub search_next :
      {algorithm flag d : Flag} (r : Request) (rest : List Request) (trace initial : ℕ)
      → Mode algorithm flag d
      → All (λ q. q.address.cylinder < disk.cylinders) (r ∷ rest)
      → Found algorithm flag d (r ∷ rest) trace initial
  unfolding sstf_get_next select_condition
  search_next r rest trace initial one_queue all =
      let (prev, best, runs, stands, _, _) = get_next_node-nearest disk r rest initial identity in
      (
        record { delay = 0; prev = prev; direction = sstf; trace_position = trace },
        best,
        rw runs,
        one_queue,
        stands,
      )
  search_next r rest trace initial first_up all =
      fscan-Found r rest trace initial upward first_up first_down all
  search_next r rest trace initial first_down all =
      fscan-Found r rest trace initial downward first_down first_up all
  search_next r rest trace initial second_up all =
      fscan-Found r rest trace initial upward second_up second_down all
  search_next r rest trace initial second_down all =
      fscan-Found r rest trace initial downward second_down second_up all

  distance_time-total :
      (trace : ℕ) (address : Chs) → (t : ℕ) × (distance_time disk trace address ≡ ok t)
  unfolding distance_time sect_reached_distance
  distance_time-total trace address =
      let from = turn_to_chs disk trace in
      let (s, e, _) = reached_sector-lt disk v address.cylinder from (from_sector disk v trace) in
      (
        (abs_diff from.cylinder address.cylinder * disk.track_jump_time % u32_mod
              + sector_dist disk s address.sector * disk.sector_jump_time % u32_mod)
            % u32_mod,
        rw e,
      )

  pub take_request-Split :
      (trace delay : ℕ) (queue : List Request) (prev : Option ℕ) (r : Request)
      → candidate queue prev ≡ some r
      → (before : List Request) × (after : List Request) × (delay' : ℕ) × (queue
          ≡ before ++ r ∷ after)
        × (take_request disk trace queue prev delay ≡ ok (r, before ++ after, delay'))
  unfolding take_request
  take_request-Split trace delay queue prev r stands =
      let (before, after, place, taken) = take_candidate-Split queue prev r stands in
      let (way, e) = distance_time-total trace r.address in
      (before, after, (delay + way) % u32_mod, place, rw (taken, e))

-- A request that can be served: on the disk, and a read or a write of a whole sector.
pub record IsWrite (r : Request) : Type 0 where
  pub bytes : List ℕ
  pub type : r.type ≡ write_sectors
  pub content : r.payload ≡ some bytes
  pub len : r.len ≡ length bytes
  pub long : 512 ≤ length bytes

pub record IsServable (disk : Disk) (size : ℕ) (r : Request) : Type 0 where
  pub on_disk : r.address.cylinder < disk.cylinders
  pub inside : offset (turn_to_sector_num disk r.address) + 512 ≤ size
  pub served : (r.type ≡ read_sectors) ⊎ IsWrite r

-- What a request's service leaves as it was, and the request that it answers.
abbrev pub Handled : Ppd → Request → ℕ → Type 0
Handled p r delay =
    (p' : Ppd) × (msg : List ℕ) × (handle_request r delay p ≡ ok (p', msg))
    × (p'.queues ≡ p.queues)
    × (p'.disk ≡ p.disk)
    × (p'.algorithm ≡ p.algorithm)
    × (p'.info ≡ false)
    × (length p'.image.map ≡ length p.image.map)
    × (take 4 (drop 3 msg) ≡ bytes32 r.id)

pub handle-Handled :
    (p : Ppd) (r : Request) (delay : ℕ)
    → p.info ≡ false
    → IsServable p.disk (length p.image.map) r
    → Handled p r delay
handle-Handled p r delay quiet s = by_type s.served
  where
    by_type : (r.type ≡ read_sectors) ⊎ IsWrite r → Handled p r delay
    by_type (inl ty) =
        (_, _, handle_request-read p r delay quiet ty s.inside, refl, refl, refl, quiet, refl, refl)
    by_type (inr w) =
        let (image', _, size, runs) =
          handle_request-write p r delay quiet w.bytes w.type w.content w.len w.long s.inside in
        (_, _, runs, refl, refl, refl, quiet, size, refl)
