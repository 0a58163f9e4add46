-- ===== src/Ppd/Tests.antt =====
-- The disk process on a disk of two cylinders with two sectors each, and on one with two heads.
mod Service
use fuselage_fat32_utn.Prelude.{
  ℕ, ◌+◌, ◌%◌, ◌/◌, ◌≢◌, ◌<◌, ◌≤◌, ◌≡◌, refl, true, false, ◌⊎◌, Option, none, some, List, [], ◌∷◌,
  ◌++◌, arith, All, length,
}
use fuselage_fat32_utn.Prelude.Outcome.{ok, ◌>>=◌}
use fuselage_fat32_utn.Ppd.Geometry.{
  chs, Disk, turn_to_chs, turn_to_sector_num, sector_dist, update_head_position,
}
use fuselage_fat32_utn.Ppd.Geometry.Addresses.{
  IsGeometry, turn_to_sector_num-turn_to_chs, turn_to_sector_num-lossy, sector_dist-turn,
  update_head_position-turn,
}
use fuselage_fat32_utn.Ppd.Taker.{
  read_sectors, Request, candidate, get_next_node, take_candidate, less_than, greater_than,
}
use fuselage_fat32_utn.Ppd.Taker.Nearest.{NoWorse, get_next_node-nearest}
use fuselage_fat32_utn.Ppd.Taker.Removal.{Split, take_candidate-Split}
use fuselage_fat32_utn.Ppd.Queues.{
  queue1_active, up, down, MultiQueue, waiting, Side, first, second, queue_of, select_active_queue,
  select_passive_queue, enqueue,
}
use fuselage_fat32_utn.Ppd.Queues.Sides.{
  serves_first, IsServed, select_active_queue-IsServed, enqueue-passive,
}
use fuselage_fat32_utn.Ppd.Scan.{Search, fscan_get_next}
use fuselage_fat32_utn.Ppd.Scan.Direction.{IsMovable, upward, Ahead, Behind}
use fuselage_fat32_utn.Ppd.Scan.Fscan.{fscan_get_next_lem}
use fuselage_fat32_utn.Ppd.Translate.{from_char_to_request, from_request_to_char}
use fuselage_fat32_utn.Ppd.Translate.Framing.{write_request, request-char}

abbrev pub disk : Disk
disk = record { cylinders = 2; heads = 1; sectors = 2; track_jump_time = 3; sector_jump_time = 1 }

disk-IsGeometry : IsGeometry disk
disk-IsGeometry = record {
  some_sectors = omega arith;
  some_heads = omega arith;
  fits = omega arith;
  track_fits = omega arith;
}

pub disk-IsMovable : IsMovable disk
disk-IsMovable = record {
  geometry = disk-IsGeometry;
  one_head = refl;
  some_cylinders = omega arith;
  jumps = omega arith;
  few = omega arith;
}

abbrev two_heads : Disk
two_heads = record disk { heads = 2 }

two_heads-IsGeometry : IsGeometry two_heads
two_heads-IsGeometry = record {
  some_sectors = omega arith;
  some_heads = omega arith;
  fits = omega arith;
  track_fits = omega arith;
}

abbrev read_at : (id cylinder sector : ℕ) → Request
read_at id cylinder sector = record {
  type = read_sectors;
  id = id;
  address = chs cylinder 0 sector;
  len = 0;
  sender = 7;
  payload = none;
}

abbrev near_one : Request
near_one = read_at 1 0 1

abbrev far_one : Request
far_one = read_at 2 1 0

turn_to_sector_num-lossy_example : turn_to_sector_num two_heads (turn_to_chs two_heads 6) < 6
turn_to_sector_num-lossy_example =
    turn_to_sector_num-lossy two_heads 6 two_heads-IsGeometry (omega arith) (omega arith)
      (omega arith)

get_next_node-nearest_example :
    (prev : Option ℕ) × (best : Request) × (get_next_node disk
        (near_one ∷ far_one ∷ [])
        2
        none
        greater_than
      ≡ ok (prev, greater_than best.address (turn_to_chs disk 2)))
    × (candidate (near_one ∷ far_one ∷ []) prev ≡ some best)
    × All (NoWorse (turn_to_chs disk 2) greater_than best) (near_one ∷ far_one ∷ [])
    × (greater_than best.address (turn_to_chs disk 2) ≡ false → prev ≡ none)
get_next_node-nearest_example = get_next_node-nearest disk near_one (far_one ∷ []) 2 greater_than

fscan_get_next-example :
    (s : Search) × (best : Request) × (fscan_get_next disk (near_one ∷ []) up 2 2 ≡ ok s)
    × (candidate (near_one ∷ []) s.prev ≡ some best)
    × (((s.direction ≡ up) × Ahead (near_one ∷ []) greater_than (turn_to_chs disk 2) best)
        ⊎ ((s.direction ≡ down)
            × Behind disk
                (near_one ∷ [])
                greater_than
                (turn_to_chs disk 2)
                1
                s.trace_position
                best))
fscan_get_next-example =
    fscan_get_next_lem disk disk-IsMovable near_one [] 2 2 upward (omega arith, tt)

abbrev queues : MultiQueue
queues = record { queue1 = []; queue2 = near_one ∷ []; qflag = queue1_active; direction = up }

request-char_example :
    (do
      msg ← from_request_to_char disk (write_request disk 9 3 4 (10 ∷ 20 ∷ []))
      from_char_to_request disk msg 4)
    ≡ ok (write_request disk 9 3 4 (10 ∷ 20 ∷ []))
request-char_example =
    request-char disk 9 3 4 (10 ∷ 20 ∷ []) disk-IsGeometry refl (omega arith) (omega arith)
      (omega arith)
