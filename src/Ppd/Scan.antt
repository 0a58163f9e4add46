-- ===== src/Ppd/Scan.antt =====
-- The two algorithms (PPD/src/ppd_SSTF.c, PPD/src/ppd_FSCAN.c). The globals that they change,
-- `multiQueue->direction` and `TracePosition`, are returned.
pub mod Direction
pub mod Fscan
use fuselage_fat32_utn.Prelude.{
  ℕ, ◌+◌, ◌-◌, ◌*◌, ◌%◌, ◌≡◌, Bool, true, false, Option, none, some, List, u32_mod, if◌then◌else◌,
  ltb,
}
use fuselage_fat32_utn.Prelude.Outcome.{Outcome, ok, ◌>>=◌}
use fuselage_fat32_utn.Ppd.Geometry.{
  Chs, chs, Disk, abs_diff, turn_to_chs, turn_to_sector_num, reached_sector, distance_time,
}
use fuselage_fat32_utn.Ppd.Taker.{Request, get_next_node}
use fuselage_fat32_utn.Ppd.Queues.{Flag, up, select_condition, toggle_direction}

-- What a search returns: the delay, `*prevCandidate`, the direction and `TracePosition`.
pub record Search : Type 0 where
  pub delay : ℕ
  pub prev : Option ℕ
  pub direction : Flag
  pub trace_position : ℕ

-- FSCAN_moveToCylinder: the delay and the new `TracePosition`
unfoldable pub move_to_cylinder : Disk → ℕ → (trace_position : ℕ) → Outcome (ℕ × ℕ)
unfolding turn_to_chs abs_diff reached_sector turn_to_sector_num
move_to_cylinder disk cylinder trace_position = do
  let from = turn_to_chs disk trace_position
  reached ← reached_sector disk cylinder from
  ok (
    abs_diff from.cylinder cylinder * disk.track_jump_time % u32_mod,
    turn_to_sector_num disk (chs cylinder from.head reached),
  )

abbrev pub edge : Disk → Flag → ℕ
edge disk up = (disk.cylinders + u32_mod - 1) % u32_mod
edge disk _ = 0

-- FSCAN_moveHeadPos
unfoldable pub move_head_position : Disk → Flag → (trace_position : ℕ) → Outcome (ℕ × ℕ)
unfolding move_to_cylinder
move_head_position disk direction trace_position =
    move_to_cylinder disk (edge disk direction) trace_position

-- The branch of FSCAN_getNext for a direction with nothing to serve: to the edge, and back.
unfoldable pub turn_around :
    Disk → List Request → (direction : Flag) (trace_position : ℕ) → Option ℕ → Outcome Search
unfolding move_head_position toggle_direction select_condition get_next_node
turn_around disk queue direction trace_position prev = do
  (delay, trace) ← move_head_position disk direction trace_position
  let back = toggle_direction direction
  condition ← select_condition back
  (prev, _) ← get_next_node disk queue trace prev condition
  ok (record { delay = delay; prev = prev; direction = back; trace_position = trace })

-- FSCAN_getNext
unfoldable pub fscan_get_next :
    Disk → List Request → (direction : Flag) (trace_position initial_position : ℕ) → Outcome Search
unfolding select_condition get_next_node turn_around
fscan_get_next disk queue direction trace_position initial_position = do
  condition ← select_condition direction
  (prev, found) ← get_next_node disk queue initial_position none condition
  if found
      then ok (record {
        delay = 0;
        prev = prev;
        direction = direction;
        trace_position = trace_position;
      })
      else turn_around disk queue direction trace_position prev

-- SSTF_getNext
unfoldable pub sstf_get_next :
    Disk → List Request → (direction : Flag) (trace_position initial_position : ℕ) → Outcome Search
unfolding select_condition get_next_node
sstf_get_next disk queue direction trace_position initial_position = do
  condition ← select_condition direction
  (prev, _) ← get_next_node disk queue initial_position none condition
  ok (record { delay = 0; prev = prev; direction = direction; trace_position = trace_position })

-- SSTF_near
unfoldable pub sstf_near : Disk → (trace_position : ℕ) → Chs → Chs → Outcome Bool
unfolding distance_time
sstf_near disk trace_position new head = do
  a ← distance_time disk trace_position new
  b ← distance_time disk trace_position head
  ok (ltb a b)
