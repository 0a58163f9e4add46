-- ===== src/Ppd/Queues.antt =====
-- The two request queues and which of them is served (PPD/src/ppd_qManager.c). With FSCAN one queue
-- is served while new requests go to the other; with SSTF there is one queue.
pub mod Sides
use fuselage_fat32_utn.Prelude.{
  ℕ, ◌≡◌, Bool, true, false, Option, none, some, List, [], ◌∷◌, ◌++◌, length, ◌+◌,
}
use fuselage_fat32_utn.Prelude.Outcome.{Outcome, ok, fault, ◌>>=◌}
use fuselage_fat32_utn.Ppd.Taker.{Request, Condition, identity, less_than, greater_than}

-- flag_t
pub data Flag : Type 0 where
  queue1_active queue2_active sstf fscan up down : Flag

pub record MultiQueue : Type 0 where
  pub queue1 : List Request
  pub queue2 : List Request
  pub qflag : Flag
  pub direction : Flag

-- A pointer to one of the two queues.
pub data Side : Type 0 where
  first second : Side

abbrev pub queue_of : Side → MultiQueue → List Request
queue_of first mq = mq.queue1
queue_of second mq = mq.queue2

abbrev pub set_queue : Side → List Request → MultiQueue → MultiQueue
set_queue first q mq = record mq { queue1 = q }
set_queue second q mq = record mq { queue2 = q }

-- How many requests wait.
abbrev pub waiting : MultiQueue → ℕ
waiting mq = length mq.queue1 + length mq.queue2

-- QMANAGER_selectPassiveQueue
abbrev passive_of : Flag → Side
passive_of queue2_active = first
passive_of sstf = first
passive_of _ = second

unfoldable pub select_passive_queue : MultiQueue → Side
select_passive_queue mq = passive_of mq.qflag

-- QMANAGER_toggleQFlag
abbrev toggled : Flag → Flag
toggled queue1_active = queue2_active
toggled _ = queue1_active

unfoldable pub toggle_qflag : Flag → List Request → Flag × Bool
toggle_qflag flag [] = (toggled flag, true)
toggle_qflag flag (_ ∷ _) = (flag, false)

abbrev pub after_toggle : MultiQueue → Side → Side → Flag × Bool → MultiQueue × Side
after_toggle mq here there (flag, true) = (record mq { qflag = flag }, there)
after_toggle mq here there (flag, false) = (record mq { qflag = flag }, here)

abbrev pub active_of : Flag → MultiQueue → Outcome (MultiQueue × Side)
active_of sstf mq = ok (mq, first)
active_of queue1_active mq = ok (after_toggle mq first second (toggle_qflag mq.qflag mq.queue1))
active_of queue2_active mq = ok (after_toggle mq second first (toggle_qflag mq.qflag mq.queue2))
active_of _ mq = fault

-- QMANAGER_selectActiveQueue: with any other flag it returns nothing, and its result is garbage.
unfoldable pub select_active_queue : MultiQueue → Outcome (MultiQueue × Side)
unfolding toggle_qflag
select_active_queue mq = active_of mq.qflag mq

-- QMANAGER_selectCondition
unfoldable pub select_condition : Flag → Outcome Condition
select_condition up = ok greater_than
select_condition down = ok less_than
select_condition sstf = ok identity
select_condition _ = fault

-- QMANAGER_toggleDirection
unfoldable pub toggle_direction : Flag → Flag
toggle_direction up = down
toggle_direction _ = up

-- The default case of COMM_handleReceive: the request goes to the passive queue.
unfoldable pub enqueue : Request → MultiQueue → MultiQueue
unfolding select_passive_queue
enqueue r mq = let side = select_passive_queue mq in set_queue side (queue_of side mq ++ r ∷ []) mq
