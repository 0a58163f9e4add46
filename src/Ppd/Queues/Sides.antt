-- ===== src/Ppd/Queues/Sides.antt =====
-- Which queue takes requests and which one is served.
use fuselage_fat32_utn.Prelude.{
  ◌≡◌, refl, ◌≢◌, List, [], ◌∷◌, ◌++◌, arith, ap, length, ◌+◌, ◌<◌, length-append,
}
use fuselage_fat32_utn.Prelude.Outcome.{ok}
use fuselage_fat32_utn.Ppd.Taker.{Request}
use fuselage_fat32_utn.Ppd.Queues.{
  waiting, Flag, queue1_active, queue2_active, sstf, MultiQueue, Side, first, second, queue_of,
  set_queue, select_passive_queue, select_active_queue, enqueue,
}

-- The flags as `main` sets them, and as the code leaves them.
pub data HasMode : Flag → Type 0 where
  one_queue : HasMode sstf
  serves_first : HasMode queue1_active
  serves_second : HasMode queue2_active

-- What QMANAGER_selectActiveQueue ensures.
pub record IsServed (mq mq' : MultiQueue) (side : Side) : Type 0 where
  pub same1 : mq'.queue1 ≡ mq.queue1
  pub same2 : mq'.queue2 ≡ mq.queue2
  pub direction : mq'.direction ≡ mq.direction
  pub mode : HasMode mq'.qflag
  pub served : queue_of side mq ≢ []
  pub apart : mq.qflag ≢ sstf → select_passive_queue mq' ≢ side

abbrev Served : MultiQueue → Type 0
Served mq =
    (mq' : MultiQueue) × (side : Side) × (select_active_queue mq ≡ ok (mq', side))
    × IsServed mq mq' side

serve :
    (q1 q2 : List Request) (d : Flag) {flag : Flag}
    → HasMode flag
    → (flag ≡ sstf → q2 ≡ [])
    → 0 < length q1 + length q2
    → Served (record { queue1 = q1; queue2 = q2; qflag = flag; direction = d })
unfolding select_active_queue select_passive_queue
serve [] q2 d one_queue only h = absurd (omega (arith, ap length (only refl)))
serve (x ∷ q1) q2 d one_queue only h = (
  _,
  first,
  refl,
  record {
    same1 = refl;
    same2 = refl;
    direction = refl;
    mode = one_queue;
    served = λ e. cc;
    apart = λ n _. n refl;
  },
)
serve [] [] d serves_first only h = absurd (omega arith)
serve [] (y ∷ q2) d serves_first only h = (
  _,
  second,
  refl,
  record {
    same1 = refl;
    same2 = refl;
    direction = refl;
    mode = serves_second;
    served = λ e. cc;
    apart = λ n e. cc;
  },
)
serve (x ∷ q1) q2 d serves_first only h = (
  _,
  first,
  refl,
  record {
    same1 = refl;
    same2 = refl;
    direction = refl;
    mode = serves_first;
    served = λ e. cc;
    apart = λ n e. cc;
  },
)
serve [] [] d serves_second only h = absurd (omega arith)
serve (x ∷ q1) [] d serves_second only h = (
  _,
  first,
  refl,
  record {
    same1 = refl;
    same2 = refl;
    direction = refl;
    mode = serves_first;
    served = λ e. cc;
    apart = λ n e. cc;
  },
)
serve q1 (y ∷ q2) d serves_second only h = (
  _,
  second,
  refl,
  record {
    same1 = refl;
    same2 = refl;
    direction = refl;
    mode = serves_second;
    served = λ e. cc;
    apart = λ n e. cc;
  },
)

-- If a request waits, the queue that QMANAGER_selectActiveQueue returns is not empty, the queues
-- are unchanged, and with FSCAN new requests go to the other queue from then on.
pub select_active_queue-IsServed :
    (mq : MultiQueue)
    → HasMode mq.qflag
    → (mq.qflag ≡ sstf → mq.queue2 ≡ [])
    → 0 < waiting mq
    → (mq' : MultiQueue) × (side : Side) × (select_active_queue mq ≡ ok (mq', side))
      × IsServed mq mq' side
select_active_queue-IsServed mq m only h = serve mq.queue1 mq.queue2 mq.direction m only h

-- A new request is the last of the passive queue, one more waits, and the other queue is untouched.
pub enqueue-passive :
    (r : Request) (mq : MultiQueue)
    → let side = select_passive_queue mq in
      (queue_of side (enqueue r mq) ≡ queue_of side mq ++ r ∷ [])
      × (waiting (enqueue r mq) ≡ waiting mq + 1)
      × ((other : Side) → other ≢ side → queue_of other (enqueue r mq) ≡ queue_of other mq)
unfolding enqueue
enqueue-passive r mq = by_side (select_passive_queue mq)
  where
    by_side :
        (side : Side)
        → (queue_of side (set_queue side (queue_of side mq ++ r ∷ []) mq)
            ≡ queue_of side mq ++ r ∷ [])
          × (waiting (set_queue side (queue_of side mq ++ r ∷ []) mq) ≡ waiting mq + 1)
          × ((other : Side)
              → other ≢ side
              → queue_of other (set_queue side (queue_of side mq ++ r ∷ []) mq) ≡ queue_of other mq)
    by_side first = (
      refl,
      omega (arith, length-append mq.queue1 (r ∷ [])),
      elim [ first ↦ λ n. absurd (n refl) | second ↦ λ n. refl ],
    )
    by_side second = (
      refl,
      omega (arith, length-append mq.queue2 (r ∷ [])),
      elim [ first ↦ λ n. refl | second ↦ λ n. absurd (n refl) ],
    )
