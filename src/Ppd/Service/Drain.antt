-- ===== src/Ppd/Service/Drain.antt =====
-- Every request that waits is answered: a round serves one, and as many rounds as there are requests
-- empty the queues.
use mathlib.Core.List.{Perm, perm_middle}
use fuselage_fat32_utn.Prelude.{
  ℕ, ◌+◌, ◌<◌, ◌≡◌, refl, sym, ap, subst, ◌∙◌, arith, false, List, [], ◌∷◌, ◌++◌, length, take,
  drop, bytes32, All, All-mono, length-append, append_assoc,
}
use fuselage_fat32_utn.Prelude.Outcome.{ok}
use fuselage_fat32_utn.Ppd.Taker.{Request, take_request}
use fuselage_fat32_utn.Ppd.Queues.{
  waiting, Flag, sstf, MultiQueue, Side, first, second, queue_of, set_queue, select_active_queue,
}
use fuselage_fat32_utn.Ppd.Scan.{Search}
use fuselage_fat32_utn.Ppd.Scan.Direction.{IsMovable}
use fuselage_fat32_utn.Ppd.Service.{Ppd, get_next, handle_request, taker_round, Reply}
use fuselage_fat32_utn.Ppd.Service.Rounds.{
  Mode, queues_of, select, search_next, take_request-Split, IsServable, handle-Handled,
}

abbrev pub pending : Ppd → List Request
pending p = p.queues.queue1 ++ p.queues.queue2

-- A disk on which the head can move, whose log takes no entries, with requests that can be served.
pub record IsRunning (p : Ppd) : Type 0 where
  pub movable : IsMovable p.disk
  pub quiet : p.info ≡ false
  pub mode : Mode p.algorithm p.queues.qflag p.queues.direction
  pub alone : p.algorithm ≡ sstf → p.queues.queue2 ≡ []
  pub servable : All (IsServable p.disk (length p.image.map)) (pending p)

-- What a round has done: one request is gone and answered, with its number, to its sender.
abbrev pub Progress : Ppd → Type 0
Progress p =
    (p' : Ppd) × (reply : Reply) × (r : Request) × (taker_round p ≡ ok (p', reply))
    × IsRunning p'
    × Perm (pending p) (r ∷ pending p')
    × (waiting p.queues ≡ waiting p'.queues + 1)
    × (reply.to ≡ r.sender)
    × (take 4 (drop 3 reply.bytes) ≡ bytes32 r.id)

All-first : (P : Request → Type 0) (xs ys : List Request) → All P (xs ++ ys) → All P xs
All-first P [] ys h = tt
All-first P (x ∷ xs) ys h = (h.0, All-first P xs ys h.1)

All-second : (P : Request → Type 0) (xs ys : List Request) → All P (xs ++ ys) → All P ys
All-second P [] ys h = h
All-second P (x ∷ xs) ys h = All-second P xs ys h.1

All-without :
    (P : Request → Type 0) (before : List Request) (r : Request) (after : List Request)
    → All P (before ++ r ∷ after)
    → P r × All P (before ++ after)
All-without P [] r after h = h
All-without P (x ∷ before) r after h =
    let (here, rest) = All-without P before r after h.1 in (here, (h.0, rest))

-- The queues with one request taken out of one of them.
record Taken (q1 q2 : List Request) (r : Request) (mq : MultiQueue) : Type 0 where
  before : List Request
  after : List Request
  place : q1 ++ q2 ≡ before ++ r ∷ after
  left : mq.queue1 ++ mq.queue2 ≡ before ++ after
  one : length q1 + length q2 ≡ length mq.queue1 + length mq.queue2 + 1
  empty : q2 ≡ [] → mq.queue2 ≡ []

one_less :
    (q before after : List Request) (r : Request)
    → q ≡ before ++ r ∷ after
    → length q ≡ length (before ++ after) + 1
one_less q before after r e =
    omega (arith, ap length e, length-append before (r ∷ after), length-append before after)

taken :
    (side : Side) (q1 q2 : List Request) (flag d d' : Flag) (before after : List Request)
    (r : Request)
    → queue_of side (queues_of q1 q2 flag d) ≡ before ++ r ∷ after
    → Taken q1 q2 r (set_queue side (before ++ after) (queues_of q1 q2 flag d'))
taken first q1 q2 flag d d' before after r e = record {
  before = before;
  after = after ++ q2;
  place = ap (λ q. q ++ q2) e ∙ append_assoc before (r ∷ after) q2;
  left = append_assoc before after q2;
  one = omega (arith, one_less q1 before after r e);
  empty = λ h. h;
}
taken second q1 q2 flag d d' before after r e = record {
  before = q1 ++ before;
  after = after;
  place = ap (λ q. q1 ++ q) e ∙ sym (append_assoc q1 before (r ∷ after));
  left = sym (append_assoc q1 before after);
  one = omega (arith, one_less q2 before after r e);
  empty = λ h. absurd (omega (arith, ap length h, one_less q2 before after r e));
}

-- The state in which TAKER_handleRequest starts.
abbrev started : Ppd → MultiQueue → Search → Side → List Request → Ppd
started p mq s side left = record p {
  queues = set_queue side left (record mq { direction = s.direction });
  trace_position = s.trace_position;
}

-- A permutation that stands for the request that a round takes out.
Taken-Perm :
    {q1 q2 : List Request} {r : Request} {mq : MultiQueue}
    → Taken q1 q2 r mq
    → Perm (q1 ++ q2) (r ∷ mq.queue1 ++ mq.queue2)
Taken-Perm {q1} {q2} {r} {mq} t =
    subst (λ xs. Perm xs (r ∷ mq.queue1 ++ mq.queue2)) (sym t.place)
      (subst (λ xs. Perm (t.before ++ r ∷ t.after) (r ∷ xs)) (sym t.left)
        (perm_middle t.before t.after))

-- The disk runs on when a request has been taken out and served.
runs_on :
    {p p' : Ppd} {mq : MultiQueue} {r : Request}
    → IsRunning p
    → Taken p.queues.queue1 p.queues.queue2 r mq
    → Mode p.algorithm mq.qflag mq.direction
    → p'.queues ≡ mq
    → p'.disk ≡ p.disk
    → p'.algorithm ≡ p.algorithm
    → p'.info ≡ false
    → length p'.image.map ≡ length p.image.map
    → IsRunning p'
runs_on {p} {p'} {mq} {r} v t mode queues disk algorithm quiet size =
    let all =
      All-without (IsServable p.disk (length p.image.map)) t.before r t.after
        (subst (All (IsServable p.disk (length p.image.map))) t.place v.servable) in
    record {
      movable = subst IsMovable (sym disk) v.movable;
      quiet = quiet;
      mode = rw (algorithm, queues) mode;
      alone = λ e. ap (λ q. q.queue2) queues ∙ t.empty (v.alone (sym algorithm ∙ e));
      servable = rw (disk, size, queues, t.left) all.1;
    }

of_side :
    (P : Request → Type 0) (side : Side) (q1 q2 : List Request) (flag d : Flag)
    → All P (q1 ++ q2)
    → All P (queue_of side (queues_of q1 q2 flag d))
of_side P first q1 q2 flag d all = All-first P q1 q2 all
of_side P second q1 q2 flag d all = All-second P q1 q2 all

set_queue-Mode :
    {algorithm flag d : Flag} (side : Side) (left q1 q2 : List Request)
    → Mode algorithm flag d
    → let mq = set_queue side left (queues_of q1 q2 flag d) in Mode algorithm mq.qflag mq.direction
set_queue-Mode first left q1 q2 m = m
set_queue-Mode second left q1 q2 m = m

-- A round, step by step.
round_runs :
    (p p' : Ppd) (mq : MultiQueue) (side : Side) (queue left : List Request) (s : Search)
    (r : Request) (delay : ℕ) (msg : List ℕ)
    → select_active_queue p.queues ≡ ok (mq, side)
    → queue_of side mq ≡ queue
    → get_next p.algorithm p.disk queue mq.direction p.head_position p.head_position ≡ ok s
    → take_request p.disk s.trace_position queue s.prev s.delay ≡ ok (r, left, delay)
    → handle_request r delay (started p mq s side left) ≡ ok (p', msg)
    → taker_round p ≡ ok (p', record { to = r.sender; bytes = msg })
unfolding taker_round
round_runs p p' mq side queue left s r delay msg chosen there found takes runs =
    rw (chosen, there, found, takes, runs) refl

-- On a disk that runs, with a request that waits, a round answers one request and the disk runs on.
pub taker_round-Progress : (p : Ppd) → IsRunning p → 0 < waiting p.queues → Progress p
taker_round-Progress p v h =
    let q1 = p.queues.queue1 in
    let q2 = p.queues.queue2 in
    let d = p.queues.direction in
    let servable = IsServable p.disk (length p.image.map) in
    let (flag, side, r, rest, chosen, mode, there) = select q1 q2 v.mode v.alone h in
    let mine = of_side servable side q1 q2 flag d v.servable in
    let on_disk =
      All-mono {P = servable} {Q = λ q. q.address.cylinder < p.disk.cylinders} (λ q s. s.on_disk)
        (queue_of side (queues_of q1 q2 flag d)) mine in
    let (s, best, found, mode', stands) =
      search_next p.disk v.movable r rest p.head_position p.head_position mode
        (subst (All (λ q. q.address.cylinder < p.disk.cylinders)) there on_disk) in
    let (before, after, delay, place, takes) =
      take_request-Split p.disk v.movable s.trace_position s.delay (r ∷ rest) s.prev best stands in
    let t = taken side q1 q2 flag d s.direction before after best (there ∙ place) in
    let all =
      All-without servable t.before best t.after (subst (All servable) t.place v.servable) in
    let (p', msg, runs, queues, disk, algorithm, quiet, size, id) =
      handle-Handled (started p (queues_of q1 q2 flag d) s side (before ++ after)) best delay
        v.quiet all.0 in
    (
      p',
      record { to = best.sender; bytes = msg },
      best,
      round_runs p p' (queues_of q1 q2 flag d) side (r ∷ rest) (before ++ after) s best delay msg
          chosen there found takes runs,
      runs_on {p' = p'} v t (set_queue-Mode side (before ++ after) q1 q2 mode') queues disk
          algorithm quiet size,
      subst (λ mq. Perm (q1 ++ q2) (best ∷ mq.queue1 ++ mq.queue2)) (sym queues) (Taken-Perm t),
      t.one ∙ ap (λ mq. waiting mq + 1) (sym queues),
      refl,
      id,
    )
