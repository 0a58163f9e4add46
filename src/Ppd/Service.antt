-- ===== src/Ppd/Service.antt =====
-- The disk process at work: the thread that serves the requests (TAKER_main with what it calls in
-- PPD/src/ppd_taker.c and PPD/src/ppd_common.c) and the handler of its clients' messages
-- (COMM_handleReceive of PPD/src/ppd_comm.c). The two threads change the queues under `queueMutex`
-- and a round of the taker is one step. `queueElemSem` counts the requests that wait.
pub mod Answers
pub mod Rounds
pub mod Drain
pub mod Drained
use fuselage_fat32_utn.Prelude.{
  paste, ℕ, zero, suc, ◌+◌, ◌%◌, Bool, true, false, ◌||◌, Option, none, some, List, [], ◌∷◌, ◌++◌,
  ltb, ◌==◌, if◌then◌else◌, get_elem?, length, drop, u32_mod, bytes16, bytes32, map,
}
use fuselage_fat32_utn.Prelude.Outcome.{Outcome, ok, fault, ◌>>=◌, need}
use fuselage_fat32_utn.Ppd.Geometry.{
  Disk, turn_to_chs, turn_to_sector_num, sect_reached_distance, update_head_position,
}
use fuselage_fat32_utn.Ppd.Taker.{
  NipcType, handshake, read_sectors, write_sectors, ppdconsole_info, ppdconsole_trace,
  ppdconsole_exit, Request, candidate, take_request,
}
use fuselage_fat32_utn.Ppd.Queues.{
  waiting, Flag, sstf, MultiQueue, Side, queue_of, set_queue, select_active_queue, enqueue,
}
use fuselage_fat32_utn.Ppd.Scan.{Search, sstf_get_next, fscan_get_next}
use fuselage_fat32_utn.Ppd.Translate.{to_byte, from_char_to_request, from_request_to_char}
use fuselage_fat32_utn.Ppd.Io.{Image, read_disk, write_disk}

-- The globals. `info` says whether the log takes entries of level INFO.
pub record Ppd : Type 0 where
  pub disk : Disk
  pub image : Image
  pub queues : MultiQueue
  pub head_position : ℕ
  pub trace_position : ℕ
  pub algorithm : Flag
  pub info : Bool

-- The `getNext` that `main` hands to the taker.
abbrev pub get_next :
    Flag → Disk → List Request → (direction : Flag) (trace initial : ℕ) → Outcome Search
get_next sstf = sstf_get_next
get_next _ = fscan_get_next

-- The end of COMMON_createLogChar: the sector that would be served next. The search may move
-- `TracePosition` and switch the queues; the direction is put back.
unfoldable pub next_sector : ℕ → Ppd → Outcome (Ppd × List ℕ)
unfolding select_active_queue candidate sstf_get_next fscan_get_next turn_to_sector_num
next_sector sector_num p =
    let look = (do
      (mq, side) ← select_active_queue p.queues
      s ←
          get_next p.algorithm p.disk (queue_of side mq) mq.direction p.trace_position
            ((sector_num + 1) % u32_mod)
      next ← need (candidate (queue_of side mq) s.prev)
      ok (
        record p { queues = mq; trace_position = s.trace_position },
        bytes32 (turn_to_sector_num p.disk next.address),
      )) in
    if ltb 0 (waiting p.queues) then look else ok (p, [])

-- COMMON_createLogChar. The length field is 24, or 20 without a next sector.
unfoldable pub create_log_char :
    (sector_num : ℕ) → Request → (delay : ℕ) → Ppd → Outcome (Ppd × List ℕ)
unfolding turn_to_chs sect_reached_distance next_sector
create_log_char sector_num request delay p = do
  distance ← sect_reached_distance p.disk request.address (turn_to_chs p.disk p.trace_position)
  (p', next) ← next_sector sector_num p
  ok (
    p',
    to_byte request.type ∷ bytes16 (20 + length next)
        ++ (bytes32 sector_num
            ++ (bytes32 p.head_position
                ++ (bytes32 distance ++ (bytes32 delay ++ (bytes32 p.trace_position ++ next))))),
  )

abbrev pub is_trace : NipcType → Bool
is_trace ppdconsole_trace = true
is_trace _ = false

-- COMMON_writeInLog: the message for the console, or NULL.
unfoldable pub write_in_log :
    (sector_num : ℕ) → Request → (delay : ℕ) → Ppd → Outcome (Ppd × Option (List ℕ))
unfolding create_log_char
write_in_log sector_num request delay p =
    let entry = (do
      (p', msg) ← create_log_char sector_num request delay p
      ok (p', if is_trace request.type then some msg else none)) in
    if p.info || is_trace request.type then entry else ok (p, none)

-- The `switch` of TAKER_handleRequest: the state and the message. For another type `msg` is not set.
unfoldable pub answer :
    (sector_num : ℕ) → Request → NipcType → (delay : ℕ) → Ppd → Outcome (Ppd × List ℕ)
unfolding write_in_log read_disk write_disk from_request_to_char
answer sector_num request ppdconsole_trace delay p = do
  (p, msg) ← write_in_log sector_num request delay p
  msg ← need msg
  ok (p, msg)
answer sector_num request read_sectors delay p = do
  payload ← read_disk sector_num p.image
  msg ← from_request_to_char p.disk (record request { len = 512; payload = some payload })
  (p, _) ← write_in_log sector_num request delay p
  ok (p, msg)
answer sector_num request write_sectors delay p = do
  payload ← need request.payload
  image ← write_disk sector_num payload p.image
  msg ← from_request_to_char p.disk request
  (p, _) ← write_in_log sector_num request delay (record p { image = image })
  ok (p, msg)
answer sector_num request _ delay p = fault

-- TAKER_handleRequest
unfoldable pub handle_request : Request → (delay : ℕ) → Ppd → Outcome (Ppd × List ℕ)
unfolding answer turn_to_sector_num update_head_position
handle_request request delay p = do
  let sector_num = turn_to_sector_num p.disk request.address
  (p, msg) ← answer sector_num request request.type delay p
  ok (record p { head_position = update_head_position p.disk sector_num }, msg)

-- A message and the socket that it is sent to.
pub record Reply : Type 0 where
  pub to : ℕ
  pub bytes : List ℕ

-- A round of TAKER_main, from the semaphore on.
unfoldable pub taker_round : Ppd → Outcome (Ppd × Reply)
unfolding select_active_queue sstf_get_next fscan_get_next take_request handle_request
taker_round p = do
  (mq, side) ← select_active_queue p.queues
  s ← get_next p.algorithm p.disk (queue_of side mq) mq.direction p.head_position p.head_position
  (request, left, delay) ← take_request p.disk s.trace_position (queue_of side mq) s.prev s.delay
  (p, msg) ← handle_request request delay (record p {
    queues = set_queue side left (record mq { direction = s.direction });
    trace_position = s.trace_position;
  })
  ok (p, record { to = request.sender; bytes = msg })

-- Rounds one behind the other, with what they send.
unfoldable pub taker_rounds : ℕ → Ppd → Outcome (Ppd × List Reply)
taker_rounds zero p = ok (p, [])
taker_rounds (suc n) p = do
  (p, reply) ← taker_round p
  (p, replies) ← taker_rounds n p
  ok (p, reply ∷ replies)

-- `strcmp(msgIn+3,"JAMES") == 0`, which reads no further than the first difference.
abbrev pub james : List ℕ
james = b'J' ∷ b'A' ∷ b'M' ∷ b'E' ∷ b'S' ∷ 0 ∷ []

unfoldable pub strcmp_is_zero : (text string : List ℕ) → Outcome Bool
strcmp_is_zero [] string = ok true
strcmp_is_zero (c ∷ text) [] = fault
strcmp_is_zero (c ∷ text) (d ∷ string) = if c == d then strcmp_is_zero text string else ok false

-- What COMM_handleReceive does: the state, the message that it sends back, and what it returns.
unfoldable pub handle_info : List ℕ → Ppd → Outcome (Ppd × Option (List ℕ) × Bool)
unfolding strcmp_is_zero turn_to_chs
handle_info msg p = do
  is_james ← strcmp_is_zero james (drop 3 msg)
  let position = if is_james then 7 else p.head_position
  let at = turn_to_chs p.disk position
  msg ← paste 3 (bytes32 at.cylinder ++ (bytes32 at.head ++ bytes32 at.sector)) msg
  ok (record p { head_position = position }, some msg, false)

unfoldable pub handle_receive : List ℕ → (fd : ℕ) → Ppd → Outcome (Ppd × Option (List ℕ) × Bool)
unfolding handle_info from_char_to_request enqueue
handle_receive msg fd p = do
  type ← need (get_elem? msg 0)
  let info = handle_info msg p
  let queued = (do
    request ← from_char_to_request p.disk msg fd
    ok (record p { queues = enqueue request p.queues }, none, false))
  if type == 3 then info else if type == 5 then ok (p, none, true) else queued
