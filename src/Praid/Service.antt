-- ===== src/Praid/Service.antt =====
-- The handlers of PRAID's main loop (PRAID/src/praid.c) and of the thread of a disk
-- (PRAID/src/ppd_thread.c). A handler returns the new state and the messages that it sends, in
-- order; `send` is not seen to fail where the source does not look at its result.
pub mod Writes
pub mod Race
pub mod Loss
pub mod Replan
pub mod Keeping
pub mod Counting
pub mod Ready
pub mod Reach
use fuselage_fat32_utn.Prelude.{
  ℕ, ◌+◌, ◌-◌, ◌%◌, Bool, true, false, not, Option, none, some, List, [], ◌∷◌, ◌++◌, ◌==◌, ◌&&◌,
  ltb, leb, if◌then◌else◌, u32_mod, is_none,
}
use fuselage_fat32_utn.Prelude.Outcome.{Outcome, ok, fault, ◌>>=◌, ◌>>◌, need}
use fuselage_fat32_utn.Praid.Message.{Message, Sent, read_sectors, write_sectors}
use fuselage_fat32_utn.Praid.Requests.{
  Request, request_add_new, request_take, request_search, decrement_write_count,
}
use fuselage_fat32_utn.Praid.Disks.{
  PpdNode, ready, wait_synch, synchronizing, same_status, add_new_ppd, select_by_less_requests,
  get_by_id, get_by_status, remove_ppd,
}
use fuselage_fat32_utn.Praid.Clients.{has_mutex, add_new_pfs, remove_all}

-- The globals.
pub record State : Type 0 where
  pub disks : List PpdNode
  pub ppd_count : ℕ
  pub clients : List ℕ
  pub requests : List Request

abbrev pub sent : ℕ → Message → Sent
sent fd message = record { to = fd; message = message }

-- The loop of a write over the disks: each ready one gets the message and is marked.
unfoldable pub fan_out : Message → List PpdNode → List PpdNode × List Sent
fan_out msg [] = ([], [])
fan_out msg (d ∷ ds) =
    let (rest, messages) = fan_out msg ds in
    if same_status d.status ready
    then (record d { requested = true } ∷ rest, sent d.ppd_fd msg ∷ messages)
    else (d ∷ rest, messages)

unfoldable pub handle_write : ℕ → Message → State → State × List Sent
unfolding request_add_new fan_out
handle_write fd msg s =
    let (disks, messages) = fan_out msg s.disks in
    (
      record s { requests = request_add_new s.ppd_count 0 fd msg s.requests; disks = disks },
      messages,
    )

unfoldable pub handle_read : ℕ → Message → State → Outcome (State × List Sent)
unfolding request_add_new select_by_less_requests
handle_read fd msg s = do
  (selected, disks) ← select_by_less_requests s.disks
  ok (
    record s {
      disks = disks;
      requests = request_add_new s.ppd_count selected.ppd_fd fd msg s.requests;
    },
    sent selected.ppd_fd msg ∷ [],
  )

-- `main`: a message of a file system.
unfoldable pub handle_pfs_message : ℕ → Message → State → Outcome (State × List Sent)
unfolding handle_write handle_read
handle_pfs_message fd msg s =
    if msg.type == write_sectors then ok (handle_write fd msg s) else handle_read fd msg s

-- `main`: a file system has gone.
unfoldable pub handle_pfs_lost : State → State
unfolding remove_all
handle_pfs_lost s = record s { clients = remove_all s.clients }

-- pfs_handshake with the rest of the branch in `main`. `received` and `delivered` are the results
-- of the socket calls.
unfoldable pub handle_new_pfs : (received delivered : Bool) → ℕ → State → State
unfolding add_new_pfs
handle_new_pfs received delivered fd s =
    if received && leb 1 s.ppd_count && delivered
    then record s { clients = add_new_pfs fd s.clients }
    else s

-- ppd_thread up to its loop: the state of the disk, and whether the synchroniser is run.
unfoldable pub start_thread : PpdNode → PpdNode × Bool
start_thread d =
    let started = record d { status = ready } in (started, same_status started.status wait_synch)

abbrev pub start_last : List PpdNode → List PpdNode
start_last [] = []
start_last (d ∷ []) = (start_thread d).0 ∷ []
start_last (d ∷ e ∷ ds) = d ∷ start_last (e ∷ ds)

-- ppd_handshake with the rest of the branch in `main`, up to the new thread's first lines.
unfoldable pub handle_new_ppd :
    (received delivered uninitialised : Bool) (fd disk_id sectors : ℕ) → State → State
unfolding get_by_id add_new_ppd start_thread
handle_new_ppd received delivered uninitialised fd disk_id sectors s =
    if received && is_none (get_by_id disk_id s.disks) && delivered
    then (let (disks, count) =
          add_new_ppd uninitialised fd disk_id sectors (s.disks, s.ppd_count) in
        record s { disks = start_last disks; ppd_count = count })
    else s

-- The answer of a disk to a read that the synchroniser asked for.
unfoldable pub handle_sync_answer : Message → State → Outcome (State × List Sent)
unfolding get_by_status
handle_sync_answer msg s = do
  target ← need (get_by_status synchronizing s.disks)
  ok (s, sent target.ppd_fd (record msg { type = write_sectors }) ∷ [])

-- The acknowledgement of a write: the last one is passed on.
unfoldable pub handle_write_answer : Message → State → Outcome (State × List Sent)
unfolding request_search decrement_write_count request_take
handle_write_answer msg s = do
  _ ← need (request_search msg.request_id msg.sector s.requests)
  let queue = decrement_write_count msg.request_id msg.sector s.requests
  request ← need (request_search msg.request_id msg.sector queue)
  if request.write_count == 0
      then ok (
        record s { requests = (request_take msg.request_id msg.sector queue).1 },
        sent request.pfs_fd msg ∷ [],
      )
      else ok (record s { requests = queue }, [])

-- The answer to a read. With several disks the mutex of the client is taken, which must exist.
unfoldable pub handle_read_answer : Message → State → Outcome (State × List Sent)
unfolding request_take has_mutex
handle_read_answer msg s = do
  let (taken, left) = request_take msg.request_id msg.sector s.requests
  request ← need taken
  if ltb 1 s.ppd_count && not (has_mutex request.pfs_fd s.clients)
      then fault
      else ok (record s { requests = left }, sent request.pfs_fd msg ∷ [])

-- ppd_thread: a message of a disk.
unfoldable pub handle_ppd_message : Message → State → Outcome (State × List Sent)
unfolding handle_sync_answer handle_write_answer handle_read_answer
handle_ppd_message msg s =
    if msg.request_id == 0
    then handle_sync_answer msg s
    else if msg.type == write_sectors
    then handle_write_answer msg s
    else if msg.type == read_sectors
    then handle_read_answer msg s
    else ok (s, [])

-- The loop of replan_requests: one request, then all. A read of the lost disk goes to another one; a
-- write waits for one acknowledgement less.
unfoldable pub replan_read : ℕ → Request → List PpdNode → Outcome (List PpdNode × List Sent)
unfolding select_by_less_requests
replan_read fd r disks =
    if not (r.ppd_fd == 0) && r.ppd_fd == fd
    then (do
      (selected, disks) ← select_by_less_requests disks
      ok (disks, sent selected.ppd_fd r.msg ∷ []))
    else ok (disks, [])

unfoldable pub replan_write : Request → Request
replan_write r =
    if r.ppd_fd == 0 && ltb 0 r.write_count then record r { write_count = r.write_count - 1 } else r

unfoldable pub replan_loop :
    ℕ → List Request → List PpdNode → Outcome (List Request × List PpdNode × List Sent)
unfolding replan_read replan_write
replan_loop fd [] disks = ok ([], disks, [])
replan_loop fd (r ∷ rest) disks = do
  (disks, out) ← replan_read fd r disks
  (left, disks, more) ← replan_loop fd rest disks
  ok (replan_write r ∷ left, disks, out ++ more)

unfoldable pub replan_requests : ℕ → State → Outcome (State × List Sent)
unfolding replan_loop
replan_requests fd s = do
  (requests, disks, messages) ← replan_loop fd s.requests s.disks
  ok (record s { requests = requests; disks = disks }, messages)

-- standby: every request is dropped and every client closed.
unfoldable pub standby : State → State
standby s = record s { requests = []; clients = [] }

-- ppd_thread: the disk has gone. PPDQUEUE_removePPD frees the node before `ppd_info->ppd_fd` is read;
-- `freed_fd` is what that read delivers.
unfoldable pub handle_ppd_lost : (disk_id freed_fd : ℕ) → State → Outcome (State × List Sent)
unfolding remove_ppd replan_requests standby
handle_ppd_lost disk_id freed_fd s =
    let s' = record s {
      disks = (remove_ppd disk_id s.disks).0;
      ppd_count = (s.ppd_count + u32_mod - 1) % u32_mod;
    } in
    if ltb 0 s'.ppd_count then replan_requests freed_fd s' else ok (standby s', [])

-- What wakes PRAID.
pub data Event : Type 0 where
  pfs_message : ℕ → Message → Event
  pfs_lost : Event
  new_pfs : (received delivered : Bool) → ℕ → Event
  ppd_message : Message → Event
  new_ppd : (received delivered uninitialised : Bool) (fd disk_id sectors : ℕ) → Event
  ppd_lost : (disk_id freed_fd : ℕ) → Event

unfoldable pub step : Event → State → Outcome (State × List Sent)
unfolding handle_pfs_message handle_pfs_lost handle_new_pfs handle_ppd_message handle_new_ppd
    handle_ppd_lost
step (pfs_message fd msg) s = handle_pfs_message fd msg s
step pfs_lost s = ok (handle_pfs_lost s, [])
step (new_pfs received delivered fd) s = ok (handle_new_pfs received delivered fd s, [])
step (ppd_message msg) s = handle_ppd_message msg s
step (new_ppd received delivered uninitialised fd disk_id sectors) s =
    ok (handle_new_ppd received delivered uninitialised fd disk_id sectors s, [])
step (ppd_lost disk_id freed_fd) s = handle_ppd_lost disk_id freed_fd s
