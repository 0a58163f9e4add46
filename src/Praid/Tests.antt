-- ===== src/Praid/Tests.antt =====
-- PRAID with two disks, a client, and requests that wait.
use fuselage_fat32_utn.Prelude.{
  ℕ, ◌+◌, ◌-◌, ◌≡◌, ◌≢◌, refl, true, false, none, List, [], ◌∷◌, arith, map, length, u32_mod,
}
use fuselage_fat32_utn.Prelude.Outcome.{ok, fault, ◌>>=◌}
use fuselage_fat32_utn.Praid.Message.{Message, Sent, read_sectors, write_sectors}
use fuselage_fat32_utn.Praid.Requests.{Request, matches}
use fuselage_fat32_utn.Praid.Requests.Search.{Oldest}
use fuselage_fat32_utn.Praid.Disks.{PpdNode, ready, get_by_id, add_new_ppd}
use fuselage_fat32_utn.Praid.Disks.Choice.{choices, choices-round}
use fuselage_fat32_utn.Praid.Disks.Descriptors.{IsWithout}
use fuselage_fat32_utn.Praid.Disks.Members.{ids}
use fuselage_fat32_utn.Praid.Service.Reach.{Reached, start, next, handle_write-Reached}
use fuselage_fat32_utn.Praid.Service.Race.{count_downs, settle_twice, count_downs-settle_twice}
use fuselage_fat32_utn.Praid.Service.{
  new_ppd, handle_new_ppd, start_thread, handle_read_answer, handle_pfs_lost, State, sent, ppd_lost,
  step, handle_write, handle_write_answer, handle_ppd_lost,
}
use fuselage_fat32_utn.Praid.Service.Writes.{acknowledge, acknowledge-answer}
use fuselage_fat32_utn.Praid.Service.Replan.{reads_of, AfterLoss, AllServed}
use fuselage_fat32_utn.Praid.Service.Loss.{
  handle_read_answer-orphan, handle_ppd_lost-replans, handle_ppd_lost-starves,
}
use fuselage_fat32_utn.Praid.Service.Counting.{IsCounted, IsExpected, step-IsCounted}

abbrev disk_of : (fd disk_id : ℕ) → PpdNode
disk_of fd disk_id = record {
  ppd_fd = fd;
  disk_id = disk_id;
  requested = false;
  status = ready;
  sectors_count = 1048576;
}

abbrev disks : List PpdNode
disks = disk_of 4 1 ∷ disk_of 5 2 ∷ []

abbrev a_write : Message
a_write = record { type = write_sectors; len = 520; request_id = 1; sector = 9; payload = [] }

abbrev a_read : Message
a_read = record { type = read_sectors; len = 520; request_id = 2; sector = 3; payload = [] }

abbrev pending_write : Request
pending_write = record {
  request_id = 1;
  sector = 9;
  pfs_fd = 7;
  ppd_fd = 0;
  write_count = 2;
  msg = a_write;
  msg_len = 523;
}

abbrev pending_read : Request
pending_read = record {
  request_id = 2;
  sector = 3;
  pfs_fd = 7;
  ppd_fd = 4;
  write_count = 2;
  msg = a_read;
  msg_len = 523;
}

abbrev praid : List Request → State
praid requests = record { disks = disks; ppd_count = 2; clients = 7 ∷ []; requests = requests }

abbrev busy : State
busy = praid (pending_read ∷ pending_write ∷ [])

praid-IsCounted : (requests : List Request) → IsCounted (praid requests)
unfolding ids
praid-IsCounted requests = record {
  count = refl;
  bound = omega arith;
  apart = ((λ e. absurd (omega (arith, e)), tt), (tt, tt));
}

first_known : get_by_id 1 disks ≢ none
unfolding get_by_id
first_known e = cc

abbrev oldest_write : Oldest 1 9 (pending_read ∷ pending_write ∷ []) pending_write
oldest_write = record {
  before = pending_read ∷ [];
  after = [];
  place = refl;
  fits = refl;
  older = (refl, tt);
}

acknowledge-answer_example :
    acknowledge 2 a_write busy
    ≡ ok (record busy { requests = pending_read ∷ [] }, sent 7 a_write ∷ [])
acknowledge-answer_example =
    acknowledge-answer a_write busy oldest_write (omega arith) (omega arith)

handle_ppd_lost-replans_example :
    (s' : State) × (out : List Sent) × (handle_ppd_lost 1 4 busy ≡ ok (s', out))
    × (map (λ (m : Sent). m.message) out ≡ reads_of 4 busy.requests)
    × AllServed s'.disks out
    × AfterLoss busy.requests s'.requests
    × IsWithout 1 disks s'.disks
    × (s'.ppd_count + 1 ≡ 2)
handle_ppd_lost-replans_example =
    handle_ppd_lost-replans 1 4 busy (praid-IsCounted _) first_known (omega arith)

abbrev last_one : State
last_one = praid (record pending_write { write_count = 1 } ∷ [])

handle_ppd_lost-starves_example :
    (s' : State) × (handle_ppd_lost 1 4 last_one ≡ ok (s', []))
    × (s'.requests ≡ record pending_write { write_count = 0 } ∷ [])
    × (handle_write_answer a_write s'
        ≡ ok (record s' { requests = record pending_write { write_count = u32_mod - 1 } ∷ [] }, []))
handle_ppd_lost-starves_example =
    handle_ppd_lost-starves 1 4 last_one pending_write a_write (praid-IsCounted _) first_known
      (omega arith) refl refl

choices-round_example :
    choices 2 disks
    ≡ ok (
      map (λ (d : PpdNode). record d { requested = true }) disks,
      map (λ (d : PpdNode). record d { requested = true }) disks,
    )
choices-round_example = choices-round disks ((refl, refl), ((refl, refl), tt))

step-IsCounted_example :
    IsCounted (record { disks = disk_of 5 2 ∷ []; ppd_count = 1; clients = 7 ∷ []; requests = [] })
unfolding step handle_ppd_lost IsExpected
step-IsCounted_example =
    step-IsCounted (ppd_lost 1 4) (praid [])
      (record { disks = disk_of 5 2 ∷ []; ppd_count = 1; clients = 7 ∷ []; requests = [] }, []) refl
      first_known (praid-IsCounted _)

abbrev one_disk : State
one_disk = record { disks = disk_of 4 1 ∷ []; ppd_count = 1; clients = []; requests = [] }

one_disk-Reached : Reached one_disk
unfolding step handle_new_ppd add_new_ppd get_by_id start_thread IsExpected
one_disk-Reached = next (new_ppd true true false 4 1 1048576) start (omega arith) refl

handle_write-Reached_example :
    (r : Request) × ((handle_write 7 a_write one_disk).0.requests ≡ r ∷ [])
    × ((handle_write 7 a_write one_disk).1
        ≡ map (λ (d : PpdNode). sent d.ppd_fd a_write) (disk_of 4 1 ∷ []))
    × (r.write_count ≡ length (handle_write 7 a_write one_disk).1)
    × (r.pfs_fd ≡ 7)
    × (matches 1 9 r ≡ true)
handle_write-Reached_example = handle_write-Reached 7 a_write one_disk-Reached

count_downs-settle_twice_example :
    (do s ← count_downs 2 a_write busy; settle_twice a_write s) ≡ fault
count_downs-settle_twice_example =
    count_downs-settle_twice a_write busy oldest_write (omega arith) (omega arith) tt

abbrev oldest_read : Oldest 2 3 (pending_read ∷ pending_write ∷ []) pending_read
oldest_read = record {
  before = [];
  after = pending_write ∷ [];
  place = refl;
  fits = refl;
  older = tt;
}

handle_read_answer-orphan_example : handle_read_answer a_read (handle_pfs_lost busy) ≡ fault
handle_read_answer-orphan_example = handle_read_answer-orphan a_read busy oldest_read (omega arith)
