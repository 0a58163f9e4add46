-- ===== src/Praid/Service/Loss.antt =====
-- What happens to the pending requests when a disk is lost.
use fuselage_fat32_utn.Prelude.{
  ℕ, ◌+◌, ◌-◌, ◌%◌, ◌<◌, ◌≡◌, ◌≢◌, refl, true, List, [], ◌∷◌, ap, sym, arith, ◌∙◌, map, u32_mod,
  ltb, lt→ltb, none, subst,
}
use fuselage_fat32_utn.Prelude.Outcome.{ok, fault}
use fuselage_fat32_utn.Praid.Message.{Message, Sent}
use fuselage_fat32_utn.Praid.Requests.{Request, matches, request_search, decrement_write_count}
use fuselage_fat32_utn.Praid.Disks.{remove_ppd, get_by_id}
use fuselage_fat32_utn.Praid.Disks.Members.{remove_ppd-ids}
use fuselage_fat32_utn.Praid.Disks.Descriptors.{left-IsWithout, IsWithout}
use fuselage_fat32_utn.Praid.Service.Counting.{IsCounted}
use fuselage_fat32_utn.Praid.Clients.{has_mutex, remove_all}
use fuselage_fat32_utn.Praid.Requests.Search.{Oldest, request_take-Oldest}
use fuselage_fat32_utn.Praid.Service.{
  handle_read_answer, handle_pfs_lost, State, replan_write, replan_requests, handle_ppd_lost,
  handle_write_answer,
}
use fuselage_fat32_utn.Praid.Service.Replan.{
  reads_of, AfterLoss, replan_write-AfterLoss, AllServed, AllServed-same, replan_loop-Replanned,
}

replan_requests-Replanned :
    (disk_id fd : ℕ) (s : State)
    → IsCounted s
    → get_by_id disk_id s.disks ≢ none
    → 1 < s.ppd_count
    → (s' : State) × (out : List Sent) × (handle_ppd_lost disk_id fd s ≡ ok (s', out))
      × (map (λ (m : Sent). m.message) out ≡ reads_of fd s.requests)
      × AllServed s'.disks out
      × (s'.requests ≡ map replan_write s.requests)
      × IsWithout disk_id s.disks s'.disks
      × (s'.ppd_count + 1 ≡ s.ppd_count)
unfolding handle_ppd_lost replan_requests
replan_requests-Replanned disk_id fd s c there several =
    let (apart, fewer) = remove_ppd-ids disk_id s.disks there c.apart in
    let left = (remove_ppd disk_id s.disks).0 in
    let (ds', out, done, messages, kept, same_fds, served) =
      replan_loop-Replanned fd s.requests left (omega (arith, fewer, several, c.count)) in
    let less : (s.ppd_count + u32_mod - 1) % u32_mod + 1 ≡ s.ppd_count =
      omega (arith, several, c.bound) in
    let more : ltb 0 ((s.ppd_count + u32_mod - 1) % u32_mod) ≡ true =
      lt→ltb 0 _ (omega (arith, several, less)) in
    let others = left-IsWithout disk_id s.disks ds' there kept same_fds in
    rw more (
      rw done (
        _,
        out,
        refl,
        messages,
        AllServed-same left ds' out (sym same_fds) served,
        refl,
        others,
        less,
      ))

-- When a counted disk is lost and others are left, and its descriptor is read before it is
-- overwritten, every read that it was asked for is sent again, in order, and nothing else, each to
-- the descriptor of a disk that is left. Every pending write that waits for acknowledgements waits
-- for one less, the pending reads stay as they were, and no request is added, lost or moved. The disks
-- that are left are the others in their order, with their numbers and descriptors, and one disk less
-- is counted.
pub handle_ppd_lost-replans :
    (disk_id fd : ℕ) (s : State)
    → IsCounted s
    → get_by_id disk_id s.disks ≢ none
    → 1 < s.ppd_count
    → (s' : State) × (out : List Sent) × (handle_ppd_lost disk_id fd s ≡ ok (s', out))
      × (map (λ (m : Sent). m.message) out ≡ reads_of fd s.requests)
      × AllServed s'.disks out
      × AfterLoss s.requests s'.requests
      × IsWithout disk_id s.disks s'.disks
      × (s'.ppd_count + 1 ≡ s.ppd_count)
handle_ppd_lost-replans disk_id fd s c there several =
    let (s', out, done, messages, served, waiting, kept, fewer) =
      replan_requests-Replanned disk_id fd s c there several in
    (
      s',
      out,
      done,
      messages,
      served,
      subst (AfterLoss s.requests) (sym waiting) (replan_write-AfterLoss s.requests),
      kept,
      fewer,
    )

late_acknowledgement :
    (msg : Message) (s : State) (r : Request)
    → s.requests ≡ record r { write_count = 0; ppd_fd = 0 } ∷ []
    → matches msg.request_id msg.sector r ≡ true
    → handle_write_answer msg s
      ≡ ok (record s { requests = record r { write_count = u32_mod - 1; ppd_fd = 0 } ∷ [] }, [])
unfolding handle_write_answer request_search decrement_write_count
late_acknowledgement msg s r only fits = rw (only, fits, fits)

-- When a disk is lost while the only pending request is a write that waits for its last
-- acknowledgement, the write waits for none and stays in the queue, its client is sent nothing, and
-- an acknowledgement that comes sends nothing either: the count passes below zero to 2 ^ 32 - 1.
pub handle_ppd_lost-starves :
    (disk_id fd : ℕ) (s : State) (r : Request) (msg : Message)
    → IsCounted s
    → get_by_id disk_id s.disks ≢ none
    → 1 < s.ppd_count
    → s.requests ≡ record r { write_count = 1; ppd_fd = 0 } ∷ []
    → matches msg.request_id msg.sector r ≡ true
    → (s' : State) × (handle_ppd_lost disk_id fd s ≡ ok (s', []))
      × (s'.requests ≡ record r { write_count = 0; ppd_fd = 0 } ∷ [])
      × (handle_write_answer msg s'
          ≡ ok (
            record s' { requests = record r { write_count = u32_mod - 1; ppd_fd = 0 } ∷ [] },
            [],
          ))
unfolding replan_write reads_of
handle_ppd_lost-starves disk_id fd s r msg c there several only fits =
    let (s', out, done, messages, served, waiting, kept, fewer) =
      replan_requests-Replanned disk_id fd s c there several in
    let silent : out ≡ [] = no_message out (messages ∙ ap (reads_of fd) only) in
    let stays : s'.requests ≡ record r { write_count = 0; ppd_fd = 0 } ∷ [] =
      waiting ∙ ap (map replan_write) only in
    (s', done ∙ ap (λ o. ok (s', o)) silent, stays, late_acknowledgement msg s' r stays fits)
  where
    no_message : (out : List Sent) → map (λ (m : Sent). m.message) out ≡ [] → out ≡ []
    no_message [] h = refl
    no_message (m ∷ out) h = absurd (cc)

-- When a file system has gone and two disks or more are connected, the answer of a disk to a read that
-- is still pending stops PRAID: the list of the file systems is empty, and the mutex of the client
-- is locked through NULL.
pub handle_read_answer-orphan :
    (msg : Message) (s : State) {r : Request}
    → Oldest msg.request_id msg.sector s.requests r
    → 1 < s.ppd_count
    → handle_read_answer msg (handle_pfs_lost s) ≡ fault
unfolding handle_read_answer handle_pfs_lost remove_all has_mutex
handle_read_answer-orphan msg s o several =
    rw (request_take-Oldest o, lt→ltb 1 s.ppd_count several) refl
