-- ===== src/Praid/Service/Ready.antt =====
-- Every disk that PRAID knows is ready, after any run of events.
use mathlib.Core.Option
use mathlib.Core.Option.{Option}
use fuselage_fat32_utn.Prelude.{
  ℕ, ◌≡◌, refl, ◌&&◌, Bool, true, false, none, some, List, [], ◌∷◌, ◌++◌, ◌==◌, subst, All,
  Bool-cases, inl, inr, ltb, leb, not, is_none, if◌then◌else◌,
}
use fuselage_fat32_utn.Prelude.Outcome.{Outcome, ok, fault, ok-inj, ◌>>=◌, need, >>=-eq-ok}
use fuselage_fat32_utn.Praid.Message.{Message, Sent, read_sectors, write_sectors}
use fuselage_fat32_utn.Praid.Requests.{Request, request_take, request_search, decrement_write_count}
use fuselage_fat32_utn.Praid.Disks.{
  PpdNode, ready, synchronizing, same_status, select_unrequested, clear_requested, select_first,
  select_by_less_requests, select_or_first, get_by_id, get_by_status, add_new_ppd, remove_ppd,
}
use fuselage_fat32_utn.Praid.Clients.{has_mutex}
use fuselage_fat32_utn.Praid.Service.{
  State, Event, pfs_message, pfs_lost, new_pfs, ppd_message, new_ppd, ppd_lost, fan_out,
  replan_loop, replan_read, start_thread, start_last, step, handle_pfs_message, handle_pfs_lost,
  handle_new_pfs, handle_ppd_message, handle_new_ppd, handle_ppd_lost, handle_write, handle_read,
  handle_sync_answer, handle_write_answer, handle_read_answer, replan_requests, standby,
}

abbrev pub IsUp : PpdNode → Type 0
IsUp d = d.status ≡ ready

abbrev pub AllUp : List PpdNode → Type 0
AllUp = All IsUp

abbrev KeepsUp : Option (PpdNode × List PpdNode) → Type 0
KeepsUp none = Unit
KeepsUp (some (x, left)) = AllUp left

select_unrequested-AllUp : (ds : List PpdNode) → AllUp ds → KeepsUp (select_unrequested ds)
unfolding select_unrequested
select_unrequested-AllUp [] h = tt
select_unrequested-AllUp (d ∷ ds) h =
    elim (Bool-cases (not d.requested && same_status d.status ready)) [
      | inl free ↦ rw free (h.0, h.1)
      | inr busy ↦ rw busy (behind (select_unrequested ds) (select_unrequested-AllUp ds h.1))
    ]
  where
    behind :
        (r : Option (PpdNode × List PpdNode))
        → KeepsUp r
        → KeepsUp (Option.map (λ (s, rest). (s, d ∷ rest)) r)
    behind none k = tt
    behind (some (x, left)) k = (h.0, k)

clear_requested-AllUp : (ds : List PpdNode) → AllUp ds → AllUp (clear_requested ds)
unfolding clear_requested
clear_requested-AllUp [] h = tt
clear_requested-AllUp (d ∷ ds) h = (h.0, clear_requested-AllUp ds h.1)

select_first-AllUp :
    (ds : List PpdNode) (q : PpdNode × List PpdNode) → select_first ds ≡ ok q → AllUp ds → AllUp q.1
unfolding select_first
select_first-AllUp [] q e h = absurd (cc)
select_first-AllUp (d ∷ ds) q e h =
    subst (λ (q : PpdNode × List PpdNode). AllUp q.1) (ok-inj e) (h.0, h.1)

select_by_less_requests-AllUp :
    (ds : List PpdNode) (q : PpdNode × List PpdNode)
    → select_by_less_requests ds ≡ ok q
    → AllUp ds
    → AllUp q.1
unfolding select_by_less_requests
select_by_less_requests-AllUp ds q e h =
    by_result (select_unrequested ds) (select_unrequested-AllUp ds h) e
  where
    by_result :
        (r : Option (PpdNode × List PpdNode)) → KeepsUp r → select_or_first ds r ≡ ok q → AllUp q.1
    by_result none k e = select_first-AllUp (clear_requested ds) q e (clear_requested-AllUp ds h)
    by_result (some (y, rest)) k e = subst (λ (q : PpdNode × List PpdNode). AllUp q.1) (ok-inj e) k

fan_out-AllUp : (msg : Message) (ds : List PpdNode) → AllUp ds → AllUp (fan_out msg ds).0
unfolding fan_out
fan_out-AllUp msg [] h = tt
fan_out-AllUp msg (d ∷ ds) h = rw h.0 (refl, fan_out-AllUp msg ds h.1)

-- The thread of a new disk makes it ready.
start_last-AllUp : (ds : List PpdNode) (d : PpdNode) → AllUp ds → AllUp (start_last (ds ++ d ∷ []))
unfolding start_thread
start_last-AllUp [] d h = (refl, tt)
start_last-AllUp (e ∷ []) d h = (h.0, (refl, tt))
start_last-AllUp (e ∷ f ∷ ds) d h = (h.0, start_last-AllUp (f ∷ ds) d h.1)

remove_ppd-AllUp : (id : ℕ) (ds : List PpdNode) → AllUp ds → AllUp (remove_ppd id ds).0
unfolding remove_ppd
remove_ppd-AllUp id [] h = tt
remove_ppd-AllUp id (d ∷ ds) h = elim (Bool-cases (d.disk_id == id)) [
  | inl hit ↦ rw hit h.1
  | inr miss ↦ rw miss (h.0, remove_ppd-AllUp id ds h.1)
]

-- The states that a result can have satisfy a predicate.
abbrev Leads {ℓ} : {A : Type ℓ} → (A → Type 0) → Outcome A → Type ℓ
Leads K m = (p : _) → m ≡ ok p → K p

lead_ok {ℓ} : {A : Type ℓ} (K : A → Type 0) (a : A) → K a → Leads K (ok a)
lead_ok K a k p e = subst K (ok-inj e) k

lead_fault {ℓ} : {A : Type ℓ} (K : A → Type 0) → Leads K fault
lead_fault K p e = absurd (cc)

lead_bind {ℓ κ} :
    {A : Type ℓ} {B : Type κ} (K : B → Type 0) (m : Outcome A) (f : A → Outcome B)
    → ((a : A) → m ≡ ok a → Leads K (f a))
    → Leads K (m >>= f)
lead_bind K m f h p e = let (a, first, rest) = >>=-eq-ok m f e in h a first p rest

lead_if {ℓ} :
    {A : Type ℓ} (K : A → Type 0) (b : Bool) (x y : Outcome A)
    → Leads K x
    → Leads K y
    → Leads K (if b then x else y)
lead_if K true x y hx hy = hx
lead_if K false x y hx hy = hy

abbrev Up : State × List Sent → Type 0
Up p = AllUp p.0.disks

replan_read-AllUp :
    (fd : ℕ) (r : Request) (ds : List PpdNode)
    → AllUp ds
    → Leads (λ (p : List PpdNode × List Sent). AllUp p.0) (replan_read fd r ds)
unfolding replan_read
replan_read-AllUp fd r ds h =
    lead_if (λ (p : List PpdNode × List Sent). AllUp p.0) _ _ _
      (lead_bind (λ (p : List PpdNode × List Sent). AllUp p.0) _ _
        (λ q chosen.
          lead_ok (λ (p : List PpdNode × List Sent). AllUp p.0) _
            (select_by_less_requests-AllUp ds q chosen h)))
      (lead_ok (λ (p : List PpdNode × List Sent). AllUp p.0) _ h)

replan_loop-AllUp :
    (fd : ℕ) (rs : List Request) (ds : List PpdNode)
    → AllUp ds
    → Leads (λ (p : List Request × List PpdNode × List Sent). AllUp p.1) (replan_loop fd rs ds)
unfolding replan_loop
replan_loop-AllUp fd [] ds h =
    lead_ok (λ (p : List Request × List PpdNode × List Sent). AllUp p.1) _ h
replan_loop-AllUp fd (r ∷ rs) ds h =
    lead_bind (λ (p : List Request × List PpdNode × List Sent). AllUp p.1) _ _
      (λ q one.
        lead_bind (λ (p : List Request × List PpdNode × List Sent). AllUp p.1) _ _
          (λ t more.
            lead_ok (λ (p : List Request × List PpdNode × List Sent). AllUp p.1) _
              (replan_loop-AllUp fd rs q.0 (replan_read-AllUp fd r ds h q one) t more)))

handle_pfs_message-Up :
    (fd : ℕ) (msg : Message) (s : State) → AllUp s.disks → Leads Up (handle_pfs_message fd msg s)
unfolding handle_pfs_message handle_write handle_read
handle_pfs_message-Up fd msg s h =
    lead_if Up _ _ _ (lead_ok Up _ (fan_out-AllUp msg s.disks h)) (
      lead_bind Up _ _
        (λ q chosen. lead_ok Up _ (select_by_less_requests-AllUp s.disks q chosen h)))

handle_sync_answer-Up :
    (msg : Message) (s : State) → AllUp s.disks → Leads Up (handle_sync_answer msg s)
unfolding handle_sync_answer
handle_sync_answer-Up msg s h =
    lead_bind Up (need (get_by_status synchronizing s.disks)) _ (λ d found. lead_ok Up _ h)

handle_write_answer-Up :
    (msg : Message) (s : State) → AllUp s.disks → Leads Up (handle_write_answer msg s)
unfolding handle_write_answer
handle_write_answer-Up msg s h =
    let queue = decrement_write_count msg.request_id msg.sector s.requests in
    lead_bind Up (need (request_search msg.request_id msg.sector s.requests)) _ (λ r found.
      lead_bind Up (need (request_search msg.request_id msg.sector queue)) _
        (λ r found. lead_if Up (r.write_count == 0) _ _ (lead_ok Up _ h) (lead_ok Up _ h)))

handle_read_answer-Up :
    (msg : Message) (s : State) → AllUp s.disks → Leads Up (handle_read_answer msg s)
unfolding handle_read_answer
handle_read_answer-Up msg s h =
    lead_bind Up (need (request_take msg.request_id msg.sector s.requests).0) _ (λ r found.
      lead_if Up (ltb 1 s.ppd_count && not (has_mutex r.pfs_fd s.clients)) _ _ (lead_fault Up)
        (lead_ok Up _ h))

handle_ppd_message-Up :
    (msg : Message) (s : State) → AllUp s.disks → Leads Up (handle_ppd_message msg s)
unfolding handle_ppd_message
handle_ppd_message-Up msg s h =
    lead_if Up (msg.request_id == 0) _ _ (handle_sync_answer-Up msg s h) (
      lead_if Up (msg.type == write_sectors) _ _ (handle_write_answer-Up msg s h) (
        lead_if Up (msg.type == read_sectors) _ _ (handle_read_answer-Up msg s h) (lead_ok Up _ h)))

handle_ppd_lost-Up :
    (disk_id freed_fd : ℕ) (s : State)
    → AllUp s.disks
    → Leads Up (handle_ppd_lost disk_id freed_fd s)
unfolding handle_ppd_lost replan_requests standby
handle_ppd_lost-Up disk_id freed_fd s h =
    let left = remove_ppd-AllUp disk_id s.disks h in
    lead_if Up _ _ _
      (lead_bind Up _ _
        (λ q done. lead_ok Up _ (replan_loop-AllUp freed_fd s.requests _ left q done)))
      (lead_ok Up _ left)

new_pfs-AllUp :
    (received delivered : Bool) (fd : ℕ) (s : State)
    → AllUp s.disks
    → AllUp (handle_new_pfs received delivered fd s).disks
unfolding handle_new_pfs
new_pfs-AllUp received delivered fd s h =
    elim (Bool-cases (received && leb 1 s.ppd_count && delivered)) [
      | inl added ↦ rw added h
      | inr ignored ↦ rw ignored h
    ]

new_ppd-AllUp :
    (received delivered uninitialised : Bool) (fd disk_id sectors : ℕ) (s : State)
    → AllUp s.disks
    → AllUp (handle_new_ppd received delivered uninitialised fd disk_id sectors s).disks
unfolding handle_new_ppd add_new_ppd
new_ppd-AllUp received delivered uninitialised fd disk_id sectors s h =
    elim (Bool-cases (received && is_none (get_by_id disk_id s.disks) && delivered)) [
      | inl added ↦ rw added (start_last-AllUp s.disks _ h)
      | inr ignored ↦ rw ignored h
    ]

-- A step keeps every disk ready.
pub step-AllUp : (e : Event) (s : State) → AllUp s.disks → Leads Up (step e s)
unfolding step handle_pfs_lost
step-AllUp (pfs_message fd msg) s h = handle_pfs_message-Up fd msg s h
step-AllUp pfs_lost s h = lead_ok Up _ h
step-AllUp (new_pfs received delivered fd) s h =
    lead_ok Up _ (new_pfs-AllUp received delivered fd s h)
step-AllUp (ppd_message msg) s h = handle_ppd_message-Up msg s h
step-AllUp (new_ppd received delivered uninitialised fd disk_id sectors) s h =
    lead_ok Up _ (new_ppd-AllUp received delivered uninitialised fd disk_id sectors s h)
step-AllUp (ppd_lost disk_id freed_fd) s h = handle_ppd_lost-Up disk_id freed_fd s h
