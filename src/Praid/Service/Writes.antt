-- ===== src/Praid/Service/Writes.antt =====
-- A write is sent to every disk, and answered when the last of them has acknowledged it.
use fuselage_fat32_utn.Prelude.{
  ℕ, zero, suc, ◌+◌, ◌-◌, ◌%◌, ◌<◌, ◌≡◌, refl, true, List, [], ◌∷◌, ◌++◌, arith, ap, sym, ◌∙◌, All,
  u32_mod, length, length-map, map, Bool-cases, inl, inr, ne→==, if◌then◌else◌,
}
use fuselage_fat32_utn.Prelude.Outcome.{Outcome, ok, ◌>>=◌}
use fuselage_fat32_utn.Praid.Message.{Message, Sent}
use fuselage_fat32_utn.Praid.Requests.{Request, matches, request_add_new}
use fuselage_fat32_utn.Praid.Requests.Search.{
  Oldest, request_search-Oldest, request_take-Oldest, decrement-Oldest,
}
use fuselage_fat32_utn.Praid.Disks.{PpdNode, ready, same_status}
use fuselage_fat32_utn.Praid.Service.{State, sent, fan_out, handle_write, handle_write_answer}

-- Acknowledgements of one write, one behind the other, with all that is sent.
unfoldable pub acknowledge : ℕ → Message → State → Outcome (State × List Sent)
acknowledge zero msg s = ok (s, [])
acknowledge (suc n) msg s = do
  (s, out) ← handle_write_answer msg s
  (s, more) ← acknowledge n msg s
  ok (s, out ++ more)

module _ (msg : Message) (s : State) where
  -- The queue where the request has `k` acknowledgements to come.
  unfoldable pub counted : {r : Request} → Oldest msg.request_id msg.sector s.requests r → ℕ → State
  counted {r} o k = record s { requests = o.before ++ record r { write_count = k } ∷ o.after }

  unfoldable pub counted-Oldest :
      {r : Request} (o : Oldest msg.request_id msg.sector s.requests r) (k : ℕ)
      → Oldest msg.request_id msg.sector
          (o.before ++ record r { write_count = k } ∷ o.after)
          (record r { write_count = k })
  counted-Oldest o k = record {
    before = o.before;
    after = o.after;
    place = refl;
    fits = o.fits;
    older = o.older;
  }

  pub one_less : (k : ℕ) → suc k < u32_mod → (suc k + u32_mod - 1) % u32_mod ≡ k
  one_less k h = omega arith

  acknowledge_one :
      {r : Request} (o : Oldest msg.request_id msg.sector s.requests r) (k : ℕ)
      → suc (suc k) < u32_mod
      → handle_write_answer msg (counted o (suc (suc k))) ≡ ok (counted o (suc k), [])
  unfolding handle_write_answer counted counted-Oldest
  acknowledge_one o k h = rw (request_search-Oldest (counted-Oldest o (suc (suc k)))) (
      rw (decrement-Oldest (counted-Oldest o (suc (suc k))), one_less (suc k) h)
        (rw (request_search-Oldest (counted-Oldest o (suc k)))
          (rw (ne→== (suc k) 0 (omega arith)))))

  -- The queue without the request.
  answered : {r : Request} → Oldest msg.request_id msg.sector s.requests r → State
  answered o = record s { requests = o.before ++ o.after }

  acknowledge_last :
      {r : Request} (o : Oldest msg.request_id msg.sector s.requests r)
      → handle_write_answer msg (counted o 1) ≡ ok (answered o, sent r.pfs_fd msg ∷ [])
  unfolding handle_write_answer counted counted-Oldest answered
  acknowledge_last o = rw (request_search-Oldest (counted-Oldest o 1)) (
      rw (decrement-Oldest (counted-Oldest o 1)) (
        rw (request_search-Oldest (counted-Oldest o 0))
          (rw (request_take-Oldest (counted-Oldest o 0)))))

  acknowledge-counted :
      {r : Request} (o : Oldest msg.request_id msg.sector s.requests r) (n : ℕ)
      → suc n < u32_mod
      → acknowledge (suc n) msg (counted o (suc n)) ≡ ok (answered o, sent r.pfs_fd msg ∷ [])
  unfolding acknowledge
  acknowledge-counted o zero h = rw (acknowledge_last o)
  acknowledge-counted o (suc n) h =
      rw (acknowledge_one o n h) (rw (acknowledge-counted o n (omega arith)))

  silent_counted :
      {r : Request} (o : Oldest msg.request_id msg.sector s.requests r) (k n : ℕ)
      → suc n + k < u32_mod
      → acknowledge k msg (counted o (suc n + k)) ≡ ok (counted o (suc n), [])
  unfolding acknowledge
  silent_counted o zero n h = ap (λ m. ok (counted o m, [])) (omega arith)
  silent_counted o (suc k) n h =
      let more : suc n + suc k ≡ suc (suc (n + k)) = omega arith in
      let less : suc n + k ≡ suc (n + k) = omega arith in
      rw (more, acknowledge_one o (n + k) (omega arith), ← less)
        (rw (silent_counted o k n (omega arith)))

  module _ {r : Request} (o : Oldest msg.request_id msg.sector s.requests r) where
    pub start_counted : counted o r.write_count ≡ s
    unfolding counted
    start_counted = ap (λ q. record s { requests = q }) (sym o.place)

    -- Of the acknowledgements that a pending write waits for, all but the last are kept from the
    -- client: they only count down.
    pub acknowledge-silent :
        (k : ℕ)
        → k < r.write_count
        → r.write_count < u32_mod
        → acknowledge k msg s
          ≡ ok (
            record s {
              requests = o.before ++ record r { write_count = r.write_count - k } ∷ o.after;
            },
            [],
          )
    unfolding counted
    acknowledge-silent k h fits =
        let left : suc (r.write_count - k - 1) ≡ r.write_count - k = omega arith in
        let all : suc (r.write_count - k - 1) + k ≡ r.write_count = omega arith in
        ap (acknowledge k msg) (sym start_counted ∙ ap (counted o) (sym all))
        ∙ silent_counted o k (r.write_count - k - 1) (omega arith)
        ∙ ap (λ m. ok (counted o m, [])) left

    -- The last one takes the request out of the queue and is passed on to the client that wrote, so
    -- the client gets one answer when every disk has written.
    pub acknowledge-answer :
        0 < r.write_count
        → r.write_count < u32_mod
        → acknowledge r.write_count msg s
          ≡ ok (record s { requests = o.before ++ o.after }, sent r.pfs_fd msg ∷ [])
    unfolding answered
    acknowledge-answer h fits =
        let all : suc (r.write_count - 1) ≡ r.write_count = omega arith in
        ap (λ n. acknowledge n msg s) (sym all)
        ∙ ap (acknowledge (suc (r.write_count - 1)) msg)
            (sym start_counted ∙ ap (counted o) (sym all))
        ∙ acknowledge-counted o (r.write_count - 1) (omega arith)

ready_disks : List PpdNode → List PpdNode
ready_disks [] = []
ready_disks (d ∷ ds) = if same_status d.status ready then d ∷ ready_disks ds else ready_disks ds

fan_out-ready :
    (msg : Message) (ds : List PpdNode)
    → (fan_out msg ds).1 ≡ map (λ d. sent d.ppd_fd msg) (ready_disks ds)
unfolding fan_out ready_disks
fan_out-ready msg [] = refl
fan_out-ready msg (d ∷ ds) = elim (Bool-cases (same_status d.status ready)) [
  | inl up ↦ rw up (ap (λ l. sent d.ppd_fd msg ∷ l) (fan_out-ready msg ds))
  | inr down ↦ rw down (fan_out-ready msg ds)
]

ready_disks_all :
    (ds : List PpdNode) → All (λ d. same_status d.status ready ≡ true) ds → ready_disks ds ≡ ds
unfolding ready_disks
ready_disks_all [] h = refl
ready_disks_all (d ∷ ds) h = rw h.0 (ap (λ l. d ∷ l) (ready_disks_all ds h.1))

-- When every connected disk is ready and counted, a write is sent as often as the new request
-- expects acknowledgements, once to each disk.
pub handle_write-mirrors :
    (fd : ℕ) (msg : Message) (s : State)
    → All (λ d. same_status d.status ready ≡ true) s.disks
    → s.ppd_count ≡ length s.disks
    → (r : Request) × ((handle_write fd msg s).0.requests ≡ s.requests ++ r ∷ [])
      × ((handle_write fd msg s).1 ≡ map (λ d. sent d.ppd_fd msg) s.disks)
      × (r.write_count ≡ length (handle_write fd msg s).1)
      × (r.pfs_fd ≡ fd)
      × (matches msg.request_id msg.sector r ≡ true)
unfolding handle_write request_add_new
handle_write-mirrors fd msg s up counted_disks =
    let mirrored : (fan_out msg s.disks).1 ≡ map (λ d. sent d.ppd_fd msg) s.disks =
      fan_out-ready msg s.disks
      ∙ ap (λ ds. map (λ (d : PpdNode). sent d.ppd_fd msg) ds) (ready_disks_all s.disks up) in
    (
      _,
      refl,
      mirrored,
      counted_disks ∙ sym (ap length mirrored ∙ length-map s.disks (λ d. sent d.ppd_fd msg)),
      refl,
      ground arith,
    )
