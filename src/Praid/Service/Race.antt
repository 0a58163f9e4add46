-- ===== src/Praid/Service/Race.antt =====
-- Acknowledgements of one write by several threads (PRAID/src/ppd_thread.c). A thread counts down
-- under `REQUEST_QUEUE_MUTEX`, and behind it reads the count again, answers and frees the request.
-- A pointer to a request that has been freed is read with a fault.
use fuselage_fat32_utn.Prelude.{
  ℕ, zero, suc, ◌<◌, ◌≡◌, refl, List, [], ◌∷◌, ◌++◌, ◌==◌, arith, All, All-append, u32_mod,
  if◌then◌else◌, false, subst, inl, inr, Option-cases,
}
use fuselage_fat32_utn.Prelude.Outcome.{Outcome, ok, fault, ◌>>=◌, need}
use fuselage_fat32_utn.Praid.Message.{Message, Sent}
use fuselage_fat32_utn.Praid.Requests.{
  Request, matches, request_search, request_take, decrement_write_count,
}
use fuselage_fat32_utn.Praid.Requests.Search.{
  Oldest, no_match, request_search-Oldest, request_take-Oldest, decrement-Oldest,
}
use fuselage_fat32_utn.Praid.Service.{State, sent, handle_write_answer}
use fuselage_fat32_utn.Praid.Service.Writes.{counted, counted-Oldest, one_less, start_counted}

-- The part under the mutex.
unfoldable pub count_down : Message → State → Outcome State
count_down msg s = do
  _ ← need (request_search msg.request_id msg.sector s.requests)
  ok (record s { requests = decrement_write_count msg.request_id msg.sector s.requests })

-- The part behind it.
unfoldable pub settle : Message → State → Outcome (State × List Sent)
settle msg s = do
  request ← need (request_search msg.request_id msg.sector s.requests)
  if request.write_count == 0
      then ok (
        record s { requests = (request_take msg.request_id msg.sector s.requests).1 },
        sent request.pfs_fd msg ∷ [],
      )
      else ok (s, [])

-- The first parts of several threads, before any second one.
unfoldable pub count_downs : ℕ → Message → State → Outcome State
unfolding count_down
count_downs zero msg s = ok s
count_downs (suc n) msg s = do s ← count_down msg s; count_downs n msg s

-- The second parts of two of them.
unfoldable pub settle_twice : Message → State → Outcome (State × List Sent)
unfolding settle
settle_twice msg s = do (s, out) ← settle msg s; (s, more) ← settle msg s; ok (s, out ++ more)

-- Without another thread in between, the two parts are the acknowledgement as a whole.
pub settle-count_down :
    (msg : Message) (s : State)
    → (do s ← count_down msg s; settle msg s) ≡ handle_write_answer msg s
unfolding count_down settle handle_write_answer
settle-count_down msg s =
    elim (Option-cases (request_search msg.request_id msg.sector s.requests)) [
      | inl missing ↦ rw missing refl
      | inr (r, found) ↦ rw found refl
    ]

module _ (msg : Message) (s : State) {r : Request}
    (o : Oldest msg.request_id msg.sector s.requests r) where
  count_down-counted :
      (k : ℕ) → suc k < u32_mod → count_down msg (counted msg s o (suc k)) ≡ ok (counted msg s o k)
  unfolding count_down counted counted-Oldest
  count_down-counted k h =
      rw (request_search-Oldest (counted-Oldest msg s o (suc k)))
        (rw (decrement-Oldest (counted-Oldest msg s o (suc k)), one_less msg s k h) refl)

  count_downs-counted :
      (k : ℕ) → k < u32_mod → count_downs k msg (counted msg s o k) ≡ ok (counted msg s o 0)
  unfolding count_downs
  count_downs-counted zero h = refl
  count_downs-counted (suc k) h = rw (count_down-counted k h) (count_downs-counted k (omega arith))

  settle_twice-fault :
      All (λ q. matches msg.request_id msg.sector q ≡ false) o.after
      → settle_twice msg (counted msg s o 0) ≡ fault
  unfolding settle_twice settle counted counted-Oldest
  settle_twice-fault alone =
      let o' = counted-Oldest msg s o 0 in
      let gone = no_match msg.request_id msg.sector (o.before ++ o.after) (
        All-append (λ q. matches msg.request_id msg.sector q ≡ false) o.before o.after o.older
          alone) in
      rw (request_search-Oldest o') (rw (request_take-Oldest o') (rw gone.0 refl))

  -- When all the acknowledgements, two or more, that a write waits for are counted before a thread looks at the
  -- count, two threads both find it 0: the first one answers and frees the request, and the second
  -- one reads it. The request must be the only one with its number and sector.
  pub count_downs-settle_twice :
      1 < r.write_count
      → r.write_count < u32_mod
      → All (λ q. matches msg.request_id msg.sector q ≡ false) o.after
      → (do s ← count_downs r.write_count msg s; settle_twice msg s) ≡ fault
  count_downs-settle_twice several bound alone =
      let counts : count_downs r.write_count msg s ≡ ok (counted msg s o 0) =
        subst (λ t. count_downs r.write_count msg t ≡ ok (counted msg s o 0))
          (start_counted msg s o) (count_downs-counted r.write_count bound) in
      rw counts (settle_twice-fault alone)
