-- ===== src/Praid/Disks/Choice.antt =====
-- Which disk a read goes to: PPDQUEUE_selectByLessRequests.
use fuselage_fat32_utn.Prelude.{
  ℕ, zero, suc, ◌≡◌, refl, true, false, some, List, [], ◌∷◌, ◌++◌, ap, All, All-append, map, length,
  append_assoc,
}
use fuselage_fat32_utn.Prelude.Outcome.{Outcome, ok, ◌>>=◌}
use fuselage_fat32_utn.Praid.Disks.{
  PpdNode, ready, same_status, select_unrequested, select_by_less_requests,
}

abbrev marked : PpdNode → PpdNode
marked d = record d { requested = true }

-- The disk can be chosen in the first loop.
abbrev pub IsFree : PpdNode → Type 0
IsFree d = (d.requested ≡ false) × (same_status d.status ready ≡ true)

select_unrequested-skip :
    (before after : List PpdNode) (d : PpdNode)
    → All (λ b. b.requested ≡ true) before
    → IsFree d
    → select_unrequested (before ++ d ∷ after) ≡ some (marked d, before ++ marked d ∷ after)
unfolding select_unrequested
select_unrequested-skip [] after d h free = rw (free.0, free.1)
select_unrequested-skip (b ∷ before) after d h free =
    rw (h.0, select_unrequested-skip before after d h.1 free)

-- The choices of several reads in a row, and the queue after them.
unfoldable pub choices : ℕ → List PpdNode → Outcome (List PpdNode × List PpdNode)
choices zero queue = ok ([], queue)
choices (suc n) queue = do
  (d, queue) ← select_by_less_requests queue
  (ds, queue) ← choices n queue
  ok (d ∷ ds, queue)

choices-from :
    (before after : List PpdNode)
    → All (λ b. b.requested ≡ true) before
    → All IsFree after
    → choices (length after) (before ++ after) ≡ ok (map marked after, before ++ map marked after)
unfolding choices select_by_less_requests
choices-from before [] h free = refl
choices-from before (d ∷ after) h free =
    let rest =
      choices-from (before ++ marked d ∷ []) after
        (All-append (λ b. b.requested ≡ true) before (marked d ∷ []) h (refl, tt)) free.1 in
    rw (select_unrequested-skip before after d h free.0) (
      rw (← append_assoc before (marked d ∷ []) after) (
        rw rest (
          ap (λ l. ok (map marked (d ∷ after), l))
            (append_assoc before (marked d ∷ []) (map marked after)))))

-- Over disks that are ready and not yet requested, as many reads as there are disks go to each disk
-- once, in their order, and leave every disk requested.
pub choices-round :
    (ds : List PpdNode) → All IsFree ds → choices (length ds) ds ≡ ok (map marked ds, map marked ds)
choices-round ds free = choices-from [] ds tt free
