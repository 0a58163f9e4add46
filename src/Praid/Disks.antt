-- ===== src/Praid/Disks.antt =====
-- The connected disks (PRAID/src/ppd_queue.c). A pointer into the queue is the node itself; what is
-- written through one is written in the list.
pub mod Choice
pub mod Descriptors
pub mod Members
use fuselage_fat32_utn.Prelude.{
  ℕ, ◌+◌, ◌%◌, Bool, true, false, not, none, some, List, [], ◌∷◌, ◌++◌, ◌==◌, ◌&&◌, if◌then◌else◌,
  u32_mod,
}
use mathlib.Core.Option
use mathlib.Core.Option.{Option}
use fuselage_fat32_utn.Prelude.Outcome.{Outcome, ok, fault}

-- The states of a disk: READY, WAIT_SYNCH and SYNCHRONIZING.
pub data Status : Type 0 where
  ready wait_synch synchronizing : Status

abbrev pub same_status : Status → Status → Bool
same_status ready ready = true
same_status wait_synch wait_synch = true
same_status synchronizing synchronizing = true
same_status _ _ = false

-- ppd_node_t
pub record PpdNode : Type 0 where
  pub ppd_fd : ℕ
  pub disk_id : ℕ
  pub requested : Bool
  pub status : Status
  pub sectors_count : ℕ

-- PPDQUEUE_addNewPPD: the queue and PPD_COUNT. It leaves `requested` as `malloc` delivered it.
unfoldable pub add_new_ppd :
    (uninitialised : Bool) (ppd_fd disk_id sectors_count : ℕ) → List PpdNode × ℕ → List PpdNode × ℕ
add_new_ppd uninitialised ppd_fd disk_id sectors_count (queue, ppd_count) = (
  queue
      ++ record {
        ppd_fd = ppd_fd;
        disk_id = disk_id;
        requested = uninitialised;
        status = if ppd_count == 0 then ready else wait_synch;
        sectors_count = sectors_count;
      }
        ∷ [],
  (ppd_count + 1) % u32_mod,
)

-- The first loop of PPDQUEUE_selectByLessRequests.
unfoldable pub select_unrequested : List PpdNode → Option (PpdNode × List PpdNode)
select_unrequested [] = none
select_unrequested (d ∷ ds) =
    if not d.requested && same_status d.status ready
    then some (record d { requested = true }, record d { requested = true } ∷ ds)
    else Option.map (λ (s, rest). (s, d ∷ rest)) (select_unrequested ds)

unfoldable pub clear_requested : List PpdNode → List PpdNode
clear_requested [] = []
clear_requested (d ∷ ds) = record d { requested = false } ∷ clear_requested ds

-- The second loop: with every disk requested the first one is taken, whatever its state.
unfoldable pub select_first : List PpdNode → Outcome (PpdNode × List PpdNode)
select_first [] = fault
select_first (d ∷ ds) = ok (record d { requested = true }, record d { requested = true } ∷ ds)

abbrev pub select_or_first :
    List PpdNode → Option (PpdNode × List PpdNode) → Outcome (PpdNode × List PpdNode)
select_or_first queue none = select_first (clear_requested queue)
select_or_first queue (some found) = ok found

unfoldable pub select_by_less_requests : List PpdNode → Outcome (PpdNode × List PpdNode)
unfolding select_unrequested clear_requested select_first
select_by_less_requests queue = select_or_first queue (select_unrequested queue)

-- The three searches differ in the field that they compare.
abbrev pub find_ppd : (PpdNode → Bool) → List PpdNode → Option PpdNode
find_ppd test [] = none
find_ppd test (d ∷ ds) = if test d then some d else find_ppd test ds

unfoldable pub get_by_fd : ℕ → List PpdNode → Option PpdNode
get_by_fd fd = find_ppd (λ d. d.ppd_fd == fd)

unfoldable pub get_by_id : ℕ → List PpdNode → Option PpdNode
get_by_id disk_id = find_ppd (λ d. d.disk_id == disk_id)

unfoldable pub get_by_status : Status → List PpdNode → Option PpdNode
get_by_status status = find_ppd (λ d. same_status d.status status)

-- PPDQUEUE_removePPD: the queue, and 0 or 1 for found or not.
unfoldable pub remove_ppd : ℕ → List PpdNode → List PpdNode × Bool
remove_ppd disk_id [] = ([], false)
remove_ppd disk_id (d ∷ ds) =
    let (rest, found) = remove_ppd disk_id ds in
    if d.disk_id == disk_id then (ds, true) else (d ∷ rest, found)
