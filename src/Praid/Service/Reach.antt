-- ===== src/Praid/Service/Reach.antt =====
-- The states that PRAID comes to from its start, whatever wakes it.
use fuselage_fat32_utn.Prelude.{
  ℕ, ◌≡◌, refl, true, List, [], ◌∷◌, ◌++◌, ap, All, All-mono, length, map, arith,
}
use fuselage_fat32_utn.Prelude.Outcome.{ok}
use fuselage_fat32_utn.Praid.Message.{Message, Sent}
use fuselage_fat32_utn.Praid.Requests.{Request, matches}
use fuselage_fat32_utn.Praid.Disks.{PpdNode, ready, same_status}
use fuselage_fat32_utn.Praid.Disks.Members.{ids}
use fuselage_fat32_utn.Praid.Service.{State, sent, Event, step, handle_write}
use fuselage_fat32_utn.Praid.Service.Counting.{IsCounted, IsExpected, step-IsCounted}
use fuselage_fat32_utn.Praid.Service.Ready.{AllUp, IsUp, step-AllUp}
use fuselage_fat32_utn.Praid.Service.Writes.{handle_write-mirrors}

-- The globals when `main` starts.
abbrev pub initial : State
initial = record { disks = []; ppd_count = 0; clients = []; requests = [] }

pub data Reached : State → Type 0 where
  start : Reached initial
  next :
      {s s' : State} {out : List Sent} (e : Event)
      → Reached s
      → IsExpected e s
      → step e s ≡ ok (s', out)
      → Reached s'

initial-IsCounted : IsCounted initial
unfolding ids
initial-IsCounted = record { count = refl; bound = omega arith; apart = tt }

pub Reached-IsCounted : {s : State} → Reached s → IsCounted s
Reached-IsCounted start = initial-IsCounted
Reached-IsCounted (next {s} {s'} {out} e r x h) =
    step-IsCounted e s (s', out) h x (Reached-IsCounted r)

pub Reached-AllUp : {s : State} → Reached s → AllUp s.disks
Reached-AllUp start = tt
Reached-AllUp (next {s} {s'} {out} e r x h) = step-AllUp e s (Reached-AllUp r) (s', out) h

-- In every state that PRAID reaches by events that are expected there, a write of a file system is
-- sent to each connected disk once, and the new request waits for as many acknowledgements.
pub handle_write-Reached :
    {s : State} (fd : ℕ) (msg : Message)
    → Reached s
    → (r : Request) × ((handle_write fd msg s).0.requests ≡ s.requests ++ r ∷ [])
      × ((handle_write fd msg s).1 ≡ map (λ d. sent d.ppd_fd msg) s.disks)
      × (r.write_count ≡ length (handle_write fd msg s).1)
      × (r.pfs_fd ≡ fd)
      × (matches msg.request_id msg.sector r ≡ true)
handle_write-Reached {s} fd msg r =
    let up : All (λ (d : PpdNode). same_status d.status ready ≡ true) s.disks =
      All-mono {P = IsUp} (λ d u. ap (λ t. same_status t ready) u) s.disks (Reached-AllUp r) in
    handle_write-mirrors fd msg s up (Reached-IsCounted r).count
