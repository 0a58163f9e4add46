-- ===== src/Ppd/Taker.antt =====
-- Which request is served next (PPD/src/ppd_taker.c). A queue is the list of its requests, and
-- `prevCandidate` is the position of the node before the candidate, with `none` for NULL.
pub mod Nearest
pub mod Removal
use fuselage_fat32_utn.Prelude.{
  ℕ, zero, suc, ◌+◌, ◌*◌, ◌%◌, ◌≡◌, Bool, true, false, not, ◌&&◌, Option, none, some, List, [], ◌∷◌,
  ◌==◌, ltb, leb, if◌then◌else◌, get_elem?, u32_mod,
}
use fuselage_fat32_utn.Prelude.Outcome.{Outcome, ok, fault, ◌>>=◌, ◌>>◌, need}
use fuselage_fat32_utn.Ppd.Geometry.{Chs, Disk, abs_diff, turn_to_chs, distance_time}

-- NIPC_type
pub data NipcType : Type 0 where
  handshake read_sectors write_sectors ppdconsole_info ppdconsole_trace ppdconsole_exit : NipcType

abbrev pub is_write : NipcType → Bool
is_write write_sectors = true
is_write _ = false

pub record Request : Type 0 where
  pub type : NipcType
  pub id : ℕ
  pub address : Chs
  pub len : ℕ
  pub sender : ℕ
  pub payload : Option (List ℕ)

-- conditionFunction_t; a C truth value is 0 or 1
abbrev pub Condition : Type 0
Condition = Chs → Chs → Bool

abbrev pub identity : Condition
identity a b = true

abbrev pub less_than : Condition
less_than a b = leb a.cylinder b.cylinder

abbrev pub greater_than : Condition
greater_than a b = leb b.cylinder a.cylinder

-- `TAKER_near(curr, headP, candidate, condition)`
unfoldable pub near : Request → Chs → Request → Condition → ℕ
near curr head candidate condition =
    if condition curr.address head
    then (if condition candidate.address head
        then (if ltb (abs_diff curr.address.cylinder head.cylinder)
              (abs_diff candidate.address.cylinder head.cylinder)
            then 2
            else (if abs_diff curr.address.cylinder head.cylinder
                  == abs_diff candidate.address.cylinder head.cylinder
                then (if is_write curr.type && not (is_write candidate.type) then 2 else 0)
                else 0))
        else 1)
    else 0

-- The request that a value of `prevCandidate` stands for.
unfoldable pub candidate : List Request → Option ℕ → Option Request
candidate queue none = get_elem? queue 0
candidate queue (some i) = get_elem? queue (suc i)

-- The `while` of TAKER_getNextNode: `position` is that of `currNode`, and the list is what follows.
unfoldable pub next_loop :
    List Request
    → Chs
    → Condition
    → (rest : List Request) (position : ℕ) → Option ℕ
    → Outcome (Option ℕ)
unfolding near candidate
next_loop queue head condition [] position prev = ok prev
next_loop queue head condition (next ∷ rest) position prev = do
  best ← need (candidate queue prev)
  next_loop queue head condition rest (position + 1)
      (if ltb 0 (near next head best condition) then some position else prev)

-- Whether the candidate is of use is decided by the first node, if it is the candidate.
unfoldable pub is_candidate : Request → Chs → Condition → Option ℕ → Bool
is_candidate first head condition none = condition first.address head
is_candidate first head condition (some i) = true

-- TAKER_getNextNode: the new `*prevCandidate` and the result. An empty queue is read through NULL.
unfoldable pub get_next_node :
    Disk → List Request → (head_position : ℕ) → Option ℕ → Condition → Outcome (Option ℕ × Bool)
unfolding next_loop is_candidate
get_next_node disk [] head_position prev condition = fault
get_next_node disk (first ∷ rest) head_position prev condition = do
  let head = turn_to_chs disk head_position
  prev ← next_loop (first ∷ rest) head condition rest 0 prev
  ok (prev, is_candidate first head condition prev)

-- Unlinks the node at a position.
unfoldable pub take_at : List Request → ℕ → Outcome (Request × List Request)
take_at [] i = fault
take_at (r ∷ rest) zero = ok (r, rest)
take_at (r ∷ rest) (suc i) = do (taken, left) ← take_at rest i; ok (taken, r ∷ left)

unfoldable pub take_candidate : List Request → Option ℕ → Outcome (Request × List Request)
unfolding take_at
take_candidate queue none = take_at queue 0
take_candidate queue (some i) = take_at queue (suc i)

-- TAKER_takeRequest: the request, what is left of the queue, and the delay with the way added.
unfoldable pub take_request :
    Disk
    → (trace_position : ℕ) → List Request
    → Option ℕ
    → (delay : ℕ) → Outcome (Request × List Request × ℕ)
unfolding take_candidate distance_time
take_request disk trace_position queue prev delay = do
  (request, left) ← take_candidate queue prev
  way ← distance_time disk trace_position request.address
  ok (request, left, (delay + way) % u32_mod)
