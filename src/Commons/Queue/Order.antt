-- ===== src/Commons/Queue/Order.antt =====
-- A queue keeps its order, as long as no empty queue is appended.
use fuselage_fat32_utn.Prelude.{
  ℕ, ◌≡◌, refl, ap, arith, none, some, List, [], ◌∷◌, ◌++◌, length, length-append, get_elem?-some,
  take-all, append-nil,
}
use fuselage_fat32_utn.Prelude.Outcome.{ok, fault}
use fuselage_fat32_utn.Commons.Queue.{Queue, append_node, take_node, append_queue}

-- The queue with some items, whose `end` names the last one or is NULL when there is none.
abbrev pub queue_of {ℓ} : {A : Type ℓ} → List A → Queue A
queue_of [] = record { nodes = []; end = none }
queue_of (x ∷ xs) = record { nodes = x ∷ xs; end = some (length xs) }

abbrev joined {ℓ} : {A : Type ℓ} → A → List A → List A → ℕ → Queue A
joined x xs ys i = record { nodes = x ∷ xs ++ ys; end = some i }

abbrev behind {ℓ} : {A : Type ℓ} → A → List A → A → ℕ → Queue A
behind x xs item i = joined x xs (item ∷ []) i

-- An item is appended behind all others.
pub append_node-queue_of {ℓ} :
    {A : Type ℓ} (xs : List A) (item : A)
    → append_node (queue_of xs) item ≡ ok (queue_of (xs ++ item ∷ []))
unfolding append_node
append_node-queue_of [] item = refl
append_node-queue_of (x ∷ xs) item =
    let (l, e) = get_elem?-some (x ∷ xs) (length xs) (omega arith) in
    rw (e, take-all xs (length xs) refl, length-append xs (item ∷ []))
      (ap ok (ap (behind x xs item) (omega arith)))

-- Items leave in the order of the list, and leave a queue of the others.
pub take_node-queue_of {ℓ} :
    {A : Type ℓ} (x : A) (xs : List A) → take_node (queue_of (x ∷ xs)) ≡ (some x, queue_of xs)
unfolding take_node
take_node-queue_of x [] = refl
take_node-queue_of x (y ∷ xs) = refl

-- A queue with items is appended as a whole.
pub append_queue-queue_of {ℓ} :
    {A : Type ℓ} (xs : List A) (y : A) (ys : List A)
    → append_queue (queue_of xs) (queue_of (y ∷ ys)) ≡ ok (queue_of (xs ++ y ∷ ys))
unfolding append_queue
append_queue-queue_of [] y ys = refl
append_queue-queue_of (x ∷ xs) y ys =
    let (l, e) = get_elem?-some (x ∷ xs) (length xs) (omega arith) in
    rw (e, take-all xs (length xs) refl, length-append xs (y ∷ ys))
      (ap ok (ap (joined x xs (y ∷ ys)) (omega arith)))

-- When an empty queue is appended to one with items, the next item cannot be appended any more.
pub append_queue-empty {ℓ} :
    {A : Type ℓ} (x : A) (xs : List A) (item : A)
    → (line : Queue A) × (append_queue (queue_of (x ∷ xs)) (queue_of []) ≡ ok line)
      × (line.nodes ≡ x ∷ xs)
      × (append_node line item ≡ fault)
unfolding append_queue append_node
append_queue-empty x xs item =
    let (l, e) = get_elem?-some (x ∷ xs) (length xs) (omega arith) in
    (
      record { nodes = x ∷ xs; end = none },
      rw (e, take-all xs (length xs) refl, append-nil xs),
      refl,
      refl,
    )
