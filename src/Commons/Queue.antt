-- ===== src/Commons/Queue.antt =====
-- The queues of all the processes (Commons/src/tad_queue.c). The nodes from `begin` on are a list;
-- `end` is the position of the node that the `end` pointer names, or none for NULL. A node that is
-- appended hangs behind that node, so what hung there before is lost.
pub mod Order
use fuselage_fat32_utn.Prelude.{
  ℕ, zero, suc, ◌+◌, ◌-◌, ◌%◌, Bool, Option, none, some, List, [], ◌∷◌, ◌++◌, length, take,
  get_elem?, if◌then◌else◌, u32_mod,
}
use fuselage_fat32_utn.Prelude.Outcome.{Outcome, ok, fault, ◌>>=◌, need}

-- queue_t
pub record Queue {ℓ} (A : Type ℓ) : Type ℓ where
  pub nodes : List A
  pub end : Option ℕ

-- QUEUE_initialize
abbrev pub initialize {ℓ} : {A : Type ℓ} → Queue A
initialize = record { nodes = []; end = none }

-- QUEUE_appendNode
unfoldable pub append_node {ℓ} : {A : Type ℓ} → Queue A → A → Outcome (Queue A)
append_node line item = elim line.nodes [
  | [] ↦ ok (record { nodes = item ∷ []; end = some 0 })
  | x ∷ xs ↦ need line.end >>= λ end. need (get_elem? line.nodes end) >>= λ _.
      ok (record { nodes = take (suc end) line.nodes ++ item ∷ []; end = some (suc end) })
]

-- What is left of the queue with its first node gone: the others have one position less.
abbrev pub earlier : Option ℕ → Option ℕ
earlier none = none
earlier (some zero) = none
earlier (some (suc i)) = some i

-- QUEUE_takeNode
abbrev pub take_first {ℓ} : {A : Type ℓ} → List A → Option ℕ → Option A × Queue A
take_first [] end = (none, record { nodes = []; end = none })
take_first (x ∷ []) end = (some x, record { nodes = []; end = none })
take_first (x ∷ y ∷ rest) end = (some x, record { nodes = y ∷ rest; end = earlier end })

unfoldable pub take_node {ℓ} : {A : Type ℓ} → Queue A → Option A × Queue A
take_node line = take_first line.nodes line.end

-- QUEUE_searchNode, with the comparison of the first `dataLength` bytes.
unfoldable pub search_node {ℓ} : {A : Type ℓ} → (memcmp_is_zero : A → Bool) → List A → Option A
search_node same [] = none
search_node same (x ∷ xs) = if same x then some x else search_node same xs

-- QUEUE_length. The counter is a `uint32_t`.
unfoldable pub count_from {ℓ} : {A : Type ℓ} → (counter : ℕ) → List A → ℕ
count_from counter [] = counter
count_from counter (x ∷ xs) = count_from ((counter + 1) % u32_mod) xs

unfoldable pub queue_length {ℓ} : {A : Type ℓ} → Queue A → ℕ
unfolding count_from
queue_length line = count_from 0 line.nodes

-- QUEUE_appendQueue: with no node, or with `end` at NULL, the first queue takes the fields of the other.
abbrev pub shifted : ℕ → Option ℕ → Option ℕ
shifted i none = none
shifted i (some j) = some (suc i + j)

abbrev pub join {ℓ} : {A : Type ℓ} → List A → Option ℕ → Queue A → Outcome (Queue A)
join [] end appended = ok appended
join (x ∷ xs) none appended = ok appended
join (x ∷ xs) (some i) appended = do
  _ ← need (get_elem? (x ∷ xs) i)
  ok (record { nodes = take (suc i) (x ∷ xs) ++ appended.nodes; end = shifted i appended.end })

unfoldable pub append_queue {ℓ} : {A : Type ℓ} → Queue A → Queue A → Outcome (Queue A)
append_queue queue_1 queue_to_append = join queue_1.nodes queue_1.end queue_to_append
