-- ===== src/Praid/Disks/Members.antt =====
-- Which disks are in the queue, by their numbers.
use fuselage_fat32_utn.Prelude.{
  ℕ, suc, ◌+◌, ◌≡◌, refl, ◌≢◌, none, some, List, [], ◌∷◌, ◌++◌, ◌==◌, not, ◌&&◌, ap, arith, ◌∙◌,
  All, Distinct, length, Bool-cases, inl, inr,
}
use mathlib.Core.Option
use mathlib.Core.Option.{Option}
use fuselage_fat32_utn.Prelude.Outcome.{ok}
use fuselage_fat32_utn.Praid.Disks.{
  PpdNode, ready, same_status, select_unrequested, clear_requested, select_first,
  select_by_less_requests, select_or_first, get_by_id, remove_ppd,
}

unfoldable pub ids : List PpdNode → List ℕ
ids [] = []
ids (d ∷ ds) = d.disk_id ∷ ids ds

pub length-ids : (ds : List PpdNode) → length (ids ds) ≡ length ds
unfolding ids
length-ids [] = refl
length-ids (d ∷ ds) = ap suc (length-ids ds)

pub ids-append : (xs ys : List PpdNode) → ids (xs ++ ys) ≡ ids xs ++ ids ys
unfolding ids
ids-append [] ys = refl
ids-append (x ∷ xs) ys = ap (λ l. x.disk_id ∷ l) (ids-append xs ys)

ids-clear_requested : (ds : List PpdNode) → ids (clear_requested ds) ≡ ids ds
unfolding ids clear_requested
ids-clear_requested [] = refl
ids-clear_requested (d ∷ ds) = ap (λ l. d.disk_id ∷ l) (ids-clear_requested ds)

-- The queue of a result that has one.
abbrev KeepsIds : List PpdNode → Option (PpdNode × List PpdNode) → Type 0
KeepsIds ds none = Unit
KeepsIds ds (some (x, left)) = ids left ≡ ids ds

ids-select_unrequested : (ds : List PpdNode) → KeepsIds ds (select_unrequested ds)
unfolding ids select_unrequested
ids-select_unrequested [] = tt
ids-select_unrequested (d ∷ ds) =
    elim (Bool-cases (not d.requested && same_status d.status ready)) [
      | inl free ↦ rw free
      | inr busy ↦ rw busy (behind (select_unrequested ds) (ids-select_unrequested ds))
    ]
  where
    behind :
        (r : Option (PpdNode × List PpdNode))
        → KeepsIds ds r
        → KeepsIds (d ∷ ds) (Option.map (λ (s, rest). (s, d ∷ rest)) r)
    behind none k = tt
    behind (some (x, left)) k = ap (λ l. d.disk_id ∷ l) k

ids-select_first :
    (ds : List PpdNode) (x : PpdNode) (left : List PpdNode)
    → select_first ds ≡ ok (x, left)
    → ids left ≡ ids ds
unfolding ids select_first
ids-select_first [] x left e = absurd (cc)
ids-select_first (d ∷ ds) x left e = ground arith

-- A choice changes no number.
pub ids-select_by_less_requests :
    (ds : List PpdNode) (x : PpdNode) (left : List PpdNode)
    → select_by_less_requests ds ≡ ok (x, left)
    → ids left ≡ ids ds
unfolding select_by_less_requests
ids-select_by_less_requests ds x left e =
    by_result (select_unrequested ds) (ids-select_unrequested ds) e
  where
    by_result :
        (r : Option (PpdNode × List PpdNode))
        → KeepsIds ds r
        → select_or_first ds r ≡ ok (x, left)
        → ids left ≡ ids ds
    by_result none k e = ids-select_first (clear_requested ds) x left e ∙ ids-clear_requested ds
    by_result (some (y, rest)) k e = ap ids (ground arith) ∙ k

-- A number that PPDQUEUE_getByID does not find is no disk's.
pub get_by_id-none :
    (id : ℕ) (ds : List PpdNode) → get_by_id id ds ≡ none → All (λ k. k ≢ id) (ids ds)
unfolding get_by_id ids
get_by_id-none id [] e = tt
get_by_id-none id (d ∷ ds) e = elim (Bool-cases (d.disk_id == id)) [
  | inl hit ↦ absurd (cc (rw hit at e))
  | inr miss ↦ (ground arith, get_by_id-none id ds (rw miss at e))
]

remove_ppd-All :
    (P : ℕ → Type 0) (id : ℕ) (ds : List PpdNode)
    → All P (ids ds)
    → All P (ids (remove_ppd id ds).0)
unfolding remove_ppd ids
remove_ppd-All P id [] h = tt
remove_ppd-All P id (d ∷ ds) h = elim (Bool-cases (d.disk_id == id)) [
  | inl hit ↦ rw hit h.1
  | inr miss ↦ rw miss (h.0, remove_ppd-All P id ds h.1)
]

-- PPDQUEUE_removePPD takes a disk that is there out of the queue, and no second one.
pub remove_ppd-ids :
    (id : ℕ) (ds : List PpdNode)
    → get_by_id id ds ≢ none
    → Distinct (ids ds)
    → Distinct (ids (remove_ppd id ds).0) × (length (remove_ppd id ds).0 + 1 ≡ length ds)
unfolding remove_ppd get_by_id ids
remove_ppd-ids id [] found h = absurd (found refl)
remove_ppd-ids id (d ∷ ds) found h = elim (Bool-cases (d.disk_id == id)) [
  | inl hit ↦ rw hit (h.1, omega arith)
  | inr miss ↦
      let (apart, fewer) = remove_ppd-ids id ds (rw miss at found) h.1 in
      rw miss ((remove_ppd-All _ id ds h.0, apart), omega (arith, fewer))
]
