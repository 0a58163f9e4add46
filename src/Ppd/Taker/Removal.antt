-- ===== src/Ppd/Taker/Removal.antt =====
-- TAKER_takeRequest removes the candidate and nothing else.
use fuselage_fat32_utn.Prelude.{
  ℕ, zero, suc, ◌≡◌, Option, none, some, List, [], ◌∷◌, ◌++◌, ap, get_elem?,
}
use fuselage_fat32_utn.Prelude.Outcome.{Outcome, ok}
use fuselage_fat32_utn.Ppd.Taker.{Request, candidate, take_at, take_candidate}

abbrev pub Split : List Request → Request → Outcome (Request × List Request) → Type 0
Split queue r taken =
    (before : List Request) × (after : List Request) × (queue ≡ before ++ r ∷ after)
    × (taken ≡ ok (r, before ++ after))

take_at-Split :
    (queue : List Request) (i : ℕ) (r : Request)
    → get_elem? queue i ≡ some r
    → Split queue r (take_at queue i)
unfolding take_at
take_at-Split [] i r e = absurd (cc)
take_at-Split (x ∷ xs) zero r e = ([], xs, cc, cc)
take_at-Split (x ∷ xs) (suc i) r e =
    let (before, after, here, taken) = take_at-Split xs i r e in
    (x ∷ before, after, ap (λ q. x ∷ q) here, rw taken)

-- The candidate that `prevCandidate` stands for is taken out of the queue, and the others stay in
-- their order.
pub take_candidate-Split :
    (queue : List Request) (prev : Option ℕ) (r : Request)
    → candidate queue prev ≡ some r
    → Split queue r (take_candidate queue prev)
unfolding take_candidate candidate
take_candidate-Split queue none r e = take_at-Split queue 0 r e
take_candidate-Split queue (some i) r e = take_at-Split queue (suc i) r e
