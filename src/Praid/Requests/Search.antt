-- ===== src/Praid/Requests/Search.antt =====
-- The searches of the request queue find the oldest request with the number and the sector.
use fuselage_fat32_utn.Prelude.{
  ℕ, ◌+◌, ◌-◌, ◌%◌, ◌≡◌, refl, true, false, none, some, List, [], ◌∷◌, ◌++◌, ap, All, u32_mod,
  Bool-cases, inl, inr, ◌⊎◌,
}
use fuselage_fat32_utn.Praid.Requests.{
  Request, matches, request_take, request_search, decrement_write_count,
}

-- The queue with `r` as its oldest request of that number and sector.
pub record Oldest (request_id sector : ℕ) (queue : List Request) (r : Request) : Type 0 where
  pub before : List Request
  pub after : List Request
  pub place : queue ≡ before ++ r ∷ after
  pub fits : matches request_id sector r ≡ true
  pub older : All (λ q. matches request_id sector q ≡ false) before

module _ (request_id sector : ℕ) where
  search_at :
      (before : List Request) (r : Request) (after : List Request)
      → matches request_id sector r ≡ true
      → All (λ q. matches request_id sector q ≡ false) before
      → (request_search request_id sector (before ++ r ∷ after) ≡ some r)
        × (request_take request_id sector (before ++ r ∷ after) ≡ (some r, before ++ after))
        × (decrement_write_count request_id sector (before ++ r ∷ after)
            ≡ before ++ record r { write_count = (r.write_count + u32_mod - 1) % u32_mod } ∷ after)
  unfolding request_search request_take decrement_write_count
  search_at [] r after fits older = (rw fits, rw fits, rw fits)
  search_at (q ∷ before) r after fits older =
      let (found, taken, less) = search_at before r after fits older.1 in
      (rw older.0 found, rw (older.0, taken), rw older.0 (ap (λ l. q ∷ l) less))

  pub no_match :
      (queue : List Request)
      → All (λ q. matches request_id sector q ≡ false) queue
      → (request_search request_id sector queue ≡ none)
        × (request_take request_id sector queue ≡ (none, queue))
  unfolding request_search request_take
  no_match [] older = (refl, refl)
  no_match (q ∷ queue) older =
      let (found, taken) = no_match queue older.1 in (rw older.0 found, rw (older.0, taken))

  -- A queue has an oldest such request, or none at all.
  pub oldest_or_none :
      (queue : List Request)
      → ((r : Request) × Oldest request_id sector queue r)
        ⊎ All (λ q. matches request_id sector q ≡ false) queue
  oldest_or_none [] = inr tt
  oldest_or_none (q ∷ queue) = elim (Bool-cases (matches request_id sector q)) [
    | inl fits ↦
        inl (q, record { before = []; after = queue; place = refl; fits = fits; older = tt })
    | inr other ↦ elim (oldest_or_none queue) [
      | inl (r, o) ↦ inl (
        r,
        record {
          before = q ∷ o.before;
          after = o.after;
          place = ap (λ l. q ∷ l) o.place;
          fits = o.fits;
          older = (other, o.older);
        },
      )
      | inr nothing ↦ inr (other, nothing)
    ]
  ]

module _ {request_id sector : ℕ} {queue : List Request} {r : Request}
    (o : Oldest request_id sector queue r) where
  pub request_search-Oldest : request_search request_id sector queue ≡ some r
  request_search-Oldest =
      rw o.place (search_at request_id sector o.before r o.after o.fits o.older).0

  pub request_take-Oldest : request_take request_id sector queue ≡ (some r, o.before ++ o.after)
  request_take-Oldest = rw o.place (search_at request_id sector o.before r o.after o.fits o.older).1

  pub decrement-Oldest :
      decrement_write_count request_id sector queue
      ≡ o.before ++ record r { write_count = (r.write_count + u32_mod - 1) % u32_mod } ∷ o.after
  decrement-Oldest = rw o.place (search_at request_id sector o.before r o.after o.fits o.older).2
