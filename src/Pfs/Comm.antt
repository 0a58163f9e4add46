-- ===== src/Pfs/Comm.antt =====
-- The sectors that PFS asks for (PFS/src/pfs_comm.c). The answers may come in another order than the
-- requests, and are put in order at the end. The buffer of the answers is the list of the messages
-- of 523 bytes in it. `arrivals` says what lies on the socket in each round of the loop: a message
-- or nothing; `send` is not seen to fail, where the program exits.
pub mod Order
use fuselage_fat32_utn.Prelude.{
  ℕ, ◌+◌, ◌%◌, Option, none, some, List, [], ◌∷◌, ◌++◌, ltb, ◌==◌, if◌then◌else◌, length, drop,
  bytes16, bytes32, u32_mod, memcpy, word_at,
}
use fuselage_fat32_utn.Prelude.Outcome.{Outcome, ok, out_of_fuel, ◌>>=◌}
use fuselage_fat32_utn.Pfs.BootSector.{BootSector}

-- The message of eleven bytes that asks for a sector; READ_SECTORS is 1.
abbrev pub read_message : (request_id sector : ℕ) → List ℕ
read_message request_id sector = 1 ∷ bytes16 8 ++ (bytes32 request_id ++ bytes32 sector)

-- The inner loop of ppd_reconstruct_data_from_responses: what one place of `buf` holds behind it.
unfoldable pub copy_matching :
    (bytes_per_sector sector : ℕ) → List ℕ → List (List ℕ) → Outcome (List ℕ)
copy_matching bytes_per_sector sector slot [] = ok slot
copy_matching bytes_per_sector sector slot (response ∷ responses) = do
  number ← word_at response 7
  slot ← (if sector == number then memcpy bytes_per_sector (drop 11 response) else ok slot)
  copy_matching bytes_per_sector sector slot responses

-- ppd_reconstruct_data_from_responses, from an index on. `uninitialised` is what `malloc` left.
unfoldable pub reconstruct :
    BootSector
    → (uninitialised : ℕ → List ℕ) → List (List ℕ)
    → (index : ℕ) → List ℕ
    → Outcome (List (List ℕ))
unfolding copy_matching
reconstruct boot uninitialised responses index [] = ok []
reconstruct boot uninitialised responses index (sector ∷ sectors) = do
  slot ← copy_matching boot.bytes_per_sector sector (uninitialised index) responses
  rest ← reconstruct boot uninitialised responses (index + 1) sectors
  ok (slot ∷ rest)

-- The locals of the loop of ppd_read_sectors, the sectors that are not yet asked for, and what has
-- been sent.
pub record Reading : Type 0 where
  pub request_id : ℕ
  pub to_ask : List ℕ
  pub sent : List (List ℕ)
  pub responses : List (List ℕ)

abbrev pub ask : List ℕ → Reading → Reading
ask [] r = r
ask (sector ∷ sectors) r = record r {
  request_id = (r.request_id + 1) % u32_mod;
  to_ask = sectors;
  sent = r.sent ++ read_message r.request_id sector ∷ [];
}

abbrev pub receive : Option (List ℕ) → Reading → Reading
receive none r = r
receive (some message) r = record r { responses = r.responses ++ message ∷ [] }

-- The loop, until as many answers are there as sectors were asked for.
unfoldable pub read_loop : (count : ℕ) → List (Option (List ℕ)) → Reading → Outcome Reading
read_loop count [] r = if ltb (length r.responses) count then out_of_fuel else ok r
read_loop count (arrival ∷ arrivals) r =
    let rest = read_loop count arrivals (receive arrival (ask r.to_ask r)) in
    if ltb (length r.responses) count then rest else ok r

-- ppd_read_sectors: the sectors' data, the requests that were sent, and the next request's number.
unfoldable pub ppd_read_sectors :
    BootSector
    → (uninitialised : ℕ → List ℕ) → (arrivals : List (Option (List ℕ))) → (request_id : ℕ) → List ℕ
    → Outcome (List (List ℕ) × List (List ℕ) × ℕ)
unfolding read_loop reconstruct
ppd_read_sectors boot uninitialised arrivals request_id sectors = do
  r ←
      read_loop (length sectors) arrivals
        (record { request_id = request_id; to_ask = sectors; sent = []; responses = [] })
  data_read ← reconstruct boot uninitialised r.responses 0 sectors
  ok (data_read, r.sent, r.request_id)
