-- ===== src/Pfs/Comm/Order.antt =====
-- The answers of the disk may come in any order.
use fuselage_fat32_utn.Prelude.{
  ℕ, suc, ◌+◌, ◌%◌, ◌<◌, ◌≤◌, ◌≡◌, refl, sym, ap, ◌∙◌, arith, ◌⊎◌, inl, inr, Bool, true, false,
  ◌||◌, Option, none, some, List, [], ◌∷◌, ◌++◌, map, ltb, lt→ltb, ◌==◌, ==_iff, length,
  length-append, length-map, bytes16, bytes32, u32_mod, word32-bytes32, memcpy_all, All, Bool-cases,
  append_assoc, append-nil,
}
use fuselage_fat32_utn.Prelude.Outcome.{ok}
use fuselage_fat32_utn.Pfs.BootSector.{BootSector}
use fuselage_fat32_utn.Pfs.Comm.{
  read_message, copy_matching, reconstruct, Reading, read_loop, ppd_read_sectors,
}

-- The messages among the arrivals.
abbrev pub messages : List (Option (List ℕ)) → List (List ℕ)
messages [] = []
messages (none ∷ arrivals) = messages arrivals
messages (some message ∷ arrivals) = message ∷ messages arrivals

-- The requests for some sectors, numbered from a number on.
abbrev pub requests : ℕ → List ℕ → List (List ℕ)
requests request_id [] = []
requests request_id (sector ∷ sectors) =
    read_message request_id sector ∷ requests ((request_id + 1) % u32_mod) sectors

abbrev reading : ℕ → List ℕ → List (List ℕ) → List (List ℕ) → Reading
reading request_id to_ask sent responses = record {
  request_id = request_id;
  to_ask = to_ask;
  sent = sent;
  responses = responses;
}

-- The loop has asked for all and received all.
abbrev finished : ℕ → List ℕ → List (List ℕ) → List (List ℕ) → List (List ℕ) → Reading
finished request_id to_ask sent responses more =
    reading ((request_id + length to_ask) % u32_mod) [] (sent ++ requests request_id to_ask)
      (responses ++ more)

not_less : (k n : ℕ) → k ≡ n → ltb k n ≡ false
not_less k n e = ground arith

enough : (k n : ℕ) → ltb k n ≡ false → n ≤ k
enough k n e = ground arith

finished-now :
    (request_id : ℕ) (sent responses : List (List ℕ))
    → request_id < u32_mod
    → reading request_id [] sent responses ≡ finished request_id [] sent responses []
finished-now request_id sent responses h =
    let same : (request_id + 0) % u32_mod ≡ request_id = omega (arith, h) in
    rw (same, append-nil sent, append-nil responses) refl

none_left :
    (arrivals : List (Option (List ℕ))) → length (messages arrivals) ≡ 0 → messages arrivals ≡ []
none_left arrivals h = empty (messages arrivals) h
  where
    empty : (xs : List (List ℕ)) → length xs ≡ 0 → xs ≡ []
    empty [] h = refl
    empty (x ∷ xs) h = absurd (omega (arith, h))

-- One more request.
finished-ask :
    (id s : ℕ) (to_ask : List ℕ) (sent responses more : List (List ℕ))
    → finished ((id + 1) % u32_mod) to_ask (sent ++ read_message id s ∷ []) responses more
      ≡ finished id (s ∷ to_ask) sent responses more
finished-ask id s to_ask sent responses more =
    let number : ((id + 1) % u32_mod + length to_ask) % u32_mod
        ≡ (id + suc (length to_ask)) % u32_mod =
      omega arith in
    rw (number, append_assoc sent (read_message id s ∷ []) (requests ((id + 1) % u32_mod) to_ask))
      refl

-- One more answer.
finished-receive :
    (id : ℕ) (to_ask : List ℕ) (sent responses : List (List ℕ)) (message : List ℕ)
    (more : List (List ℕ))
    → finished id to_ask sent (responses ++ message ∷ []) more
      ≡ finished id to_ask sent responses (message ∷ more)
finished-receive id to_ask sent responses message more =
    rw (append_assoc responses (message ∷ []) more) refl

one_longer : (xs : List (List ℕ)) (x : List ℕ) → length (xs ++ x ∷ []) ≡ length xs + 1
one_longer xs x = length-append xs (x ∷ [])

read_loop-finished :
    (count : ℕ) (arrivals : List (Option (List ℕ))) (request_id : ℕ) (to_ask : List ℕ)
    (sent responses : List (List ℕ))
    → length responses + length (messages arrivals) ≡ count
    → length to_ask + length responses ≤ count
    → request_id < u32_mod
    → read_loop count arrivals (reading request_id to_ask sent responses)
      ≡ ok (finished request_id to_ask sent responses (messages arrivals))
unfolding read_loop
read_loop-finished count [] id [] sent responses h k b =
    rw (not_less (length responses) count (omega (arith, h)))
      (ap ok (finished-now id sent responses b))
read_loop-finished count [] id (s ∷ to_ask) sent responses h k b = absurd (omega (arith, h, k))
read_loop-finished count (none ∷ arrivals) id [] sent responses h k b =
    elim (Bool-cases (ltb (length responses) count)) [
      | inl more ↦ rw more (read_loop-finished count arrivals id [] sent responses h k b)
      | inr done ↦
          let full = enough (length responses) count done in
          rw (done, none_left arrivals (omega (arith, h, full)))
            (ap ok (finished-now id sent responses b))
    ]
read_loop-finished count (none ∷ arrivals) id (s ∷ to_ask) sent responses h k b =
    rw (lt→ltb (length responses) count (omega (arith, k))) (
      read_loop-finished count arrivals ((id + 1) % u32_mod) to_ask (sent ++ read_message id s ∷ [])
        responses h (omega (arith, k)) (omega arith)
      ∙ ap ok (finished-ask id s to_ask sent responses (messages arrivals)))
read_loop-finished count (some m ∷ arrivals) id [] sent responses h k b =
    rw (lt→ltb (length responses) count (omega (arith, h))) (
      read_loop-finished count arrivals id [] sent (responses ++ m ∷ [])
        (omega (arith, h, one_longer responses m)) (omega (arith, h, one_longer responses m)) b
      ∙ ap ok (finished-receive id [] sent responses m (messages arrivals)))
read_loop-finished count (some m ∷ arrivals) id (s ∷ to_ask) sent responses h k b =
    let asked = sent ++ read_message id s ∷ [] in
    rw (lt→ltb (length responses) count (omega (arith, k))) (
      read_loop-finished count arrivals ((id + 1) % u32_mod) to_ask asked (responses ++ m ∷ [])
        (omega (arith, h, one_longer responses m)) (omega (arith, k, one_longer responses m))
        (omega arith)
      ∙ ap ok (finished-receive ((id + 1) % u32_mod) to_ask asked responses m (messages arrivals))
      ∙ ap ok (finished-ask id s to_ask sent responses (m ∷ messages arrivals)))

-- The answer of a disk that holds `contents` to a request with a number, for a sector.
abbrev pub answer_message : (contents : ℕ → List ℕ) → ℕ × ℕ → List ℕ
answer_message contents (request_id, sector) =
    1 ∷ bytes16 520 ++ (bytes32 request_id ++ (bytes32 sector ++ contents sector))

abbrev pub answers : ℕ → List (ℕ × ℕ) → Bool
answers sector [] = false
answers sector (p ∷ served) = (sector == p.1) || answers sector served

module _ (boot : BootSector) (contents : ℕ → List ℕ)
    (sized : (t : ℕ) → boot.bytes_per_sector ≡ length (contents t)) where
  copy_matching-answer :
      (s : ℕ) (slot : List ℕ) (served : List (ℕ × ℕ))
      → All (λ (p : ℕ × ℕ). p.1 < u32_mod) served
      → (slot ≡ contents s) ⊎ (answers s served ≡ true)
      → copy_matching boot.bytes_per_sector s slot (map (answer_message contents) served)
        ≡ ok (contents s)
  unfolding copy_matching
  copy_matching-answer s slot [] h (inl e) = ap ok e
  copy_matching-answer s slot [] h (inr e) = absurd (cc)
  copy_matching-answer s slot ((id, t) ∷ served) h e = elim (Bool-cases (s == t)) [
    | inl hit ↦
        let same : t ≡ s = sym ((==_iff s t).0 hit) in
        rw (word32-bytes32 t h.0) (
          rw hit (
            rw (memcpy_all (contents t) boot.bytes_per_sector (sized t))
              (copy_matching-answer s (contents t) served h.1 (inl (ap contents same)))))
    | inr miss ↦
        rw (word32-bytes32 t h.0) (rw miss (copy_matching-answer s slot served h.1 (later e miss)))
  ]
    where
      later :
          (slot ≡ contents s) ⊎ ((s == t) || answers s served ≡ true)
          → (s == t) ≡ false
          → (slot ≡ contents s) ⊎ (answers s served ≡ true)
      later (inl e) miss = inl e
      later (inr e) miss = inr (rw miss at e)

  reconstruct-answers :
      (uninitialised : ℕ → List ℕ) (served : List (ℕ × ℕ)) (index : ℕ) (sectors : List ℕ)
      → All (λ (p : ℕ × ℕ). p.1 < u32_mod) served
      → All (λ s. answers s served ≡ true) sectors
      → reconstruct boot uninitialised (map (answer_message contents) served) index sectors
        ≡ ok (map contents sectors)
  unfolding reconstruct
  reconstruct-answers uninitialised served index [] h all = refl
  reconstruct-answers uninitialised served index (s ∷ sectors) h all =
      rw (copy_matching-answer s (uninitialised index) served h (inr all.0))
        (rw (reconstruct-answers uninitialised served (index + 1) sectors h all.1) refl)

  -- When as many messages arrive as sectors are asked for, every sector is among their answers, and
  -- they carry what the disk holds, ppd_read_sectors asks for each sector once, in order, and
  -- delivers the sectors' data in the order in which they were asked for, whatever the order of
  -- the answers and whenever they arrive.
  pub ppd_read_sectors-any_order :
      (uninitialised : ℕ → List ℕ) (arrivals : List (Option (List ℕ))) (served : List (ℕ × ℕ))
      (request_id : ℕ) (sectors : List ℕ)
      → request_id < u32_mod
      → messages arrivals ≡ map (answer_message contents) served
      → length served ≡ length sectors
      → All (λ (p : ℕ × ℕ). p.1 < u32_mod) served
      → All (λ s. answers s served ≡ true) sectors
      → ppd_read_sectors boot uninitialised arrivals request_id sectors
        ≡ ok (
          map contents sectors,
          requests request_id sectors,
          (request_id + length sectors) % u32_mod,
        )
  unfolding ppd_read_sectors
  ppd_read_sectors-any_order uninitialised arrivals served id sectors b arrived same small all =
      let count : length (messages arrivals) ≡ length sectors =
        ap length arrived ∙ length-map served (answer_message contents) ∙ same in
      rw
        (read_loop-finished (length sectors) arrivals id sectors [] [] (omega (arith, count))
          (omega arith) b)
        (rw (arrived) (rw (reconstruct-answers uninitialised served 0 sectors small all) refl))
