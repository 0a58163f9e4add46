-- ===== src/Commons/Nipc/Framing.antt =====
-- Frames and messages are read back.
use fuselage_fat32_utn.Prelude.{
  ℕ, zero, suc, ◌%◌, ◌<◌, ◌≤◌, ◌≡◌, ◌≢◌, refl, sym, ap, ◌∙◌, arith, some, List, ◌∷◌, lt→ltb, ne→==,
  take, length, length-take, u16_mod, word16, word16-bytes16, memcpy, memcpy-ok, take-all,
}
use fuselage_fat32_utn.Prelude.Outcome.{ok, ◌>>=◌}
use fuselage_fat32_utn.Commons.Nipc.{create_msg, to_bytes, sign_extend, to_msg, create_char_msg}

-- A message with a payload that NIPC_createMsg makes, put into bytes, is read back as it was.
pub create-bytes-msg :
    (type n : ℕ) (payload : List ℕ)
    → type < 128
    → n ≢ 0
    → n < u16_mod
    → n ≤ length payload
    → (do msg ← create_msg type n payload; bytes ← to_bytes msg; to_msg bytes)
      ≡ create_msg type n payload
unfolding create_msg to_bytes to_msg
create-bytes-msg type n payload small some_bytes fits enough =
    let all : n ≡ length (take n payload) = omega (arith, length-take n payload, enough) in
    let copied : memcpy n (take n payload) ≡ ok (take n payload) =
      memcpy-ok n (take n payload) (omega (arith, all)) ∙ ap ok (take-all (take n payload) n all) in
    let same : type % 256 ≡ type = omega (arith, small) in
    rw (ne→== n 0 some_bytes, memcpy-ok n payload enough, word16-bytes16 n fits, copied)
      (rw (word16-bytes16 n fits, copied, same, lt→ltb type 128 small) refl)

-- NIPC_createCharMsg writes the bytes of the message that NIPC_createMsg makes.
pub create_char_msg-bytes :
    (type n : ℕ) (payload : List ℕ)
    → n < u16_mod
    → n ≤ length payload
    → create_char_msg type n (some payload) ≡ (do msg ← create_msg type n payload; to_bytes msg)
unfolding create_msg to_bytes create_char_msg
create_char_msg-bytes type zero payload fits enough = rw (memcpy-ok 0 payload enough) refl
create_char_msg-bytes type (suc n) payload fits enough =
    let n = suc n in
    let all : n ≡ length (take n payload) = omega (arith, length-take n payload, enough) in
    let copied : memcpy n (take n payload) ≡ ok (take n payload) =
      memcpy-ok n (take n payload) (omega (arith, all)) ∙ ap ok (take-all (take n payload) n all) in
    rw (ne→== n 0 (omega arith), memcpy-ok n payload enough)
      (rw (word16-bytes16 n fits, copied) refl)

-- A frame whose length field says how many bytes follow is read and written back as it was.
pub msg-bytes :
    (type low high : ℕ) (payload : List ℕ)
    → type < 256
    → length payload ≡ word16 low high
    → (do msg ← to_msg (type ∷ low ∷ high ∷ payload); to_bytes msg)
      ≡ ok (type ∷ low ∷ high ∷ payload)
unfolding to_bytes to_msg
msg-bytes type low high payload small all =
    let copied : memcpy (word16 low high) payload ≡ ok payload =
      memcpy-ok _ payload (omega (arith, all)) ∙ ap ok (take-all payload _ (sym all)) in
    let same : sign_extend type % 256 ≡ type = ground (arith, small) in
    rw copied (rw copied (rw same refl))
