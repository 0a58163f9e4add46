-- ===== src/Commons/Nipc.antt =====
-- The frames of the protocol (Commons/src/nipc.c, Commons/include/nipc.h): a byte for the type, two
-- for the length of the payload, and the payload. `char` is signed and `NIPC_type` has 32 bits.
pub mod Framing
use fuselage_fat32_utn.Prelude.{
  ℕ, ◌+◌, ◌-◌, ◌/◌, ◌%◌, Option, none, some, List, [], ◌∷◌, ◌++◌, ltb, ◌==◌, if◌then◌else◌,
  get_elem?, drop, replicate, length, u32_mod, word16, bytes16, memcpy, copy_from,
}
use fuselage_fat32_utn.Prelude.Outcome.{Outcome, ok, ◌>>=◌, need}

-- nipcMsg_t
pub record Msg : Type 0 where
  pub type : ℕ
  pub len_low : ℕ
  pub len_high : ℕ
  pub payload : Option (List ℕ)

-- NIPC_createMsg
unfoldable pub create_msg : (type payload_len : ℕ) → List ℕ → Outcome Msg
create_msg type payload_len payload =
    if payload_len == 0
    then ok (record { type = type; len_low = 0; len_high = 0; payload = none })
    else (do
      copy ← memcpy payload_len payload
      ok (record {
        type = type;
        len_low = payload_len % 256;
        len_high = payload_len / 256 % 256;
        payload = some copy;
      }))

-- NIPC_toBytes
unfoldable pub to_bytes : Msg → Outcome (List ℕ)
to_bytes msg = do
  payload ← copy_from (word16 msg.len_low msg.len_high) msg.payload
  ok (msg.type % 256 ∷ msg.len_low ∷ msg.len_high ∷ payload)

-- A `char` as an enumeration's value.
abbrev pub sign_extend : ℕ → ℕ
sign_extend byte = if ltb byte 128 then byte else byte + (u32_mod - 256)

-- NIPC_toMsg
unfoldable pub to_msg : List ℕ → Outcome Msg
to_msg msg = do
  type ← need (get_elem? msg 0)
  low ← need (get_elem? msg 1)
  high ← need (get_elem? msg 2)
  payload ← memcpy (word16 low high) (drop 3 msg)
  ok (record { type = sign_extend type; len_low = low; len_high = high; payload = some payload })

-- NIPC_createCharMsg: the bytes that it writes. The length is a `uint16_t`.
unfoldable pub create_char_msg : (type payload_len : ℕ) → Option (List ℕ) → Outcome (List ℕ)
create_char_msg type payload_len payload = do
  filled ← fill payload
  ok (type % 256 ∷ payload_len % 256 ∷ payload_len / 256 % 256 ∷ filled)
  where
    fill : Option (List ℕ) → Outcome (List ℕ)
    fill none = ok (replicate payload_len 0)
    fill (some bytes) = memcpy payload_len bytes
