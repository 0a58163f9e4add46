-- ===== src/Ppd/Translate.antt =====
-- The messages of PPD as requests and back (PPD/src/ppd_translate.c). Bytes are numbers below 256, and
-- of the types of message those that NIPC_type names are modelled.
pub mod Framing
use fuselage_fat32_utn.Prelude.{
  word_at, ℕ, ◌+◌, ◌-◌, ◌%◌, ◌/◌, Option, none, some, List, [], ◌∷◌, ◌++◌, ◌==◌, if◌then◌else◌,
  get_elem?, drop, u16_mod, word16, bytes16, word32, bytes32, memcpy, copy_from,
}
use fuselage_fat32_utn.Prelude.Outcome.{Outcome, ok, fault, ◌>>=◌, need}
use fuselage_fat32_utn.Ppd.Geometry.{Disk, turn_to_chs, turn_to_sector_num}
use fuselage_fat32_utn.Ppd.Taker.{
  NipcType, handshake, read_sectors, write_sectors, ppdconsole_info, ppdconsole_trace,
  ppdconsole_exit, is_write, Request,
}

-- The values of NIPC_type (Commons/include/nipc.h).
abbrev pub to_byte : NipcType → ℕ
to_byte handshake = 0
to_byte read_sectors = 1
to_byte write_sectors = 2
to_byte ppdconsole_info = 3
to_byte ppdconsole_trace = 4
to_byte ppdconsole_exit = 5

abbrev pub of_byte : ℕ → Option NipcType
of_byte n =
    if n == 0
    then some handshake
    else if n == 1
    then some read_sectors
    else if n == 2
    then some write_sectors
    else if n == 3
    then some ppdconsole_info
    else if n == 4
    then some ppdconsole_trace
    else if n == 5
    then some ppdconsole_exit
    else none

-- TRANSLATE_fromCharToRequest
unfoldable pub from_char_to_request : Disk → List ℕ → (sock_fd : ℕ) → Outcome Request
from_char_to_request disk msg sock_fd = do
  id ← word_at msg 3
  sector_num ← word_at msg 7
  byte ← need (get_elem? msg 0)
  type ← need (of_byte byte)
  low ← need (get_elem? msg 1)
  high ← need (get_elem? msg 2)
  let len = (word16 low high + u16_mod - 8) % u16_mod
  payload ←
      (if is_write type then (do bytes ← memcpy len (drop 11 msg); ok (some bytes)) else ok none)
  ok (record {
    type = type;
    id = id;
    address = turn_to_chs disk sector_num;
    len = len;
    sender = sock_fd;
    payload = payload;
  })

-- TRANSLATE_fromRequestToChar. A copy of no bytes may be from NULL.
unfoldable pub from_request_to_char : Disk → Request → Outcome (List ℕ)
from_request_to_char disk request = do
  payload ← copy_from request.len request.payload
  let len = (request.len + 8) % u16_mod
  ok (
      to_byte request.type ∷ bytes16 len
      ++ bytes32 request.id
      ++ bytes32 (turn_to_sector_num disk request.address)
      ++ payload)
