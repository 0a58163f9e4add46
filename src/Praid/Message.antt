-- ===== src/Praid/Message.antt =====
-- The 523-byte messages between the processes, as PRAID reads them: the type at byte 0, the length
-- at 1, the request at 3, the sector at 7 and the sector's bytes from 11 on.
use fuselage_fat32_utn.Prelude.{ℕ, List}

-- Values of NIPC_type (Commons/include/nipc.h).
abbrev pub read_sectors : ℕ
read_sectors = 1

abbrev pub write_sectors : ℕ
write_sectors = 2

pub record Message : Type 0 where
  pub type : ℕ
  pub len : ℕ
  pub request_id : ℕ
  pub sector : ℕ
  pub payload : List ℕ

-- A message handed to `send` for a socket.
pub record Sent : Type 0 where
  pub to : ℕ
  pub message : Message
