-- ===== src/Ppd/Translate/Framing.antt =====
-- A request put into a message is read back.
use fuselage_fat32_utn.Prelude.{
  ℕ, ◌+◌, ◌-◌, ◌%◌, ◌<◌, ◌≡◌, refl, ap, ◌∙◌, arith, some, List, length, u16_mod, u32_mod,
  word16-bytes16, word32-bytes32, memcpy, memcpy-ok, take-all,
}
use fuselage_fat32_utn.Prelude.Outcome.{ok, ◌>>=◌}
use fuselage_fat32_utn.Ppd.Geometry.{Disk, turn_to_chs}
use fuselage_fat32_utn.Ppd.Geometry.Addresses.{IsGeometry, turn_to_sector_num-turn_to_chs}
use fuselage_fat32_utn.Ppd.Taker.{write_sectors, Request}
use fuselage_fat32_utn.Ppd.Translate.{from_char_to_request, from_request_to_char}

-- The write of some bytes to a sector.
abbrev pub write_request : Disk → (id sector_num sock_fd : ℕ) → List ℕ → Request
write_request disk id sector_num sock_fd bytes = record {
  type = write_sectors;
  id = id;
  address = turn_to_chs disk sector_num;
  len = length bytes;
  sender = sock_fd;
  payload = some bytes;
}

-- On a disk with one head, a write whose address is a sector's is put into a message from which the
-- same write is read.
pub request-char :
    (disk : Disk) (id sector_num sock_fd : ℕ) (bytes : List ℕ)
    → IsGeometry disk
    → disk.heads ≡ 1
    → id < u32_mod
    → sector_num < u32_mod
    → length bytes + 8 < u16_mod
    → (do
      msg ← from_request_to_char disk (write_request disk id sector_num sock_fd bytes)
      from_char_to_request disk msg sock_fd)
      ≡ ok (write_request disk id sector_num sock_fd bytes)
unfolding from_char_to_request from_request_to_char
request-char disk id sector_num sock_fd bytes g one id_fits num_fits len_fits =
    let copied : memcpy (length bytes) bytes ≡ ok bytes =
      memcpy-ok _ bytes (omega arith) ∙ ap ok (take-all bytes _ refl) in
    let number = turn_to_sector_num-turn_to_chs disk sector_num g one num_fits in
    let wrapped : (length bytes + 8) % u16_mod ≡ length bytes + 8 = omega (arith, len_fits) in
    let unwrapped : (length bytes + 8 + u16_mod - 8) % u16_mod ≡ length bytes =
      omega (arith, len_fits) in
    rw (copied, wrapped, number)
      (rw
        (
          word16-bytes16 (length bytes + 8) len_fits,
          word32-bytes32 id id_fits,
          word32-bytes32 sector_num num_fits,
          unwrapped,
          copied,
        )
        refl)
