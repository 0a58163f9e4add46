-- ===== src/System.antt =====
-- The processes together: what PFS sends (PFS/src/pfs_comm.c) is what a disk takes
-- (PPD/src/ppd_translate.c, PPD/src/ppd_taker.c), and what the disk answers is what PFS reads.
mod Tests
use fuselage_fat32_utn.Prelude.{
  ℕ, ◌+◌, ◌<◌, ◌≤◌, ◌≡◌, refl, sym, ap, ◌∙◌, subst, arith, false, none, List, length, take, drop,
  length-take, length-drop, u32_mod, word32-bytes32,
}
use fuselage_fat32_utn.Prelude.Outcome.{ok, ◌>>=◌}
use fuselage_fat32_utn.Pfs.Comm.{read_message}
use fuselage_fat32_utn.Pfs.Comm.Order.{answer_message}
use fuselage_fat32_utn.Ppd.Geometry.{Disk, turn_to_chs, turn_to_sector_num, update_head_position}
use fuselage_fat32_utn.Ppd.Geometry.Addresses.{IsGeometry, turn_to_sector_num-turn_to_chs}
use fuselage_fat32_utn.Ppd.Taker.{read_sectors, Request}
use fuselage_fat32_utn.Ppd.Translate.{from_char_to_request}
use fuselage_fat32_utn.Ppd.Io.{Image, offset}
use fuselage_fat32_utn.Ppd.Service.{Ppd, handle_request}
use fuselage_fat32_utn.Ppd.Service.Answers.{reply_bytes, handle_request-read}

-- What a disk holds for a sector.
abbrev pub stored : Image → ℕ → List ℕ
stored image sector = take 512 (drop (offset sector) image.map)

-- The request that the disk makes of PFS's message.
abbrev asked_for : Disk → (id sector fd : ℕ) → Request
asked_for disk id sector fd = record {
  type = read_sectors;
  id = id;
  address = turn_to_chs disk sector;
  len = 0;
  sender = fd;
  payload = none;
}

from_char_to_request-read :
    (disk : Disk) (id sector fd : ℕ)
    → id < u32_mod
    → sector < u32_mod
    → from_char_to_request disk (read_message id sector) fd ≡ ok (asked_for disk id sector fd)
unfolding from_char_to_request
from_char_to_request-read disk id sector fd i s =
    rw (word32-bytes32 id i, word32-bytes32 sector s) refl

-- A message in which PFS asks for a sector of a disk with one head, whose log takes no entries, is
-- answered with the message that PFS expects for that request and sector, with the 512 bytes that
-- the disk holds; the disk file is not changed.
pub read_message-answer :
    (p : Ppd) (id sector fd delay : ℕ)
    → p.info ≡ false
    → IsGeometry p.disk
    → p.disk.heads ≡ 1
    → id < u32_mod
    → sector < u32_mod
    → offset sector + 512 ≤ length p.image.map
    → (p' : Ppd) × ((do
      request ← from_char_to_request p.disk (read_message id sector) fd
      handle_request request delay p)
        ≡ ok (p', answer_message (stored p.image) (id, sector)))
      × (p'.image ≡ p.image)
read_message-answer p id sector fd delay quiet v one i s inside =
    let same = turn_to_sector_num-turn_to_chs p.disk sector v one s in
    let full : length (stored p.image sector) ≡ 512 = omega (
      arith,
      length-take 512 (drop (offset sector) p.image.map),
      length-drop (offset sector) p.image.map,
      inside,
    ) in
    let served =
      handle_request-read p (asked_for p.disk id sector fd) delay quiet refl
        (subst (λ n. offset n + 512 ≤ length p.image.map) (sym same) inside) in
    let request = asked_for p.disk id sector fd in
    (
      record p {
        head_position = update_head_position p.disk (turn_to_sector_num p.disk request.address);
      },
      rw (from_char_to_request-read p.disk id sector fd i s) (rw served (rw (same, full) refl)),
      refl,
    )
