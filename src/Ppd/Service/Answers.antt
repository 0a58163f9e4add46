-- ===== src/Ppd/Service/Answers.antt =====
-- What TAKER_handleRequest answers, with a log that takes no entries.
use fuselage_fat32_utn.Prelude.{
  ℕ, ◌+◌, ◌%◌, ◌≤◌, ◌≡◌, refl, sym, ap, ◌∙◌, arith, false, ◌||◌, none, some, List, ◌∷◌, ◌++◌,
  length, take, drop, bytes16, bytes32, u16_mod, memcpy-ok, memcpy_all, copy_from, length-take,
  length-drop,
}
use fuselage_fat32_utn.Prelude.Outcome.{Outcome, ok, ◌>>=◌}
use fuselage_fat32_utn.Ppd.Geometry.{Disk, turn_to_sector_num, update_head_position}
use fuselage_fat32_utn.Ppd.Taker.{read_sectors, write_sectors, Request}
use fuselage_fat32_utn.Ppd.Translate.{to_byte, from_request_to_char}
use fuselage_fat32_utn.Ppd.Io.{Image, offset, read_disk, write_disk}
use fuselage_fat32_utn.Ppd.Io.Contents.{write_disk-total}
use fuselage_fat32_utn.Ppd.Service.{Ppd, is_trace, write_in_log, answer, handle_request}

-- The message for a request, with some content.
abbrev pub reply_bytes : Disk → Request → List ℕ → List ℕ
reply_bytes disk r content =
    to_byte r.type ∷ bytes16 ((length content + 8) % u16_mod)
    ++ bytes32 r.id
    ++ bytes32 (turn_to_sector_num disk r.address)
    ++ content

from_request_to_char-reply :
    (disk : Disk) (r : Request) (bytes : List ℕ)
    → r.payload ≡ some bytes
    → r.len ≡ length bytes
    → from_request_to_char disk r ≡ ok (reply_bytes disk r bytes)
unfolding from_request_to_char
from_request_to_char-reply disk r bytes e n =
    let copied : copy_from r.len r.payload ≡ ok bytes =
      ap (copy_from r.len) e ∙ memcpy_all bytes r.len n in
    rw (copied, n)

write_in_log-quiet :
    (n : ℕ) (r : Request) (delay : ℕ) (p : Ppd)
    → p.info ≡ false
    → is_trace r.type ≡ false
    → write_in_log n r delay p ≡ ok (p, none)
unfolding write_in_log
write_in_log-quiet n r delay p quiet plain =
    let off : p.info || is_trace r.type ≡ false = rw (quiet, plain) refl in rw off

pub read_disk-ok :
    (n : ℕ) (image : Image)
    → offset n + 512 ≤ length image.map
    → read_disk n image ≡ ok (take 512 (drop (offset n) image.map))
unfolding read_disk
read_disk-ok n image inside =
    memcpy-ok 512 (drop (offset n) image.map)
      (omega (arith, length-drop (offset n) image.map, inside))

-- What TAKER_handleRequest does behind its `switch`.
abbrev after_answer : ℕ → Outcome (Ppd × List ℕ) → Outcome (Ppd × List ℕ)
after_answer n m = do
  (p, msg) ← m
  ok (record p { head_position = update_head_position p.disk n }, msg)

module _ (p : Ppd) (r : Request) (delay : ℕ) (quiet : p.info ≡ false) where
  -- With a log that takes no entries, a read within the disk is answered with the 512 bytes of its
  -- sector, and changes the position of the head alone.
  pub handle_request-read :
      r.type ≡ read_sectors
      → offset (turn_to_sector_num p.disk r.address) + 512 ≤ length p.image.map
      → handle_request r delay p
        ≡ ok (
          record p {
            head_position = update_head_position p.disk (turn_to_sector_num p.disk r.address);
          },
          reply_bytes p.disk r
              (take 512 (drop (offset (turn_to_sector_num p.disk r.address)) p.image.map)),
        )
  unfolding handle_request answer
  handle_request-read ty inside =
      let n = turn_to_sector_num p.disk r.address in
      let content = take 512 (drop (offset n) p.image.map) in
      let full : length content ≡ 512 = omega (
        arith,
        length-take 512 (drop (offset n) p.image.map),
        length-drop (offset n) p.image.map,
        inside,
      ) in
      let found : read_disk n p.image ≡ ok content = read_disk-ok n p.image inside in
      let filled : Request = record r { len = 512; payload = some content } in
      let made = from_request_to_char-reply p.disk filled content refl (sym full) in
      let logged = write_in_log-quiet n r delay p quiet (ap is_trace ty) in
      ap (λ t. after_answer n (answer n r t delay p)) ty ∙ rw found (rw made (rw logged))

  -- With a log that takes no entries, a write within the disk, of a payload of at least 512 bytes that
  -- are as many as its length says, is done, is answered with its own content, and changes the disk and
  -- the position of the head alone.
  pub handle_request-write :
      (bytes : List ℕ)
      → r.type ≡ write_sectors
      → r.payload ≡ some bytes
      → r.len ≡ length bytes
      → 512 ≤ length bytes
      → offset (turn_to_sector_num p.disk r.address) + 512 ≤ length p.image.map
      → (image' : Image) × (write_disk (turn_to_sector_num p.disk r.address) bytes p.image
          ≡ ok image')
        × (length image'.map ≡ length p.image.map)
        × (handle_request r delay p
            ≡ ok (
              record p {
                image = image';
                head_position = update_head_position p.disk (turn_to_sector_num p.disk r.address);
              },
              reply_bytes p.disk r bytes,
            ))
  unfolding handle_request answer
  handle_request-write bytes ty content len long inside =
      let n = turn_to_sector_num p.disk r.address in
      let (image', written, size) = write_disk-total n bytes p.image long inside in
      let logged =
        write_in_log-quiet n r delay (record p { image = image' }) quiet (ap is_trace ty) in
      (
        image',
        written,
        size,
        ap (λ t. after_answer n (answer n r t delay p)) ty
            ∙ rw content (rw written (rw (memcpy_all bytes r.len len) (rw len (rw logged)))),
      )
