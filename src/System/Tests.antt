-- ===== src/System/Tests.antt =====
-- PFS's request for sector 1, at a disk of two sectors.
use fuselage_fat32_utn.Prelude.{◌≡◌, refl, arith, false, [], replicate}
use fuselage_fat32_utn.Prelude.Outcome.{ok, ◌>>=◌}
use fuselage_fat32_utn.Pfs.Comm.{read_message}
use fuselage_fat32_utn.Pfs.Comm.Order.{answer_message}
use fuselage_fat32_utn.Ppd.Geometry.{Disk}
use fuselage_fat32_utn.Ppd.Geometry.Addresses.{IsGeometry}
use fuselage_fat32_utn.Ppd.Queues.{queue1_active, up, fscan}
use fuselage_fat32_utn.Ppd.Translate.{from_char_to_request}
use fuselage_fat32_utn.Ppd.Service.{Ppd, handle_request}
use fuselage_fat32_utn.System.{stored, read_message-answer}

abbrev disk : Disk
disk = record { cylinders = 1; heads = 1; sectors = 2; track_jump_time = 3; sector_jump_time = 1 }

disk-IsGeometry : IsGeometry disk
disk-IsGeometry = record {
  some_sectors = omega arith;
  some_heads = omega arith;
  fits = omega arith;
  track_fits = omega arith;
}

abbrev ppd : Ppd
ppd = record {
  disk = disk;
  image = record { map = replicate 1024 6; writings = 0 };
  queues = record { queue1 = []; queue2 = []; qflag = queue1_active; direction = up };
  head_position = 0;
  trace_position = 0;
  algorithm = fscan;
  info = false;
}

read_message-answer_example :
    (p' : Ppd) × ((do
      request ← from_char_to_request disk (read_message 5 1) 7
      handle_request request 0 ppd)
      ≡ ok (p', answer_message (stored ppd.image) (5, 1)))
    × (p'.image ≡ ppd.image)
read_message-answer_example =
    read_message-answer ppd 5 1 7 0 refl disk-IsGeometry refl (omega arith) (omega arith)
      (omega arith)
