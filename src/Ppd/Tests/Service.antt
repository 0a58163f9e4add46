-- ===== src/Ppd/Tests/Service.antt =====
-- The disk process at work, with a read and a write that wait.
use mathlib.Core.List.{Perm}
use fuselage_fat32_utn.Prelude.{
  ℕ, ◌≡◌, refl, false, inl, inr, some, none, List, [], ◌∷◌, ◌++◌, arith, map, length, take, drop,
  replicate,
}
use fuselage_fat32_utn.Prelude.Outcome.{ok}
use fuselage_fat32_utn.Ppd.Geometry.{chs, turn_to_sector_num, update_head_position}
use fuselage_fat32_utn.Ppd.Taker.{read_sectors, write_sectors, Request}
use fuselage_fat32_utn.Ppd.Queues.{queue1_active, up, fscan, waiting}
use fuselage_fat32_utn.Ppd.Io.{Image, offset, read_disk, write_disk}
use fuselage_fat32_utn.Ppd.Io.Contents.{read_disk-write_disk}
use fuselage_fat32_utn.Ppd.Service.{Ppd, handle_request, taker_rounds, Reply}
use fuselage_fat32_utn.Ppd.Service.Answers.{reply_bytes, handle_request-read, handle_request-write}
use fuselage_fat32_utn.Ppd.Service.Rounds.{first_up}
use fuselage_fat32_utn.Ppd.Service.Drain.{pending, IsRunning}
use fuselage_fat32_utn.Ppd.Service.Drained.{answered, asked, taker_rounds-drain}
use fuselage_fat32_utn.Ppd.Tests.{disk, disk-IsMovable}

abbrev image : Image
image = record { map = replicate 1024 0; writings = 0 }

abbrev content : List ℕ
content = replicate 512 5

abbrev a_read : Request
a_read = record {
  type = read_sectors;
  id = 1;
  address = chs 0 0 0;
  len = 0;
  sender = 7;
  payload = none;
}

abbrev a_write : Request
a_write = record {
  type = write_sectors;
  id = 2;
  address = chs 0 0 1;
  len = 512;
  sender = 8;
  payload = some content;
}

abbrev ppd : Ppd
ppd = record {
  disk = disk;
  image = image;
  queues = record {
    queue1 = a_read ∷ [];
    queue2 = a_write ∷ [];
    qflag = queue1_active;
    direction = up;
  };
  head_position = 2;
  trace_position = 2;
  algorithm = fscan;
  info = false;
}

ppd-IsRunning : IsRunning ppd
unfolding turn_to_sector_num
ppd-IsRunning = record {
  movable = disk-IsMovable;
  quiet = refl;
  mode = first_up;
  alone = λ e. cc;
  servable = (
    record { on_disk = omega arith; inside = omega arith; served = inl refl },
    (
      record {
        on_disk = omega arith;
        inside = omega arith;
        served = inr (record {
          bytes = content;
          type = refl;
          content = refl;
          len = refl;
          long = omega arith;
        });
      },
      tt,
    ),
  );
}

taker_rounds-drain_example :
    (p' : Ppd) × (replies : List Reply) × (taker_rounds 2 ppd ≡ ok (p', replies))
    × IsRunning p'
    × (waiting p'.queues ≡ 0)
    × Perm (map asked (pending ppd)) (map answered replies)
taker_rounds-drain_example = taker_rounds-drain 2 ppd ppd-IsRunning refl

read_disk-write_disk_example :
    read_disk 1 (record { map = content ++ replicate 512 0; writings = 1 }) ≡ read_disk 1 image
unfolding write_disk
read_disk-write_disk_example =
    read_disk-write_disk 0 1 content image
      (record { map = content ++ replicate 512 0; writings = 1 }) (omega arith) (omega arith) refl

handle_request-read_example :
    handle_request a_read 0 ppd
    ≡ ok (
      record ppd {
        head_position = update_head_position disk (turn_to_sector_num disk a_read.address);
      },
      reply_bytes disk a_read
          (take 512 (drop (offset (turn_to_sector_num disk a_read.address)) image.map)),
    )
unfolding turn_to_sector_num
handle_request-read_example = handle_request-read ppd a_read 0 refl refl (omega arith)

handle_request-write_example :
    (image' : Image) × (write_disk (turn_to_sector_num disk a_write.address) content image
      ≡ ok image')
    × (length image'.map ≡ length image.map)
    × (handle_request a_write 0 ppd
        ≡ ok (
          record ppd {
            image = image';
            head_position = update_head_position disk (turn_to_sector_num disk a_write.address);
          },
          reply_bytes disk a_write content,
        ))
unfolding turn_to_sector_num
handle_request-write_example =
    handle_request-write ppd a_write 0 refl content refl refl refl (omega arith) (omega arith)
