-- ===== src/Pfs/DirEntry/Fields.antt =====
-- What is put into an entry is read from it.
use fuselage_fat32_utn.Prelude.{
  ℕ, ◌+◌, ◌-◌, ◌*◌, ◌/◌, ◌%◌, ◌<◌, ◌≤◌, ◌≡◌, refl, arith, List, length, take, u32_mod, memcpy-ok,
  not,
}
use fuselage_fat32_utn.Prelude.Outcome.{ok}
use fuselage_fat32_utn.Pfs.DirEntry.{
  DirEntry, Tm, get_cluster_number, get_date, get_time, convert_date_time, create,
}

shifts :
    (n : ℕ)
    → n < u32_mod
    → (((0 * 256 % u32_mod + n / 16777216 % 256) * 256 % u32_mod + n / 65536 % 256) * 256 % u32_mod
            + n / 256 % 256)
          * 256
          % u32_mod
        + n % 256
      ≡ n
shifts n h = omega (arith, h)

-- An entry made for a name of eight bytes or more has them as its name, and the cluster that it was
-- made for as its cluster; it is empty, and a directory's entry exactly when it is no file's.
pub create-get_cluster_number :
    (now : Tm) (filename : List ℕ) (cluster attr : ℕ)
    → 8 ≤ length filename
    → cluster < u32_mod
    → attr ≤ 1
    → (entry : DirEntry) × (create now filename cluster attr ≡ ok entry)
      × (get_cluster_number entry ≡ cluster)
      × (entry.dos_name ≡ take 8 filename)
      × (entry.subdirectory ≡ not entry.archive)
      × (entry.file_size ≡ 0)
unfolding create get_cluster_number
create-get_cluster_number now filename cluster attr long fits flag =
    rw (memcpy-ok 8 filename long) (_, refl, shifts cluster fits, refl, ground arith, refl)

-- A date and time from 1980 to 2107 that is put into an entry is read as it was, the year, month, day,
-- hour and minute; of the seconds the half is read.
pub convert_date_time-get :
    (t : Tm)
    → 80 ≤ t.tm_year
    → t.tm_year < 208
    → t.tm_mon < 12
    → t.tm_mday < 32
    → t.tm_hour < 24
    → t.tm_min < 60
    → t.tm_sec < 62
    → convert_date_time (get_date t) (get_time t) ≡ record t { tm_sec = t.tm_sec / 2 }
unfolding convert_date_time get_date get_time
convert_date_time-get t from to mon day hour minute sec =
    let s : t.tm_sec / 2 % 32 ≡ t.tm_sec / 2 = omega (arith, sec) in
    let m : t.tm_min % 64 ≡ t.tm_min = omega (arith, minute) in
    let h : t.tm_hour % 32 ≡ t.tm_hour = omega (arith, hour) in
    let d : t.tm_mday % 32 ≡ t.tm_mday = omega (arith, day) in
    let n : ((t.tm_mon + 1) % 16 + u32_mod - 1) % u32_mod ≡ t.tm_mon = omega (arith, mon) in
    let y : (t.tm_year + u32_mod - 80) % 128 + 1980 - 1900 ≡ t.tm_year = omega (arith, from, to) in
    rw (s, m, h, d, n, y) refl
