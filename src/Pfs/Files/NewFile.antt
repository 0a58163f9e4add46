-- ===== src/Pfs/Files/NewFile.antt =====
-- A file that fat32_mk makes is found in its directory.
use fuselage_fat32_utn.Prelude.{
  ℕ, zero, suc, ◌+◌, ◌-◌, ◌*◌, ◌≤◌, ◌≡◌, ◌≢◌, refl, sym, ap, ◌∙◌, arith, true, false, some, List,
  [], ◌∷◌, ◌++◌, ◌==◌, length, drop, length-append, length-take, length-replicate, append_assoc,
  All, All-append, replicate, paste, paste-behind, drop-replicate, IsString, memcpy-ok, ne→==,
  ==-refl,
}
use fuselage_fat32_utn.Prelude.Outcome.{ok}
use fuselage_fat32_utn.Pfs.BootSector.{BootSector}
use fuselage_fat32_utn.Pfs.Volume.{Volume, write_cluster}
use fuselage_fat32_utn.Pfs.DirEntry.{
  DirEntry, Tm, create, archive_attr, get_date, get_time, get_cluster_number,
}
use fuselage_fat32_utn.Pfs.DirEntry.Bytes.{entry_bytes, IsEntry, length-entry_bytes}
use fuselage_fat32_utn.Pfs.LfnEntry.{Unicode, lfn_bytes, create_lfn}
use fuselage_fat32_utn.Pfs.LfnEntry.Bytes.{length-lfn_bytes}
use fuselage_fat32_utn.Pfs.LfnEntry.Names.{IsAscii, IsUnicode, get_string-create_lfn}
use fuselage_fat32_utn.Pfs.Directory.{Malloc, interpret_from_cluster}
use fuselage_fat32_utn.Pfs.Directory.Listing.{
  Slot, IsSlot, slots_bytes, files_of, length-slots_bytes, slots_bytes-append,
  interpret_from_cluster-slots,
}
use fuselage_fat32_utn.Pfs.Files.{Making, find_slot, make_entry, write_entries, mk_in}
use fuselage_fat32_utn.Pfs.Files.Search.{IsNamed, find_slot-slots}

-- The entry that is made for a file fits its fields.
create-IsEntry :
    (now : Tm) (filename : List ℕ)
    → 8 ≤ length filename
    → (e : DirEntry) × (create now filename 0 archive_attr ≡ ok e)
      × IsEntry e
      × (get_cluster_number e ≡ 0)
      × (e.file_size ≡ 0)
      × (e.archive ≡ true)
unfolding create get_date get_time get_cluster_number
create-IsEntry now filename long = rw (memcpy-ok 8 filename long) (
  _,
  refl,
  record {
    name = omega (arith, long, length-take 8 filename);
    extension = refl;
    create_time = (omega arith, omega arith, omega arith);
    create_date = (omega arith, omega arith, omega arith);
    access = (omega arith, omega arith, omega arith);
    modified_time = (omega arith, omega arith, omega arith);
    modified_date = (omega arith, omega arith, omega arith);
    size = omega arith;
  },
  refl,
  refl,
  refl,
)

-- The two entries that are copied to a free place in front of zeros.
paste_both :
    (icu : Unicode) (ss : List Slot) (s : Slot) (k : ℕ)
    → All (IsSlot icu) ss
    → IsSlot icu s
    → 64 ≤ k
    → (mid : List ℕ) × (paste (64 * length ss) (lfn_bytes s.lfn) (slots_bytes ss ++ replicate k 0)
        ≡ ok mid)
      × (paste (64 * length ss + 32) (entry_bytes s.entry) mid
          ≡ ok (slots_bytes (ss ++ s ∷ []) ++ replicate (k - 64) 0))
unfolding slots_bytes
paste_both icu ss s k h new room =
    let n = length-slots_bytes icu ss h in
    let a = length-lfn_bytes s.lfn new.lfn_sized in
    let b = length-entry_bytes s.entry new.entry_sized in
    let front = slots_bytes ss ++ lfn_bytes s.lfn in
    let z = length-replicate {A = ℕ} k 0 in
    let w = length-replicate {A = ℕ} (k - 32) 0 in
    let first =
      paste-behind (64 * length ss) (lfn_bytes s.lfn) (slots_bytes ss) (replicate k 0) n
        (omega (arith, a, room, z)) in
    let cut : drop (length (lfn_bytes s.lfn)) (replicate {A = ℕ} k 0) ≡ replicate (k - 32) 0 =
      ap (λ j. drop j (replicate {A = ℕ} k 0)) a ∙ drop-replicate k 32 in
    let second =
      paste-behind (64 * length ss + 32) (entry_bytes s.entry) front (replicate (k - 32) 0)
        (omega (arith, n, a, length-append (slots_bytes ss) (lfn_bytes s.lfn)))
        (omega (arith, b, room, w)) in
    let cut' : drop (length (entry_bytes s.entry)) (replicate {A = ℕ} (k - 32) 0)
        ≡ replicate (k - 64) 0 =
      ap (λ j. drop j (replicate {A = ℕ} (k - 32) 0)) b
      ∙ drop-replicate (k - 32) 32
      ∙ ap (λ j. replicate {A = ℕ} j 0) (let e : k - 32 - 32 ≡ k - 64 = omega arith in e) in
    (
      front ++ replicate (k - 32) 0,
      first
          ∙ ap ok (
              ap (λ l. slots_bytes ss ++ (lfn_bytes s.lfn ++ l)) cut
              ∙ sym (append_assoc (slots_bytes ss) (lfn_bytes s.lfn) (replicate (k - 32) 0))),
      second
          ∙ ap ok (
              ap (λ l. front ++ (entry_bytes s.entry ++ l)) cut'
              ∙ append_assoc (slots_bytes ss) (lfn_bytes s.lfn) _
              ∙ sym (slots_bytes-append ss s [] (replicate (k - 64) 0))),
    )

-- What a directory's cluster shows behind fat32_mk: the files as before and behind them the new one,
-- of its name, without a cluster and without a byte. Nothing else has changed.
pub record IsMade (m : Making) (malloc : Malloc) (cluster : ℕ) (ss : List Slot) (v v' : Volume)
    : Type 0 where
  pub new : Slot
  pub named : new.name ≡ m.filename
  pub slot : IsSlot m.icu new
  pub shown :
      interpret_from_cluster m.icu malloc cluster (v'.contents cluster)
      ≡ ok (files_of cluster 0 (ss ++ new ∷ []))
  pub no_cluster : get_cluster_number new.entry ≡ 0
  pub empty : new.entry.file_size ≡ 0
  pub file : new.entry.archive ≡ true
  pub same_fat : v'.fat ≡ v.fat
  pub same_data : (c : ℕ) → c ≢ cluster → v'.contents c ≡ v.contents c

some_zeros : (j : ℕ) → 1 ≤ j → replicate {A = ℕ} j 0 ≡ 0 ∷ replicate (j - 1) 0
some_zeros zero h = absurd (omega (arith, h))
some_zeros (suc j) h =
    ap (λ i. 0 ∷ replicate {A = ℕ} i 0) (let e : j ≡ suc j - 1 = omega arith in e)

module _ (boot : BootSector) (m : Making) (malloc : Malloc) (cluster : ℕ) (ss : List Slot) (k : ℕ)
    (v : Volume) where
  new_file :
      IsUnicode m.icu
      → m.dir_or_archive ≡ archive_attr
      → IsString m.filename
      → IsAscii m.filename
      → length m.filename ≤ 12
      → 8 ≤ length m.filename + 1 + length m.behind
      → 28 ≤ length m.icu.str_to
      → (new : Slot) × (new.name ≡ m.filename)
        × IsSlot m.icu new
        × (create_lfn m.icu m.filename ≡ ok new.lfn)
        × (make_entry boot m cluster v ≡ ok (v, new.entry))
        × (get_cluster_number new.entry ≡ 0)
        × (new.entry.file_size ≡ 0)
        × (new.entry.archive ≡ true)
  unfolding make_entry
  new_file laws is_file string ascii short behind room =
      let (lfn, created, read, number, deleted, sized) =
        get_string-create_lfn m.icu laws m.filename string ascii short room in
      let memory = m.filename ++ 0 ∷ m.behind in
      let (entry, made, fits, no_cluster, empty, file) =
        create-IsEntry m.now memory
          (omega (arith, behind, length-append m.filename (0 ∷ m.behind))) in
      let not_dir : (m.dir_or_archive == 0) ≡ false = ground (arith, is_file) in
      (
        record { name = m.filename; lfn = lfn; entry = entry },
        refl,
        record {
          lfn_sized = sized;
          only = number;
          kept = deleted;
          named = read;
          entry_sized = fits;
        },
        created,
        rw not_dir (rw is_file (rw made refl)),
        no_cluster,
        empty,
        file,
      )

  -- Let a cluster of a directory hold files with long names, at most 62 of them and none with an own
  -- entry that starts with 0, and zeros behind them. Let the conversions keep ASCII, let memory hold
  -- eight bytes from the start of the name, and let `malloc` give 28 bytes at least where
  -- LFNENTRY_setNameChars asks for 26. When fat32_mk is called for a file of a name of up
  -- to 12 characters of ASCII, none of them 0, it puts its entries behind the others;
  -- DIRTABLE_interpretFromCluster then shows the files as before and the new one behind them,
  -- whatever memory held, and the table and all other clusters are as before.
  pub mk_in-IsMade :
      (clusters : List ℕ)
      → IsUnicode m.icu
      → m.dir_or_archive ≡ archive_attr
      → IsString m.filename
      → IsAscii m.filename
      → length m.filename ≤ 12
      → 8 ≤ length m.filename + 1 + length m.behind
      → 28 ≤ length m.icu.str_to
      → All (IsSlot m.icu) ss
      → All IsNamed ss
      → v.contents cluster ≡ slots_bytes ss ++ replicate k 0
      → 64 * length ss + k ≡ 4096
      → length ss ≤ 62
      → (v' : Volume) × (mk_in boot m (cluster ∷ clusters) v ≡ ok (some v'))
        × IsMade m malloc cluster ss v v'
  unfolding mk_in write_entries
  mk_in-IsMade clusters laws is_file string ascii short behind room h named holds whole few =
      let (new, name, is_slot, created, made, no_cluster, empty, file) =
        new_file laws is_file string ascii short behind room in
      let (mid, first, second) = paste_both m.icu ss new k h is_slot (omega (arith, whole, few)) in
      let slot : find_slot 127 0 (v.contents cluster) ≡ ok (some (64 * length ss)) =
        find_slot-slots m.icu ss 127 0 (v.contents cluster) (replicate (k - 1) 0) h named
          (holds ∙ ap (λ l. slots_bytes ss ++ l) (some_zeros k (omega (arith, whole, few))))
          (omega (arith, few))
        ∙ ap (λ n. ok (some n)) (let e : 0 + 64 * length ss ≡ 64 * length ss = omega arith in e) in
      let bytes = slots_bytes (ss ++ new ∷ []) ++ replicate (k - 64) 0 in
      let all : All (IsSlot m.icu) (ss ++ new ∷ []) =
        All-append (IsSlot m.icu) ss (new ∷ []) h (is_slot, tt) in
      (
        write_cluster cluster bytes v,
        rw (slot, created) (rw (made, holds) (rw (first) (rw (second) refl))),
        record {
          new = new;
          named = name;
          slot = is_slot;
          shown = rw (==-refl cluster) (
              ap
                (λ l.
                  interpret_from_cluster m.icu malloc cluster (slots_bytes (ss ++ new ∷ []) ++ l))
                (some_zeros (k - 64) (omega (arith, whole, few)))
              ∙ interpret_from_cluster-slots m.icu malloc cluster (ss ++ new ∷ [])
                  (replicate (k - 64 - 1) 0) all);
          no_cluster = no_cluster;
          empty = empty;
          file = file;
          same_fat = refl;
          same_data = λ c other. rw (ne→== c cluster other) refl;
        },
      )
