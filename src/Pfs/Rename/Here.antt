-- ===== src/Pfs/Rename/Here.antt =====
-- A file of the root directory that gets another name.
use fuselage_fat32_utn.Prelude.{
  ℕ, suc, ◌+◌, ◌*◌, ◌≤◌, ◌≡◌, ◌≢◌, refl, sym, ap, ◌∙◌, arith, some, none, List, [], ◌∷◌, ◌++◌,
  if◌then◌else◌, ltb, length, drop, take, set, All, All-append, IsString, Bool-cases, inl, inr,
  memcpy-ok, length-take, length-set, length-append, append_assoc, paste-behind, ne→==,
}
use fuselage_fat32_utn.Prelude.Outcome.{ok}
use fuselage_fat32_utn.Pfs.Fat.{get_linked_clusters}
use fuselage_fat32_utn.Pfs.Volume.{Volume, write_cluster}
use fuselage_fat32_utn.Pfs.DirEntry.{DirEntry, get_cluster_number, set_dos_name, uppercase}
use fuselage_fat32_utn.Pfs.DirEntry.Bytes.{entry_bytes, IsEntry, length-entry_bytes}
use fuselage_fat32_utn.Pfs.LfnEntry.{Unicode, lfn_bytes}
use fuselage_fat32_utn.Pfs.LfnEntry.Bytes.{length-lfn_bytes}
use fuselage_fat32_utn.Pfs.LfnEntry.Names.{IsAscii, IsUnicode, get_string-set_name_chars}
use fuselage_fat32_utn.Pfs.FilePath.Split.{IsName, split_name_from_path-join}
use fuselage_fat32_utn.Pfs.FileEntry.{FileEntry}
use fuselage_fat32_utn.Pfs.Directory.{Malloc, interpret_from_cluster}
use fuselage_fat32_utn.Pfs.Directory.Listing.{
  Slot, IsSlot, slots_bytes, file_of, files_of, length-slots_bytes, slots_bytes-append,
  interpret_from_cluster-slots,
}
use fuselage_fat32_utn.Pfs.Lookup.{find_named, get_file_entry}
use fuselage_fat32_utn.Pfs.Files.Search.{behind_piece}
use fuselage_fat32_utn.Pfs.Files.Root.{find_named-slot, find_named-none, get_file_entry-root}
use fuselage_fat32_utn.Pfs.Rename.{put_entries, rename_here, rename_to, rename}

length-uppercase : (name : List ℕ) → length (uppercase name) ≡ length name
unfolding uppercase
length-uppercase [] = refl
length-uppercase (c ∷ name) = ap suc (length-uppercase name)

-- The short name that an entry gets; all else stays.
set_dos_name-IsEntry :
    (behind name : List ℕ) (e : DirEntry)
    → 8 ≤ length name + length behind
    → IsEntry e
    → (e' : DirEntry) × (set_dos_name behind name e ≡ ok e')
      × IsEntry e'
      × (get_cluster_number e' ≡ get_cluster_number e)
      × (e'.file_size ≡ e.file_size)
      × (e'.archive ≡ e.archive)
unfolding set_dos_name get_cluster_number
set_dos_name-IsEntry behind name e long v =
    let n = length-uppercase name in
    let memory = uppercase name ++ behind in
    let enough : 8 ≤ length memory =
      omega (arith, n, long, length-append (uppercase name) behind) in
    let eight : length (take 8 memory) ≡ 8 = omega (arith, enough, length-take 8 memory) in
    let marked : length (set (set (take 8 memory) 6 b'~') 7 b'1') ≡ 8 =
      length-set (set (take 8 memory) 6 b'~') 7 b'1' ∙ length-set (take 8 memory) 6 b'~' ∙ eight in
    let sized : length
          (if ltb 8 (length name) then set (set (take 8 memory) 6 b'~') 7 b'1' else take 8 memory)
        ≡ 8 =
      elim (Bool-cases (ltb 8 (length name))) [
        | inl cut ↦ rw cut marked
        | inr whole ↦ rw whole eight
      ] in
    rw (memcpy-ok 8 memory enough) (
      _,
      refl,
      record {
        name = sized;
        extension = v.extension;
        create_time = v.create_time;
        create_date = v.create_date;
        access = v.access;
        modified_time = v.modified_time;
        modified_date = v.modified_date;
        size = v.size;
      },
      refl,
      refl,
      refl,
    )

-- The entries of a file are replaced by others.
put_entries-slot :
    (icu : Unicode) (pre : List Slot) (s s' : Slot) (post : List Slot) (rest : List ℕ)
    → All (IsSlot icu) pre
    → IsSlot icu s
    → IsSlot icu s'
    → put_entries
        (file_of 2 (64 * length pre) s')
        (64 * length pre)
        (slots_bytes (pre ++ s ∷ post) ++ rest)
      ≡ ok (slots_bytes (pre ++ s' ∷ post) ++ rest)
put_entries-slot icu pre s s' post rest h old new =
    let n = length-slots_bytes icu pre h in
    let a = length-lfn_bytes s'.lfn new.lfn_sized in
    let b = length-entry_bytes s'.entry new.entry_sized in
    let a' = length-lfn_bytes s.lfn old.lfn_sized in
    let b' = length-entry_bytes s.entry old.entry_sized in
    let more = slots_bytes post ++ rest in
    let tail = lfn_bytes s.lfn ++ (entry_bytes s.entry ++ more) in
    let front = slots_bytes pre ++ lfn_bytes s'.lfn in
    let first =
      paste-behind (64 * length pre) (lfn_bytes s'.lfn) (slots_bytes pre) tail n
        (omega (arith, a, a', length-append (lfn_bytes s.lfn) (entry_bytes s.entry ++ more))) in
    let cut : drop (length (lfn_bytes s'.lfn)) tail ≡ entry_bytes s.entry ++ more =
      ap (λ j. drop j tail) a ∙ behind_piece (lfn_bytes s.lfn) (entry_bytes s.entry ++ more) a' in
    let second =
      paste-behind (64 * length pre + 32) (entry_bytes s'.entry) front (entry_bytes s.entry ++ more)
        (omega (arith, n, a, length-append (slots_bytes pre) (lfn_bytes s'.lfn)))
        (omega (arith, b, b', length-append (entry_bytes s.entry) more)) in
    let cut' : drop (length (entry_bytes s'.entry)) (entry_bytes s.entry ++ more) ≡ more =
      ap (λ j. drop j (entry_bytes s.entry ++ more)) b
      ∙ behind_piece (entry_bytes s.entry) more b' in
    let mid : slots_bytes pre ++ (lfn_bytes s'.lfn ++ drop (length (lfn_bytes s'.lfn)) tail)
        ≡ front ++ (entry_bytes s.entry ++ more) =
      ap (λ l. slots_bytes pre ++ (lfn_bytes s'.lfn ++ l)) cut
      ∙ sym (append_assoc (slots_bytes pre) (lfn_bytes s'.lfn) (entry_bytes s.entry ++ more)) in
    let last : front
          ++ (entry_bytes s'.entry
              ++ drop (length (entry_bytes s'.entry)) (entry_bytes s.entry ++ more))
        ≡ slots_bytes (pre ++ s' ∷ post) ++ rest =
      ap (λ l. front ++ (entry_bytes s'.entry ++ l)) cut'
      ∙ append_assoc (slots_bytes pre) (lfn_bytes s'.lfn) _
      ∙ sym (slots_bytes-append pre s' post rest) in
    rw (slots_bytes-append pre s post rest) (rw first (rw mid (second ∙ ap ok last)))

module _ (rounds : ℕ) (icu : Unicode) (malloc : Malloc) (behind name : List ℕ) (pre : List Slot)
    (s : Slot) (post : List Slot) (rest : List ℕ) (v : Volume) (laws : IsUnicode icu)
    (string : IsString name) (ascii : IsAscii name) (is_name : IsName name)
    (short : length name ≤ 12) (long : 8 ≤ length name + 1 + length behind)
    (room : 28 ≤ length icu.str_to) (before : All (IsSlot icu) pre) (old : IsSlot icu s)
    (after : All (IsSlot icu) post) (old_name : IsName s.name)
    (chain : get_linked_clusters rounds v.fat 2 ≡ ok (2 ∷ []))
    (holds : v.contents 2 ≡ slots_bytes (pre ++ s ∷ post) ++ 0 ∷ rest)
    (others_before : All (λ (x : Slot). x.name ≢ s.name) pre)
    (others_after : All (λ (x : Slot). x.name ≢ s.name) post)
    (new_before : All (λ (x : Slot). x.name ≢ name) pre)
    (new_after : All (λ (x : Slot). x.name ≢ name) post) (changes : s.name ≢ name) where
  abbrev all_slots : All (IsSlot icu) (pre ++ s ∷ post)
  all_slots = All-append (IsSlot icu) pre (s ∷ post) before (old, after)

  search_before :
      (path : List ℕ)
      → IsName path
      → get_file_entry rounds icu malloc v (b'/' ∷ path)
        ≡ ok (find_named path (files_of 2 0 (pre ++ s ∷ post)))
  search_before path h =
      get_file_entry-root rounds icu malloc v path (files_of 2 0 (pre ++ s ∷ post)) h chain (
        ap (λ bytes. interpret_from_cluster icu malloc 2 bytes) holds
        ∙ interpret_from_cluster-slots icu malloc 2 (pre ++ s ∷ post) rest all_slots)

  search_behind :
      (s' : Slot) (path : List ℕ)
      → IsSlot icu s'
      → IsName path
      → get_file_entry rounds icu malloc
          (write_cluster 2 (slots_bytes (pre ++ s' ∷ post) ++ 0 ∷ rest) v)
          (b'/' ∷ path)
        ≡ ok (find_named path (files_of 2 0 (pre ++ s' ∷ post)))
  search_behind s' path new h =
      get_file_entry-root rounds icu malloc
        (write_cluster 2 (slots_bytes (pre ++ s' ∷ post) ++ 0 ∷ rest) v) path
        (files_of 2 0 (pre ++ s' ∷ post)) h chain
        (interpret_from_cluster-slots icu malloc 2 (pre ++ s' ∷ post) rest
          (All-append (IsSlot icu) pre (s' ∷ post) before (new, after)))

  -- Let the root directory be one cluster of files with long names, one of them alone of the old name,
  -- which has no slash, and none of the new one, which has up to 12 characters of ASCII, none of them
  -- 0 or a slash. Let the conversions keep ASCII, let memory hold eight bytes from the start of the
  -- new name, and let `malloc` give 28 bytes at least where LFNENTRY_setNameChars asks for 26. Behind fuselage_rename the file is found under the new name, with the cluster and the
  -- size that it had, and under the old name none is found. The table and all other clusters are as
  -- before.
  pub get_file_entry-rename :
      (v' : Volume) × (f : FileEntry) × (rename rounds icu malloc behind
          (b'/' ∷ s.name)
          (b'/' ∷ name)
          v
        ≡ ok v')
      × (get_file_entry rounds icu malloc v' (b'/' ∷ name) ≡ ok (some f))
      × (f.long_file_name ≡ name)
      × (get_cluster_number f.dir_entry ≡ get_cluster_number s.entry)
      × (f.dir_entry.file_size ≡ s.entry.file_size)
      × (get_file_entry rounds icu malloc v' (b'/' ∷ s.name) ≡ ok none)
      × (v'.fat ≡ v.fat)
      × ((c : ℕ) → c ≢ 2 → v'.contents c ≡ v.contents c)
  unfolding rename rename_to rename_here
  get_file_entry-rename =
      let (lfn, put, read, number, deleted, sized) =
        get_string-set_name_chars icu laws name s.lfn old.lfn_sized string ascii short room in
      let (entry, marked, fits, same_cluster, same_size, same_kind) =
        set_dos_name-IsEntry (0 ∷ behind) name s.entry (omega (arith, long)) old.entry_sized in
      let s' : Slot = record { name = name; lfn = lfn; entry = entry } in
      let new : IsSlot icu s' = record {
        lfn_sized = sized;
        only = number ∙ old.only;
        kept = deleted ∙ old.kept;
        named = read;
        entry_sized = fits;
      } in
      let none_new =
        search_before name is_name
        ∙ ap ok (
            find_named-none name 2 0 (pre ++ s ∷ post) (
              All-append (λ (x : Slot). x.name ≢ name) pre (s ∷ post) new_before
                (changes, new_after))) in
      let found =
        search_before s.name old_name
        ∙ ap ok (find_named-slot s.name 2 0 pre s post others_before refl)
        ∙ ap (λ n. ok (some (file_of 2 n s)))
            (let z : 0 + 64 * length pre ≡ 64 * length pre = omega arith in z) in
      let bytes = put_entries-slot icu pre s s' post (0 ∷ rest) before old new in
      let gone : (x : Slot) → x.name ≡ name → x.name ≢ s.name = λ x e q. changes (sym q ∙ e) in
      (
        write_cluster 2 (slots_bytes (pre ++ s' ∷ post) ++ 0 ∷ rest) v,
        file_of 2 (0 + 64 * length pre) s',
        rw none_new (
            rw
              (
                found,
                split_name_from_path-join [] name is_name,
                split_name_from_path-join [] s.name old_name,
              )
              (rw (put, marked, holds) (rw bytes refl))),
        search_behind s' name new is_name
            ∙ ap ok (find_named-slot name 2 0 pre s' post new_before refl),
        refl,
        same_cluster,
        same_size,
        search_behind s' s.name new old_name
            ∙ ap ok (
                find_named-none s.name 2 0 (pre ++ s' ∷ post) (
                  All-append (λ (x : Slot). x.name ≢ s.name) pre (s' ∷ post) others_before
                    (gone s' refl, others_after))),
        refl,
        λ c other. rw (ne→== c 2 other) refl,
      )
