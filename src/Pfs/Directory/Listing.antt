-- ===== src/Pfs/Directory/Listing.antt =====
-- The files that a directory shows when each of them has an entry of a long name and one of its own.
use fuselage_fat32_utn.Prelude.{
  ℕ, zero, suc, ◌+◌, ◌*◌, ◌%◌, ◌<◌, ◌≡◌, refl, sym, ap, ◌∙◌, arith, true, false, some, List, [],
  ◌∷◌, ◌++◌, ◌==◌, ◌&&◌, ltb, length, drop, get_elem?, drop-append, drop-add, length-append,
  append_assoc, All,
}
use fuselage_fat32_utn.Prelude.Outcome.{ok}
use fuselage_fat32_utn.Pfs.DirEntry.{DirEntry}
use fuselage_fat32_utn.Pfs.DirEntry.Bytes.{
  entry_bytes, IsEntry, read_entry-entry_bytes, length-entry_bytes,
}
use fuselage_fat32_utn.Pfs.LfnEntry.{LfnEntry, Unicode, lfn_bytes, get_string}
use fuselage_fat32_utn.Pfs.LfnEntry.Bytes.{IsLfn, read_lfn-lfn_bytes, length-lfn_bytes}
use fuselage_fat32_utn.Pfs.FileEntry.{FileEntry}
use fuselage_fat32_utn.Pfs.Directory.{Malloc, interpret_from, interpret_from_cluster}

-- A file of a directory: its name and its two entries.
pub record Slot : Type 0 where
  pub name : List ℕ
  pub lfn : LfnEntry
  pub entry : DirEntry

-- The name is that of the one entry of a long name, which is not deleted, and the fields have their
-- sizes.
pub record IsSlot (icu : Unicode) (s : Slot) : Type 0 where
  pub lfn_sized : IsLfn s.lfn
  pub only : s.lfn.number ≡ 1
  pub kept : s.lfn.deleted ≡ false
  pub named : get_string icu s.lfn ≡ ok s.name
  pub entry_sized : IsEntry s.entry

unfoldable pub slots_bytes : List Slot → List ℕ
slots_bytes [] = []
slots_bytes (s ∷ ss) = lfn_bytes s.lfn ++ (entry_bytes s.entry ++ slots_bytes ss)

abbrev pub file_of : (cluster offset : ℕ) → Slot → FileEntry
file_of cluster offset s = record {
  long_file_name = s.name;
  has_lfn = true;
  cluster = cluster;
  offset = offset;
  lfn_entry = s.lfn;
  dir_entry = s.entry;
}

unfoldable pub files_of : (cluster offset : ℕ) → List Slot → List FileEntry
files_of cluster offset [] = []
files_of cluster offset (s ∷ ss) = file_of cluster offset s ∷ files_of cluster (offset + 64) ss

pub length-slots_bytes :
    (icu : Unicode) (ss : List Slot)
    → All (IsSlot icu) ss
    → length (slots_bytes ss) ≡ 64 * length ss
unfolding slots_bytes
length-slots_bytes icu [] h = omega arith
length-slots_bytes icu (s ∷ ss) h = omega (
  arith,
  length-append (lfn_bytes s.lfn) (entry_bytes s.entry ++ slots_bytes ss),
  length-append (entry_bytes s.entry) (slots_bytes ss),
  length-lfn_bytes s.lfn h.0.lfn_sized,
  length-entry_bytes s.entry h.0.entry_sized,
  length-slots_bytes icu ss h.1,
)

pub slots_bytes-append :
    (pre : List Slot) (s : Slot) (post : List Slot) (rest : List ℕ)
    → slots_bytes (pre ++ s ∷ post) ++ rest
      ≡ slots_bytes pre ++ (lfn_bytes s.lfn ++ (entry_bytes s.entry ++ (slots_bytes post ++ rest)))
unfolding slots_bytes
slots_bytes-append [] s post rest = simp (append_assoc)
slots_bytes-append (x ∷ pre) s post rest =
    append_assoc (lfn_bytes x.lfn) (entry_bytes x.entry ++ slots_bytes (pre ++ s ∷ post)) rest
    ∙ ap (λ l. lfn_bytes x.lfn ++ l)
        (append_assoc (entry_bytes x.entry) (slots_bytes (pre ++ s ∷ post)) rest
          ∙ ap (λ l. entry_bytes x.entry ++ l) (slots_bytes-append pre s post rest)
          ∙ sym (append_assoc (entry_bytes x.entry) (slots_bytes pre) _))
    ∙ sym (append_assoc (lfn_bytes x.lfn) (entry_bytes x.entry ++ slots_bytes pre) _)

-- The first byte of the entry of a long name.
pub first_byte :
    (s : Slot) (icu : Unicode) (rest : List ℕ)
    → IsSlot icu s
    → (first : ℕ) × (get_elem? (lfn_bytes s.lfn ++ rest) 0 ≡ some first)
      × (first % 64 ≡ 1)
      × (first < 128)
unfolding lfn_bytes
first_byte s icu rest h = rw (h.only, h.kept) (_, refl, ground arith, ground arith)

module _ (icu : Unicode) (malloc : Malloc) (cluster : ℕ) where
  -- The next file is read and passed.
  pub interpret_from-slot :
      (rounds offset : ℕ) (s : Slot) (rest : List ℕ) (files : List FileEntry)
      → IsSlot icu s
      → interpret_from rounds icu malloc cluster (offset + 64) rest ≡ ok files
      → interpret_from
          (suc rounds)
          icu
          malloc
          cluster
          offset
          (lfn_bytes s.lfn ++ (entry_bytes s.entry ++ rest))
        ≡ ok (file_of cluster offset s ∷ files)
  unfolding interpret_from
  interpret_from-slot rounds offset s rest files h next =
      let (first, there, low, small) = first_byte s icu (entry_bytes s.entry ++ rest) h in
      let n = length-lfn_bytes s.lfn h.lfn_sized in
      let m = length-entry_bytes s.entry h.entry_sized in
      let memory = lfn_bytes s.lfn ++ (entry_bytes s.entry ++ rest) in
      let second : drop 32 memory ≡ entry_bytes s.entry ++ rest =
        ap (λ k. drop k memory) (sym n)
        ∙ drop-append (lfn_bytes s.lfn) (entry_bytes s.entry ++ rest) in
      let third : drop 64 memory ≡ rest =
        drop-add 32 32 memory
        ∙ ap (drop 32) second
        ∙ ap (λ k. drop k (entry_bytes s.entry ++ rest)) (sym m)
        ∙ drop-append (entry_bytes s.entry) rest in
      let not_end : (first == 0) ≡ false = ground (arith, low) in
      let not_deleted : (first == 0xE5) ≡ false = ground (arith, small) in
      let long_name : (first % 64 == 1 && ltb first 128) ≡ true = ground (arith, low, small) in
      rw there (
        rw (not_end, not_deleted, long_name)
          (rw
            (
              read_lfn-lfn_bytes s.lfn (entry_bytes s.entry ++ rest) h.lfn_sized,
              h.named,
              second,
              read_entry-entry_bytes s.entry rest h.entry_sized,
              third,
              next,
            )
            refl))

  -- The files of a directory are read up to the first entry that starts with 0.
  pub interpret_from-slots :
      (rounds offset : ℕ) (ss : List Slot) (rest : List ℕ)
      → All (IsSlot icu) ss
      → length ss < rounds
      → interpret_from rounds icu malloc cluster offset (slots_bytes ss ++ 0 ∷ rest)
        ≡ ok (files_of cluster offset ss)
  unfolding slots_bytes files_of
  interpret_from-slots zero offset ss rest h enough = absurd (omega (arith, enough))
  interpret_from-slots (suc rounds) offset [] rest h enough = unfold interpret_from in refl
  interpret_from-slots (suc rounds) offset (s ∷ ss) rest h enough =
      let next = interpret_from-slots rounds (offset + 64) ss rest h.1 (omega (arith, enough)) in
      ap (interpret_from (suc rounds) icu malloc cluster offset) (
        append_assoc (lfn_bytes s.lfn) (entry_bytes s.entry ++ slots_bytes ss) (0 ∷ rest)
        ∙ ap (λ l. lfn_bytes s.lfn ++ l)
            (append_assoc (entry_bytes s.entry) (slots_bytes ss) (0 ∷ rest)))
      ∙ interpret_from-slot rounds offset s (slots_bytes ss ++ 0 ∷ rest)
          (files_of cluster (offset + 64) ss) h.0 next

  pub interpret_from_cluster-root :
      (bytes : List ℕ) (first : ℕ)
      → get_elem? bytes 0 ≡ some first
      → (first == b'.') ≡ false
      → interpret_from_cluster icu malloc cluster bytes
        ≡ interpret_from (suc (length bytes)) icu malloc cluster 0 bytes
  unfolding interpret_from_cluster
  interpret_from_cluster-root bytes first there other =
      rw (interpret_from_cluster, there) (rw other refl)

  starts :
      (ss : List Slot) (rest : List ℕ)
      → All (IsSlot icu) ss
      → (first : ℕ) × (get_elem? (slots_bytes ss ++ 0 ∷ rest) 0 ≡ some first)
        × ((first == b'.') ≡ false)
  unfolding slots_bytes
  starts [] rest h = (0, refl, refl)
  starts (s ∷ ss) rest h =
      let (first, there, low, small) =
        first_byte s icu ((entry_bytes s.entry ++ slots_bytes ss) ++ 0 ∷ rest) h.0 in
      (
        first,
        ap (λ l. get_elem? l 0)
              (append_assoc (lfn_bytes s.lfn) (entry_bytes s.entry ++ slots_bytes ss) (0 ∷ rest))
            ∙ there,
        ground (arith, low, small),
      )

  -- DIRTABLE_interpretFromCluster finds the files that a cluster of the root directory holds, each
  -- with its name, its entries and its place, in their order, when each has one entry of a long name
  -- and its own entry, and an entry that starts with 0 follows the last one. What memory held before
  -- does not matter, and enough rounds are granted.
  pub interpret_from_cluster-slots :
      (ss : List Slot) (rest : List ℕ)
      → All (IsSlot icu) ss
      → interpret_from_cluster icu malloc cluster (slots_bytes ss ++ 0 ∷ rest)
        ≡ ok (files_of cluster 0 ss)
  interpret_from_cluster-slots ss rest h =
      let (first, there, other) = starts ss rest h in
      interpret_from_cluster-root (slots_bytes ss ++ 0 ∷ rest) first there other
      ∙ interpret_from-slots (suc (length (slots_bytes ss ++ 0 ∷ rest))) 0 ss rest h
          (omega (arith, length-append (slots_bytes ss) (0 ∷ rest), length-slots_bytes icu ss h))
