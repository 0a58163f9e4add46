-- ===== src/Pfs/Directory/Deleted.antt =====
-- What a directory shows when one of its files is deleted: the first bytes of its two entries are
-- 0xE5.
use fuselage_fat32_utn.Prelude.{
  ℕ, suc, ◌+◌, ◌-◌, ◌*◌, ◌<◌, ◌≡◌, refl, sym, ap, ◌∙◌, arith, false, some, List, [], ◌∷◌, ◌++◌,
  ◌==◌, length, drop, get_elem?, drop-append, length-append, length-drop, append_assoc, All, paste,
  paste-behind,
}
use fuselage_fat32_utn.Prelude.Outcome.{ok}
use fuselage_fat32_utn.Pfs.DirEntry.Bytes.{entry_bytes, length-entry_bytes}
use fuselage_fat32_utn.Pfs.LfnEntry.{Unicode, lfn_bytes}
use fuselage_fat32_utn.Pfs.LfnEntry.Bytes.{length-lfn_bytes}
use fuselage_fat32_utn.Pfs.FileEntry.{FileEntry}
use fuselage_fat32_utn.Pfs.Directory.{Malloc, interpret_from, interpret_from_cluster}
use fuselage_fat32_utn.Pfs.Directory.Listing.{
  Slot, IsSlot, slots_bytes, slots_bytes-append, files_of, length-slots_bytes, first_byte,
  interpret_from-slot, interpret_from-slots, interpret_from_cluster-root,
}

-- An entry with another first byte.
abbrev pub marked : List ℕ → List ℕ
marked bytes = 0xE5 ∷ drop 1 bytes

length-marked : (bytes : List ℕ) → length bytes ≡ 32 → length (marked bytes) ≡ 32
length-marked bytes n = omega (arith, n, length-drop 1 bytes)

drop_one : (bytes rest : List ℕ) → length bytes ≡ 32 → drop 1 (bytes ++ rest) ≡ drop 1 bytes ++ rest
drop_one [] rest n = absurd (omega (arith, n))
drop_one (b ∷ bytes) rest n = refl

drop_piece : (xs ys : List ℕ) → length xs ≡ 32 → drop 32 (xs ++ ys) ≡ ys
drop_piece xs ys n = ap (λ k. drop k (xs ++ ys)) (sym n) ∙ drop-append xs ys

-- The bytes of the files with a deleted one between them.
abbrev pub with_deleted : (pre : List Slot) (s : Slot) (post : List Slot) → List ℕ → List ℕ
with_deleted pre s post rest =
    slots_bytes pre
    ++ (marked (lfn_bytes s.lfn) ++ (marked (entry_bytes s.entry) ++ (slots_bytes post ++ rest)))

module _ (icu : Unicode) where
  -- The two marks are put into the entries of a file.
  pub paste-marks :
      (pre : List Slot) (s : Slot) (post : List Slot) (rest : List ℕ)
      → All (IsSlot icu) pre
      → IsSlot icu s
      → (mid : List ℕ) × (paste
            (64 * length pre)
            (0xE5 ∷ [])
            (slots_bytes (pre ++ s ∷ post) ++ rest)
          ≡ ok mid)
        × (paste (64 * length pre + 32) (0xE5 ∷ []) mid ≡ ok (with_deleted pre s post rest))
  paste-marks pre s post rest h old =
      let n = length-slots_bytes icu pre h in
      let a = length-lfn_bytes s.lfn old.lfn_sized in
      let b = length-entry_bytes s.entry old.entry_sized in
      let more = slots_bytes post ++ rest in
      let entries = entry_bytes s.entry ++ more in
      let tail = lfn_bytes s.lfn ++ entries in
      let front = slots_bytes pre ++ marked (lfn_bytes s.lfn) in
      let first =
        paste-behind (64 * length pre) (0xE5 ∷ []) (slots_bytes pre) tail n
          (omega (arith, a, length-append (lfn_bytes s.lfn) entries)) in
      let second =
        paste-behind (64 * length pre + 32) (0xE5 ∷ []) front entries
          (omega (
            arith,
            n,
            length-marked (lfn_bytes s.lfn) a,
            length-append (slots_bytes pre) (marked (lfn_bytes s.lfn)),
          ))
          (omega (arith, b, length-append (entry_bytes s.entry) more)) in
      (
        front ++ entries,
        rw (slots_bytes-append pre s post rest) (
            first
            ∙ ap ok (
                ap (λ l. slots_bytes pre ++ (0xE5 ∷ l)) (drop_one (lfn_bytes s.lfn) entries a)
                ∙ sym (append_assoc (slots_bytes pre) (marked (lfn_bytes s.lfn)) entries))),
        second
            ∙ ap ok (
                ap (λ l. front ++ (0xE5 ∷ l)) (drop_one (entry_bytes s.entry) more b)
                ∙ append_assoc (slots_bytes pre) (marked (lfn_bytes s.lfn))
                    (marked (entry_bytes s.entry) ++ more)),
      )

  module _ (malloc : Malloc) (cluster : ℕ) where
    interpret_from-mark :
        (rounds offset : ℕ) (bytes rest : List ℕ)
        → length bytes ≡ 32
        → interpret_from (suc rounds) icu malloc cluster offset (marked bytes ++ rest)
          ≡ interpret_from rounds icu malloc cluster (offset + 32) rest
    unfolding interpret_from
    interpret_from-mark rounds offset bytes rest n =
        ap (interpret_from rounds icu malloc cluster (offset + 32))
          (drop_piece (marked bytes) rest (length-marked bytes n))

    -- Files in front of others.
    interpret_from-front :
        (pre : List Slot) (rounds offset : ℕ) (rest : List ℕ) (files : List FileEntry)
        → All (IsSlot icu) pre
        → interpret_from rounds icu malloc cluster (offset + 64 * length pre) rest ≡ ok files
        → interpret_from (length pre + rounds) icu malloc cluster offset (slots_bytes pre ++ rest)
          ≡ ok (files_of cluster offset pre ++ files)
    unfolding slots_bytes files_of
    interpret_from-front [] rounds offset rest files h next =
        let z : offset ≡ offset + 64 * 0 = omega arith in
        let r : 0 + rounds ≡ rounds = omega arith in
        ap (λ k. interpret_from k icu malloc cluster offset rest) r
        ∙ ap (λ k. interpret_from rounds icu malloc cluster k rest) z
        ∙ next
    interpret_from-front (s ∷ pre) rounds offset rest files h next =
        let place : offset + 64 + 64 * length pre ≡ offset + 64 * suc (length pre) = omega arith in
        let count : suc (length pre) + rounds ≡ suc (length pre + rounds) = omega arith in
        let rest_files =
          interpret_from-front pre rounds (offset + 64) rest files h.1
            (ap (λ k. interpret_from rounds icu malloc cluster k rest) place ∙ next) in
        ap (λ k. interpret_from k icu malloc cluster offset (slots_bytes (s ∷ pre) ++ rest)) count
        ∙ ap (interpret_from (suc (length pre + rounds)) icu malloc cluster offset) (
            append_assoc (lfn_bytes s.lfn) (entry_bytes s.entry ++ slots_bytes pre) rest
            ∙ ap (λ l. lfn_bytes s.lfn ++ l)
                (append_assoc (entry_bytes s.entry) (slots_bytes pre) rest))
        ∙ interpret_from-slot icu malloc cluster (length pre + rounds) offset s
            (slots_bytes pre ++ rest) (files_of cluster (offset + 64) pre ++ files) h.0 rest_files

    not_point :
        (pre : List Slot) (bytes : List ℕ)
        → All (IsSlot icu) pre
        → (first : ℕ) × (get_elem? (slots_bytes pre ++ 0xE5 ∷ bytes) 0 ≡ some first)
          × ((first == b'.') ≡ false)
    unfolding slots_bytes
    not_point [] bytes h = (0xE5, refl, refl)
    not_point (s ∷ pre) bytes h =
        let (first, there, low, small) =
          first_byte s icu ((entry_bytes s.entry ++ slots_bytes pre) ++ 0xE5 ∷ bytes) h.0 in
        (
          first,
          ap (λ l. get_elem? l 0)
                (append_assoc (lfn_bytes s.lfn) (entry_bytes s.entry ++ slots_bytes pre)
                  (0xE5 ∷ bytes))
              ∙ there,
          ground (arith, low, small),
        )

    -- A deleted file is passed, and the others are shown as before.
    pub interpret_from_cluster-with_deleted :
        (pre : List Slot) (s : Slot) (post : List Slot) (rest : List ℕ)
        → All (IsSlot icu) pre
        → IsSlot icu s
        → All (IsSlot icu) post
        → interpret_from_cluster icu malloc cluster (with_deleted pre s post (0 ∷ rest))
          ≡ ok (files_of cluster 0 pre ++ files_of cluster (64 * length pre + 64) post)
    interpret_from_cluster-with_deleted pre s post rest h old k =
        let a = length-lfn_bytes s.lfn old.lfn_sized in
        let b = length-entry_bytes s.entry old.entry_sized in
        let more = slots_bytes post ++ 0 ∷ rest in
        let bytes = with_deleted pre s post (0 ∷ rest) in
        let behind = marked (lfn_bytes s.lfn) ++ (marked (entry_bytes s.entry) ++ more) in
        let rounds = suc (length bytes) - length pre - 2 in
        let long : length pre + 2 + length post < suc (length bytes) = omega (
          arith,
          length-slots_bytes icu pre h,
          length-slots_bytes icu post k,
          length-append (slots_bytes pre) behind,
          length-append (marked (lfn_bytes s.lfn)) (marked (entry_bytes s.entry) ++ more),
          length-append (marked (entry_bytes s.entry)) more,
          length-append (slots_bytes post) (0 ∷ rest),
          length-marked (lfn_bytes s.lfn) a,
          length-marked (entry_bytes s.entry) b,
        ) in
        let count : suc (length bytes) ≡ length pre + suc (suc rounds) = omega (arith, long) in
        let place : 0 + 64 * length pre + 32 + 32 ≡ 64 * length pre + 64 = omega arith in
        let (first, there, other) =
          not_point pre (drop 1 (lfn_bytes s.lfn) ++ (marked (entry_bytes s.entry) ++ more)) h in
        interpret_from_cluster-root icu malloc cluster bytes first there other
        ∙ ap (λ r. interpret_from r icu malloc cluster 0 bytes) count
        ∙ interpret_from-front pre (suc (suc rounds)) 0 behind
            (files_of cluster (64 * length pre + 64) post) h
            (interpret_from-mark (suc rounds) (0 + 64 * length pre) (lfn_bytes s.lfn)
                (marked (entry_bytes s.entry) ++ more) a
              ∙ interpret_from-mark rounds (0 + 64 * length pre + 32) (entry_bytes s.entry) more b
              ∙ ap (λ o. interpret_from rounds icu malloc cluster o more) place
              ∙ interpret_from-slots icu malloc cluster rounds (64 * length pre + 64) post rest k
                  (omega (arith, long)))
