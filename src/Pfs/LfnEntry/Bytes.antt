-- ===== src/Pfs/LfnEntry/Bytes.antt =====
-- An entry of a long name is read from its 32 bytes as it was written.
use fuselage_fat32_utn.Prelude.{
  ℕ, ◌+◌, ◌/◌, ◌%◌, ◌<◌, ◌≡◌, refl, sym, ap, ◌∙◌, arith, List, ◌∷◌, ◌++◌, ◌==◌, length, take, drop,
  get_elem?, get_elem?-drop, take-append, drop-append, drop-add, length-append, append_assoc,
  memcpy, memcpy-ok, if◌then◌else◌,
}
use fuselage_fat32_utn.Prelude.Outcome.{ok}
use fuselage_fat32_utn.Pfs.LfnEntry.{LfnEntry, lfn_bytes, read_lfn}

-- An entry whose fields have their sizes.
pub record IsLfn (e : LfnEntry) : Type 0 where
  pub number : e.number < 64
  pub chars1 : length e.name_chars1 ≡ 10
  pub chars2 : length e.name_chars2 ≡ 12
  pub first : length e.first_cluster ≡ 2
  pub chars3 : length e.name_chars3 ≡ 4

-- A piece of a known size, in front of others.
module _ (xs ys : List ℕ) (n : ℕ) (h : length xs ≡ n) where
  piece : memcpy n (xs ++ ys) ≡ ok xs
  piece =
      memcpy-ok n (xs ++ ys) (omega (arith, h, length-append xs ys))
      ∙ ap ok (ap (λ k. take k (xs ++ ys)) (sym h) ∙ take-append xs ys)

  behind : drop n (xs ++ ys) ≡ ys
  behind = ap (λ k. drop k (xs ++ ys)) (sym h) ∙ drop-append xs ys

  behind_at : (i : ℕ) → get_elem? (xs ++ ys) (n + i) ≡ get_elem? ys i
  behind_at i = sym (get_elem?-drop n (xs ++ ys) i) ∙ ap (λ l. get_elem? l i) behind

  behind_more : (k : ℕ) → drop (n + k) (xs ++ ys) ≡ drop k ys
  behind_more k = drop-add k n (xs ++ ys) ∙ ap (drop k) behind

abbrev sequence : LfnEntry → ℕ
sequence e = e.number + (if e.last then 64 else 0) + (if e.deleted then 128 else 0)

sequence_fields :
    (e : LfnEntry)
    → e.number < 64
    → (sequence e % 64 ≡ e.number)
      × ((sequence e / 64 % 2 == 1) ≡ e.last)
      × ((sequence e / 128 % 2 == 1) ≡ e.deleted)
sequence_fields e h = ground arith

pub length-lfn_bytes : (e : LfnEntry) → IsLfn e → length (lfn_bytes e) ≡ 32
unfolding lfn_bytes
length-lfn_bytes e v = omega (
  arith,
  v.chars1,
  v.chars2,
  v.first,
  v.chars3,
  length-append e.name_chars1
      (e.attr ∷ e.reserved ∷ e.checksum ∷ e.name_chars2 ++ (e.first_cluster ++ e.name_chars3)),
  length-append e.name_chars2 (e.first_cluster ++ e.name_chars3),
  length-append e.first_cluster e.name_chars3,
)

module _ (e : LfnEntry) (rest : List ℕ) where
  -- What is behind the first characters of the name, and what is behind the next ones.
  abbrev behind_first : List ℕ
  behind_first =
      e.attr ∷ e.reserved ∷ e.checksum ∷ e.name_chars2
      ++ (e.first_cluster ++ (e.name_chars3 ++ rest))

  lfn_bytes-pieces : lfn_bytes e ++ rest ≡ sequence e ∷ (e.name_chars1 ++ behind_first)
  unfolding lfn_bytes
  lfn_bytes-pieces = simp (append_assoc)

  -- An entry of a long name whose fields have their sizes is read from its 32 bytes as it was
  -- written, whatever follows them.
  pub read_lfn-lfn_bytes : IsLfn e → read_lfn (lfn_bytes e ++ rest) ≡ ok e
  unfolding read_lfn
  read_lfn-lfn_bytes v =
      let c3 = e.name_chars3 ++ rest in
      let c2 = e.first_cluster ++ c3 in
      let at = behind_at e.name_chars1 behind_first 10 v.chars1 in
      let more = behind_more e.name_chars1 behind_first 10 v.chars1 in
      let second = behind_more e.name_chars2 c2 12 v.chars2 in
      let p1 = piece e.name_chars1 behind_first 10 v.chars1 in
      let p2 : memcpy 12 (drop 13 (e.name_chars1 ++ behind_first)) ≡ ok e.name_chars2 =
        ap (memcpy 12) (more 3) ∙ piece e.name_chars2 c2 12 v.chars2 in
      let p3 : memcpy 2 (drop 25 (e.name_chars1 ++ behind_first)) ≡ ok e.first_cluster =
        ap (memcpy 2) (more 15 ∙ second 0) ∙ piece e.first_cluster c3 2 v.first in
      let p4 : memcpy 4 (drop 27 (e.name_chars1 ++ behind_first)) ≡ ok e.name_chars3 =
        ap (memcpy 4) (more 17 ∙ second 2 ∙ behind e.first_cluster c3 2 v.first)
        ∙ piece e.name_chars3 rest 4 v.chars3 in
      let (number, last, deleted) = sequence_fields e v.number in
      rw lfn_bytes-pieces (rw (at 0, at 1, at 2, p1, p2, p3, p4) (rw (number, last, deleted) refl))
