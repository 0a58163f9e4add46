-- ===== src/Pfs/Files/Search.antt =====
-- The search of fat32_mk for a free entry of a directory.
use fuselage_fat32_utn.Prelude.{
  ℕ, zero, suc, ◌+◌, ◌*◌, ◌<◌, ◌≡◌, ◌≢◌, refl, sym, ap, ◌∙◌, arith, false, some, List, [], ◌∷◌,
  ◌++◌, ◌==◌, ◌&&◌, ◌||◌, ltb, length, drop, get_elem?, get_elem?-drop, get_elem?-append,
  drop-append, drop-add, append_assoc, All,
}
use fuselage_fat32_utn.Prelude.Outcome.{ok}
use fuselage_fat32_utn.Pfs.DirEntry.{DirEntry}
use fuselage_fat32_utn.Pfs.DirEntry.Bytes.{entry_bytes, length-entry_bytes}
use fuselage_fat32_utn.Pfs.LfnEntry.{Unicode, lfn_bytes}
use fuselage_fat32_utn.Pfs.LfnEntry.Bytes.{length-lfn_bytes}
use fuselage_fat32_utn.Pfs.Directory.Listing.{Slot, IsSlot, slots_bytes, first_byte}
use fuselage_fat32_utn.Pfs.Files.{find_slot}

-- A file whose own entry does not start with 0.
abbrev pub IsNamed : Slot → Type 0
IsNamed s = (c : ℕ) × (get_elem? s.entry.dos_name 0 ≡ some c) × (c ≢ 0)

entry_bytes-head :
    (e : DirEntry) (rest : List ℕ) (c : ℕ)
    → get_elem? e.dos_name 0 ≡ some c
    → get_elem? (entry_bytes e ++ rest) 0 ≡ some c
unfolding entry_bytes
entry_bytes-head e rest c h =
    get_elem?-append (entry_bytes e) 0 c rest (get_elem?-append e.dos_name 0 c _ h)

-- A place that holds something is passed.
find_slot-taken :
    (rounds offset : ℕ) (bytes : List ℕ) (c : ℕ)
    → get_elem? (drop offset bytes) 0 ≡ some c
    → c ≢ 0
    → find_slot (suc rounds) offset bytes ≡ find_slot rounds (offset + 32) bytes
unfolding find_slot
find_slot-taken rounds offset bytes c h some_name =
    let z : offset + 0 ≡ offset = omega arith in
    let there : get_elem? bytes offset ≡ some c =
      ap (get_elem? bytes) (sym z) ∙ sym (get_elem?-drop offset bytes 0) ∙ h in
    let not_free : ((ltb c 128 && (c == 0xE5)) || (ltb c 128 && (c == 0))) ≡ false =
      ground (arith, some_name) in
    rw there (rw not_free refl)

find_slot-zero :
    (rounds offset : ℕ) (bytes rest : List ℕ)
    → drop offset bytes ≡ 0 ∷ rest
    → find_slot (suc rounds) offset bytes ≡ ok (some offset)
unfolding find_slot
find_slot-zero rounds offset bytes rest h =
    let z : offset + 0 ≡ offset = omega arith in
    let there : get_elem? bytes offset ≡ some 0 =
      ap (get_elem? bytes) (sym z)
      ∙ sym (get_elem?-drop offset bytes 0)
      ∙ ap (λ l. get_elem? l 0) h in
    rw there refl

pub behind_piece : (xs ys : List ℕ) → length xs ≡ 32 → drop 32 (xs ++ ys) ≡ ys
behind_piece xs ys n = ap (λ k. drop k (xs ++ ys)) (sym n) ∙ drop-append xs ys

-- The search passes the files and finds the first entry behind them.
pub find_slot-slots :
    (icu : Unicode) (ss : List Slot) (rounds offset : ℕ) (bytes rest : List ℕ)
    → All (IsSlot icu) ss
    → All IsNamed ss
    → drop offset bytes ≡ slots_bytes ss ++ 0 ∷ rest
    → 2 * length ss < rounds
    → find_slot rounds offset bytes ≡ ok (some (offset + 64 * length ss))
unfolding slots_bytes
find_slot-slots icu [] zero offset bytes rest h k e enough = absurd (omega (arith, enough))
find_slot-slots icu [] (suc rounds) offset bytes rest h k e enough =
    let z : offset ≡ offset + 64 * 0 = omega arith in
    find_slot-zero rounds offset bytes rest e ∙ ap (λ n. ok (some n)) z
find_slot-slots icu (s ∷ ss) zero offset bytes rest h k e enough = absurd (omega (arith, enough))
find_slot-slots icu (s ∷ ss) (suc zero) offset bytes rest h k e enough =
    absurd (omega (arith, enough))
find_slot-slots icu (s ∷ ss) (suc (suc rounds)) offset bytes rest h k e enough =
    let more = slots_bytes ss ++ 0 ∷ rest in
    let whole : drop offset bytes ≡ lfn_bytes s.lfn ++ (entry_bytes s.entry ++ more) =
      e
      ∙ append_assoc (lfn_bytes s.lfn) (entry_bytes s.entry ++ slots_bytes ss) (0 ∷ rest)
      ∙ ap (λ l. lfn_bytes s.lfn ++ l)
          (append_assoc (entry_bytes s.entry) (slots_bytes ss) (0 ∷ rest)) in
    let second : drop (offset + 32) bytes ≡ entry_bytes s.entry ++ more =
      drop-add 32 offset bytes
      ∙ ap (drop 32) whole
      ∙ behind_piece (lfn_bytes s.lfn) (entry_bytes s.entry ++ more)
          (length-lfn_bytes s.lfn h.0.lfn_sized) in
    let third : drop (offset + 32 + 32) bytes ≡ more =
      drop-add 32 (offset + 32) bytes
      ∙ ap (drop 32) second
      ∙ behind_piece (entry_bytes s.entry) more (length-entry_bytes s.entry h.0.entry_sized) in
    let (first, there, low, small) = first_byte s icu (entry_bytes s.entry ++ more) h.0 in
    let (c, head, some_name) = k.0 in
    let size : offset + 32 + 32 + 64 * length ss ≡ offset + 64 * suc (length ss) = omega arith in
    find_slot-taken (suc rounds) offset bytes first (ap (λ l. get_elem? l 0) whole ∙ there)
      (λ q. omega (arith, low, q))
    ∙ find_slot-taken rounds (offset + 32) bytes c
        (ap (λ l. get_elem? l 0) second ∙ entry_bytes-head s.entry more c head) some_name
    ∙ find_slot-slots icu ss rounds (offset + 32 + 32) bytes rest h.1 k.1 third
        (omega (arith, enough))
    ∙ ap (λ n. ok (some n)) size
