-- ===== src/Pfs/LfnEntry/Tests.antt =====
-- A name of two characters in an entry of a long name, with conversions that put a zero behind each
-- character and take it away again, and an allocator that gives 40 bytes.
use fuselage_fat32_utn.Prelude.{
  ℕ, ◌*◌, ◌≡◌, refl, ap, arith, true, false, List, [], ◌∷◌, ◌++◌, length, IsString, take,
  take-append, length-append, replicate, sym, ◌∙◌,
}
use fuselage_fat32_utn.Prelude.Outcome.{ok}
use fuselage_fat32_utn.Pfs.LfnEntry.{LfnEntry, Unicode, get_string}
use fuselage_fat32_utn.Pfs.LfnEntry.Bytes.{IsLfn}
use fuselage_fat32_utn.Pfs.LfnEntry.Names.{IsUnicode}

unfoldable pub widen : List ℕ → List ℕ
widen [] = []
widen (c ∷ cs) = c ∷ 0 ∷ widen cs

unfoldable pub narrow : List ℕ → List ℕ
narrow [] = []
narrow (c ∷ []) = c ∷ []
narrow (c ∷ d ∷ cs) = c ∷ narrow cs

length-widen : (cs : List ℕ) → length (widen cs) ≡ 2 * length cs
unfolding widen
length-widen [] = omega arith
length-widen (c ∷ cs) = omega (arith, length-widen cs)

narrow-widen : (cs : List ℕ) → narrow (widen cs) ≡ cs
unfolding widen narrow
narrow-widen [] = refl
narrow-widen (c ∷ cs) = ap (λ l. c ∷ l) (narrow-widen cs)

abbrev pub plain : Unicode
plain = record {
  utf8_to_utf16 = λ cs. widen cs ++ 0 ∷ 0 ∷ [];
  utf16_to_utf8 = λ w. narrow w ++ 0 ∷ [];
  str_to = replicate 40 7;
}

pub plain-IsUnicode : IsUnicode plain
plain-IsUnicode = record {
  wide = λ cs ascii n. omega (arith, length-widen cs, length-append (widen cs) (0 ∷ 0 ∷ []), n);
  back = λ cs ascii n.
      let long : length (widen cs) ≡ 26 = omega (arith, length-widen cs, n) in
      ap (λ l. narrow l ++ 0 ∷ [])
        (ap (λ k. take k (widen cs ++ 0 ∷ 0 ∷ [])) (sym long) ∙ take-append (widen cs) (0 ∷ 0 ∷ []))
      ∙ ap (λ l. l ++ 0 ∷ []) (narrow-widen cs);
}

abbrev pub name : List ℕ
name = b'a' ∷ b'b' ∷ []

name-IsString : IsString name
name-IsString = (omega arith, (omega arith, tt))

abbrev pub entry_of_name : LfnEntry
entry_of_name = record {
  number = 1;
  last = true;
  deleted = false;
  name_chars1 = b'a' ∷ 0 ∷ b'b' ∷ 0 ∷ 0 ∷ 0 ∷ 0 ∷ 0 ∷ 0 ∷ 0 ∷ [];
  attr = 0x0F;
  reserved = 0;
  checksum = 0;
  name_chars2 = 0 ∷ 0 ∷ 0 ∷ 0 ∷ 0 ∷ 0 ∷ 0 ∷ 0 ∷ 0 ∷ 0 ∷ 0 ∷ 0 ∷ [];
  first_cluster = 0 ∷ 0 ∷ [];
  name_chars3 = 0 ∷ 0 ∷ 0 ∷ 0 ∷ [];
}

pub entry_of_name-IsLfn : IsLfn entry_of_name
entry_of_name-IsLfn = record {
  number = omega arith;
  chars1 = refl;
  chars2 = refl;
  first = refl;
  chars3 = refl;
}

pub get_string-entry_of_name : get_string plain entry_of_name ≡ ok name
unfolding get_string narrow
get_string-entry_of_name = refl
