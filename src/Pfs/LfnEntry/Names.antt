-- ===== src/Pfs/LfnEntry/Names.antt =====
-- A name that is put into an entry is read from it.
use fuselage_fat32_utn.Prelude.{
  ℕ, suc, ◌+◌, ◌-◌, ◌<◌, ◌≤◌, ◌≡◌, refl, sym, ap, ◌∙◌, arith, List, [], ◌∷◌, ◌++◌, length, take,
  drop, replicate, All, length-append, length-replicate, IsString, c_string-append, append_assoc,
  set, paste, le→leb, leb, true, false, All-append, zero, memcpy-ok, memcpy, length-drop, drop-add,
  drop-replicate, length-take, take_all,
}
use fuselage_fat32_utn.Prelude.Outcome.{ok, fault}
use fuselage_fat32_utn.Pfs.LfnEntry.Bytes.{IsLfn}
use fuselage_fat32_utn.Pfs.LfnEntry.{LfnEntry, Unicode, set_name_chars, create_lfn, get_string}

-- The characters of ASCII are below 128.
abbrev pub IsAscii : List ℕ → Type 0
IsAscii cs = All (λ c. c < 128) cs

-- What is relied on of the conversions: of 13 characters of ASCII both keep the number and the
-- values, a character has two bytes in the one form and one in the other, and both put a character 0
-- behind them, as their capacities leave room for it.
pub record IsUnicode (icu : Unicode) : Type 0 where
  pub wide : (cs : List ℕ) → IsAscii cs → length cs ≡ 13 → length (icu.utf8_to_utf16 cs) ≡ 28
  pub back :
      (cs : List ℕ)
      → IsAscii cs
      → length cs ≡ 13
      → icu.utf16_to_utf8 (take 26 (icu.utf8_to_utf16 cs)) ≡ cs ++ 0 ∷ []

gt→leb : (m n : ℕ) → n < m → leb m n ≡ false
gt→leb m n h = ground arith

padded : List ℕ → List ℕ
padded name = name ++ 0 ∷ replicate (12 - length name) 0

All-replicate : (n : ℕ) → IsAscii (replicate n 0)
All-replicate zero = tt
All-replicate (suc n) = (omega arith, All-replicate n)

-- The 13 bytes that are converted.
str_from-padded :
    (name : List ℕ)
    → length name ≤ 12
    → paste 0 (name ++ 0 ∷ []) (replicate 13 0) ≡ ok (padded name)
unfolding padded
str_from-padded name h =
    let n : length (name ++ 0 ∷ []) ≡ length name + 1 = length-append name (0 ∷ []) in
    let rest : drop (0 + length (name ++ 0 ∷ [])) (replicate {A = ℕ} 13 0)
        ≡ replicate (12 - length name) 0 =
      drop-replicate 13 (0 + length (name ++ 0 ∷ []))
      ∙ ap (λ k. replicate {A = ℕ} k 0)
          (let e : 13 - (0 + length (name ++ 0 ∷ [])) ≡ 12 - length name = omega (arith, n) in e) in
    rw
      (le→leb (0 + length (name ++ 0 ∷ [])) (length {A = ℕ} (replicate 13 0)) (omega (arith, n, h)))
      (rw rest (ap ok (append_assoc name (0 ∷ []) (replicate (12 - length name) 0))))

length-padded : (name : List ℕ) → length name ≤ 12 → length (padded name) ≡ 13
unfolding padded
length-padded name h = omega (
  arith,
  h,
  length-append name (0 ∷ replicate (12 - length name) 0),
  length-replicate {A = ℕ} (12 - length name) 0,
)

padded-IsAscii : (name : List ℕ) → IsAscii name → IsAscii (padded name)
unfolding padded
padded-IsAscii name ascii =
    All-append (λ c. c < 128) name (0 ∷ replicate (12 - length name) 0) ascii
      (omega arith, All-replicate (12 - length name))

set-last : (xs : List ℕ) (i a : ℕ) → i ≡ length xs → set (xs ++ a ∷ []) i a ≡ xs ++ a ∷ []
set-last [] zero a h = refl
set-last [] (suc i) a h = absurd (omega (arith, h))
set-last (x ∷ xs) zero a h = absurd (omega (arith, h))
set-last (x ∷ xs) (suc i) a h = ap (λ l. x ∷ l) (set-last xs i a (omega (arith, h)))

take-add : (m n : ℕ) (w : List ℕ) → take (m + n) w ≡ take m w ++ take n (drop m w)
take-add zero n w = ap (λ k. take k w) (let e : 0 + n ≡ n = omega arith in e)
take-add (suc m) zero [] =
    ap (λ k. take {A = ℕ} k []) (let e : suc m + 0 ≡ suc m = omega arith in e)
take-add (suc m) (suc n) [] =
    ap (λ k. take {A = ℕ} k []) (let e : suc m + suc n ≡ suc (m + suc n) = omega arith in e)
take-add (suc m) n (c ∷ w) =
    ap (λ k. take k (c ∷ w)) (let e : suc m + n ≡ suc (m + n) = omega arith in e)
    ∙ ap (λ l. c ∷ l) (take-add m n w)

take-longer : (n : ℕ) (w more : List ℕ) → n ≤ length w → take n (w ++ more) ≡ take n w
take-longer zero w more h = refl
take-longer (suc n) [] more h = absurd (omega (arith, h))
take-longer (suc n) (c ∷ w) more h = ap (λ l. c ∷ l) (take-longer n w more (omega (arith, h)))

-- The first 26 bytes are taken apart and put together again.
pieces : (w : List ℕ) → take 10 w ++ (take 12 (drop 10 w) ++ take 4 (drop 22 w)) ≡ take 26 w
pieces w =
    ap (λ l. take 10 w ++ (take 12 (drop 10 w) ++ take 4 l)) (drop-add 12 10 w)
    ∙ ap (λ l. take 10 w ++ l) (sym (take-add 12 4 (drop 10 w)))
    ∙ sym (take-add 10 16 w)

memcpy-exact : (n : ℕ) (w : List ℕ) → length w ≡ n → memcpy n w ≡ ok w
memcpy-exact n w h = memcpy-ok n w (omega (arith, h)) ∙ ap ok (take_all n w (omega (arith, h)))

module _ (icu : Unicode) (laws : IsUnicode icu) (name : List ℕ) where
  -- Let `malloc` give 28 bytes at least where 26 are asked for. A name of up to 12 characters of ASCII
  -- that is put into an entry of a long name is read from it as it was, and its other fields stay.
  pub get_string-set_name_chars :
      (old : LfnEntry)
      → IsLfn old
      → IsString name
      → IsAscii name
      → length name ≤ 12
      → 28 ≤ length icu.str_to
      → (e : LfnEntry) × (set_name_chars icu name old ≡ ok e)
        × (get_string icu e ≡ ok name)
        × (e.number ≡ old.number)
        × (e.deleted ≡ old.deleted)
        × IsLfn e
  unfolding set_name_chars get_string
  get_string-set_name_chars old sized string ascii h room =
      let u = icu.utf8_to_utf16 (padded name) in
      let behind = drop (0 + length u) icu.str_to in
      let w = u ++ behind in
      let all = padded-IsAscii name ascii in
      let wide : length u ≡ 28 = laws.wide (padded name) all (length-padded name h) in
      let fits : leb (0 + length u) (length icu.str_to) ≡ true =
        le→leb (0 + length u) (length icu.str_to) (omega (arith, wide, room)) in
      let n : 28 ≤ length w = omega (arith, wide, length-append u behind) in
      let same : take 26 w ≡ take 26 u = take-longer 26 u behind (omega (arith, wide)) in
      let a : length (take 10 w) ≡ 10 = omega (arith, n, length-take 10 w) in
      let b : length (take 12 (drop 10 w)) ≡ 12 =
        omega (arith, n, length-drop 10 w, length-take 12 (drop 10 w)) in
      let c : length (take 4 (drop 22 w)) ≡ 4 =
        omega (arith, n, length-drop 22 w, length-take 4 (drop 22 w)) in
      let rest : List ℕ = replicate (12 - length name) 0 ++ 0 ∷ [] in
      let text : set (padded name ++ 0 ∷ []) 13 0 ≡ name ++ 0 ∷ rest =
        set-last (padded name) 13 0 (sym (length-padded name h))
        ∙ unfold padded in append_assoc name (0 ∷ replicate (12 - length name) 0) (0 ∷ []) in
      (
        record old {
          name_chars1 = take 10 w;
          name_chars2 = take 12 (drop 10 w);
          name_chars3 = take 4 (drop 22 w);
        },
        rw (str_from-padded name h) (
            rw fits (
              rw
                (
                  memcpy-ok 10 w (omega (arith, n)),
                  memcpy-ok 12 (drop 10 w) (omega (arith, n, length-drop 10 w)),
                  memcpy-ok 4 (drop 22 w) (omega (arith, n, length-drop 22 w)),
                )
                refl)),
        rw
            (
              memcpy-exact 10 (take 10 w) a,
              memcpy-exact 12 (take 12 (drop 10 w)) b,
              memcpy-exact 4 (take 4 (drop 22 w)) c,
            )
            (rw (pieces w, same, laws.back (padded name) all (length-padded name h), text)
              (c_string-append name rest string)),
        refl,
        refl,
        record { number = sized.number; chars1 = a; chars2 = b; first = sized.first; chars3 = c },
      )

  -- Let `malloc` give 28 bytes at least where 26 are asked for. A name of up to 12 characters of ASCII
  -- that is put into a new entry of a long name is read from it as it was, and the entry is the only one of its name, not deleted, and its fields have their
  -- sizes.
  pub get_string-create_lfn :
      IsString name
      → IsAscii name
      → length name ≤ 12
      → 28 ≤ length icu.str_to
      → (e : LfnEntry) × (create_lfn icu name ≡ ok e)
        × (get_string icu e ≡ ok name)
        × (e.number ≡ 1)
        × (e.deleted ≡ false)
        × IsLfn e
  unfolding create_lfn
  get_string-create_lfn string ascii h room =
      get_string-set_name_chars
        (record {
          number = 1;
          last = true;
          deleted = false;
          name_chars1 = replicate 10 0;
          attr = 0x0F;
          reserved = 0;
          checksum = 0;
          name_chars2 = replicate 12 0;
          first_cluster = replicate 2 0;
          name_chars3 = replicate 4 0;
        })
        (record { number = omega arith; chars1 = refl; chars2 = refl; first = refl; chars3 = refl })
        string ascii h room

  -- A name of 13 characters or more is written past the end of the 13 bytes that hold its copy.
  pub create_lfn-long : 13 ≤ length name → create_lfn icu name ≡ fault
  unfolding create_lfn set_name_chars
  create_lfn-long h =
      rw
        (gt→leb (0 + length (name ++ 0 ∷ [])) (length {A = ℕ} (replicate 13 0))
          (omega (arith, h, length-append name (0 ∷ []))))
        refl

  -- With an object of fewer than 28 bytes, as the 26 that are asked for, the 0 that ends the converted
  -- name is written past its end, whatever name of ASCII it is.
  pub create_lfn-overflow :
      IsAscii name → length name ≤ 12 → length icu.str_to < 28 → create_lfn icu name ≡ fault
  unfolding create_lfn set_name_chars
  create_lfn-overflow ascii h small =
      let wide : length (icu.utf8_to_utf16 (padded name)) ≡ 28 =
        laws.wide (padded name) (padded-IsAscii name ascii) (length-padded name h) in
      rw (str_from-padded name h) (
        rw
          (gt→leb (0 + length (icu.utf8_to_utf16 (padded name))) (length icu.str_to)
            (omega (arith, wide, small)))
          refl)
