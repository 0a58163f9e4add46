-- ===== src/Pfs/FilePath/Split.antt =====
-- A path is split where its name was put behind it.
use mathlib.Core.List.{reverse, reverse-append, reverse-cons}
use fuselage_fat32_utn.Prelude.{
  ℕ, ◌+◌, ◌-◌, ◌≡◌, ◌≢◌, refl, sym, ap, ◌∙◌, arith, List, [], ◌∷◌, ◌++◌, ◌==◌, ne→==, length, take,
  drop, All, All-append, if◌then◌else◌, length-append, take-append, drop-append, append_assoc,
  take_all,
}
use fuselage_fat32_utn.Prelude.Outcome.{ok}
use fuselage_fat32_utn.Pfs.FilePath.{count_name, split_name_from_path}

-- Characters without a slash.
abbrev pub IsName : List ℕ → Type 0
IsName name = All (λ c. c ≢ b'/') name

count_name-slash :
    (name before : List ℕ) → IsName name → count_name (name ++ b'/' ∷ before) ≡ ok (length name)
unfolding count_name
count_name-slash [] before h = refl
count_name-slash (c ∷ name) before h = rw (ne→== c b'/' h.0, count_name-slash name before h.1) refl

reverse-IsName : (name : List ℕ) → IsName name → IsName (reverse name)
reverse-IsName [] h = tt
reverse-IsName (c ∷ name) h =
    rw (reverse-cons c name)
      (All-append (λ d. d ≢ b'/') (reverse name) (c ∷ []) (reverse-IsName name h.1) (h.0, tt))

length-reverse : (xs : List ℕ) → length (reverse xs) ≡ length xs
length-reverse [] = refl
length-reverse (x ∷ xs) =
    rw (reverse-cons x xs) (omega (arith, length-append (reverse xs) (x ∷ []), length-reverse xs))

reverse-path :
    (dir name : List ℕ) → reverse (dir ++ b'/' ∷ name) ≡ reverse name ++ b'/' ∷ reverse dir
reverse-path dir name =
    reverse-append dir (b'/' ∷ name)
    ∙ ap (λ l. l ++ reverse dir) (reverse-cons b'/' name)
    ∙ append_assoc (reverse name) (b'/' ∷ []) (reverse dir)

-- A path that is a directory, a slash and a name without a slash is split into the name and the
-- directory; for a name behind the first slash the directory is "/".
pub split_name_from_path-join :
    (dir name : List ℕ)
    → IsName name
    → split_name_from_path (dir ++ b'/' ∷ name)
      ≡ ok (name, if length dir == 0 then b'/' ∷ [] else dir)
unfolding split_name_from_path
split_name_from_path-join dir name h =
    let counted : count_name (reverse (dir ++ b'/' ∷ name)) ≡ ok (length name) =
      ap count_name (reverse-path dir name)
      ∙ count_name-slash (reverse name) (reverse dir) (reverse-IsName name h)
      ∙ ap ok (length-reverse name) in
    let whole : length (dir ++ b'/' ∷ name) ≡ length dir + (1 + length name) =
      omega (arith, length-append dir (b'/' ∷ name)) in
    let size : length (dir ++ b'/' ∷ name) - length name ≡ length (dir ++ b'/' ∷ []) =
      omega (arith, whole, length-append dir (b'/' ∷ [])) in
    let split : dir ++ b'/' ∷ name ≡ (dir ++ b'/' ∷ []) ++ name =
      sym (append_assoc dir (b'/' ∷ []) name) in
    let behind : drop (length (dir ++ b'/' ∷ [])) (dir ++ b'/' ∷ name) ≡ name =
      ap (drop (length (dir ++ b'/' ∷ []))) split ∙ drop-append (dir ++ b'/' ∷ []) name in
    let one : length (dir ++ b'/' ∷ []) ≡ length dir + 1 = length-append dir (b'/' ∷ []) in
    let front : take (length (dir ++ b'/' ∷ []) - 1) (dir ++ b'/' ∷ name) ≡ dir =
      ap (λ n. take n (dir ++ b'/' ∷ name)) (omega (arith, one)) ∙ take-append dir (b'/' ∷ name) in
    let test : (length (dir ++ b'/' ∷ []) == 1) ≡ (length dir == 0) = ground (arith, one) in
    rw (counted, size, behind, front, test, take_all (length name) name (omega arith)) refl
