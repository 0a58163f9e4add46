-- ===== src/Ppd/Io/Contents.antt =====
-- What is written to a sector is read from it, and from no other.
use fuselage_fat32_utn.Prelude.{
  paste, ℕ, zero, suc, ◌+◌, ◌-◌, ◌*◌, ◌<◌, ◌≤◌, ◌≡◌, ◌≢◌, refl, sym, ap, ◌∙◌, arith, List, [], ◌∷◌,
  ◌++◌, true, leb, leb→le, le→leb, ◌==◌, if◌then◌else◌, Bool-cases, inl, inr, length, take, drop,
  u32_mod, memcpy, memcpy-ok, take-append, drop-append, length-append, length-take, length-drop,
  dec_lt, ne→==, ==-refl, subst, ℕ_discrete,
}
use fuselage_fat32_utn.Prelude.Outcome.{ok, >>=-eq-ok, ok-inj}
use fuselage_fat32_utn.Ppd.Io.{Image, offset, read_disk, write_disk}

module _ {ℓ} {A : Type ℓ} where
  drop_nil : (n : ℕ) → drop n (let e : List A = [] in e) ≡ []
  drop_nil zero = refl
  drop_nil (suc n) = refl

  drop-drop : (j i : ℕ) (xs : List A) → drop i (drop j xs) ≡ drop (j + i) xs
  drop-drop zero i xs = ap (λ n. drop n xs) (omega arith)
  drop-drop (suc j) i [] = drop_nil i ∙ sym (drop_nil (suc j + i))
  drop-drop (suc j) i (x ∷ xs) =
      let next : suc j + i ≡ suc (j + i) = omega arith in rw next (drop-drop j i xs)

  drop-append_past :
      (xs : List A) (a : ℕ) (ys : List A)
      → length xs ≤ a
      → drop a (xs ++ ys) ≡ drop (a - length xs) ys
  drop-append_past [] a ys h = ap (λ n. drop n ys) (omega arith)
  drop-append_past (x ∷ xs) zero ys h = absurd (omega arith)
  drop-append_past (x ∷ xs) (suc a) ys h =
      drop-append_past xs a ys (omega arith) ∙ ap (λ n. drop n ys) (omega arith)

  take_before :
      (n o : ℕ) (xs ys : List A) → n ≤ o → o ≤ length xs → take n (take o xs ++ ys) ≡ take n xs
  take_before zero o xs ys h k = refl
  take_before (suc n) zero xs ys h k = absurd (omega arith)
  take_before (suc n) (suc o) [] ys h k = absurd (omega arith)
  take_before (suc n) (suc o) (x ∷ xs) ys h k =
      ap (λ l. x ∷ l) (take_before n o xs ys (omega arith) (omega arith))

  slice_before :
      (a n o : ℕ) (xs ys : List A)
      → a + n ≤ o
      → o ≤ length xs
      → take n (drop a (take o xs ++ ys)) ≡ take n (drop a xs)
  slice_before zero n o xs ys h k = take_before n o xs ys (omega arith) k
  slice_before (suc a) n zero xs ys h k = absurd (omega arith)
  slice_before (suc a) n (suc o) [] ys h k = absurd (omega arith)
  slice_before (suc a) n (suc o) (x ∷ xs) ys h k =
      slice_before a n o xs ys (omega arith) (omega arith)

  -- The bytes behind the ones that are pasted.
  slice_behind :
      (o a : ℕ) (bytes xs : List A)
      → o ≤ length xs
      → o + length bytes ≤ a
      → drop a (take o xs ++ (bytes ++ drop (o + length bytes) xs)) ≡ drop a xs
  slice_behind o a bytes xs k h =
      let whole : length (take o xs) ≡ o = omega (arith, length-take o xs) in
      drop-append_past (take o xs) a (bytes ++ drop (o + length bytes) xs) (omega (arith, whole))
      ∙ drop-append_past bytes (a - length (take o xs)) (drop (o + length bytes) xs)
          (omega (arith, whole))
      ∙ drop-drop (o + length bytes) _ xs
      ∙ ap (λ n. drop n xs) (omega (arith, whole))

  -- The bytes that are pasted.
  slice_there :
      (o n : ℕ) (bytes xs ys : List A)
      → o ≤ length xs
      → n ≡ length bytes
      → take n (drop o (take o xs ++ (bytes ++ ys))) ≡ bytes
  slice_there o n bytes xs ys k e =
      let whole : o ≡ length (take o xs) = omega (arith, length-take o xs) in
      ap (λ i. take n (drop i (take o xs ++ (bytes ++ ys)))) whole
      ∙ ap (take n) (drop-append (take o xs) (bytes ++ ys))
      ∙ ap (λ i. take i (bytes ++ ys)) e
      ∙ take-append bytes ys

length-pasted :
    (o : ℕ) (bytes map : List ℕ)
    → length bytes ≡ 512
    → o + 512 ≤ length map
    → length (take o map ++ (bytes ++ drop (o + 512) map)) ≡ length map
length-pasted o bytes map full inside = omega (
  arith,
  length-append (take o map) (bytes ++ drop (o + 512) map),
  length-append bytes (drop (o + 512) map),
  length-take o map,
  length-drop (o + 512) map,
)

-- What a write that succeeds has done.
record Pasted (sector : ℕ) (buf : List ℕ) (map map' : List ℕ) : Type 0 where
  enough : 512 ≤ length buf
  inside : offset sector + 512 ≤ length map
  result : map' ≡ take (offset sector) map ++ (take 512 buf ++ drop (offset sector + 512) map)

taken : (buf : List ℕ) → 512 ≤ length buf → length (take 512 buf) ≡ 512
taken buf h = omega (arith, length-take 512 buf)

write_disk-Pasted :
    (sector : ℕ) (buf : List ℕ) (image image' : Image)
    → write_disk sector buf image ≡ ok image'
    → Pasted sector buf image.map image'.map
unfolding write_disk
write_disk-Pasted sector buf image image' e =
    let (bytes, copied, e1) = >>=-eq-ok (memcpy 512 buf) _ e in
    let (map, pasted, e2) = >>=-eq-ok (paste (offset sector) bytes image.map) _ e1 in
    elim (Bool-cases (leb 512 (length buf))) [
      | inr short ↦ absurd (cc (rw short at copied))
      | inl long ↦
          let same : take 512 buf ≡ bytes = ok-inj (rw long at copied) in
          let full = taken buf (leb→le _ _ long) in
          elim (Bool-cases (leb (offset sector + length bytes) (length image.map))) [
            | inr out ↦ absurd (cc (rw out at pasted))
            | inl fits ↦
                let len : length bytes ≡ 512 = ap length (sym same) ∙ full in
                record {
                  enough = leb→le _ _ long;
                  inside = omega (arith, leb→le _ _ fits, len);
                  result =
                      ap (λ (i : Image). i.map) (sym (ok-inj e2))
                      ∙ sym (ok-inj (rw fits at pasted))
                      ∙ ap
                          (λ n.
                            take (offset sector) image.map
                            ++ (bytes ++ drop (offset sector + n) image.map))
                          len
                      ∙ ap
                          (λ b.
                            take (offset sector) image.map
                            ++ (b ++ drop (offset sector + 512) image.map))
                          (sym same);
                }
          ]
    ]

-- The bytes of a sector whose offset does not wrap.
abbrev pub IsNumber : ℕ → Type 0
IsNumber sector = sector * 512 < u32_mod

offset-eq : (sector : ℕ) → IsNumber sector → offset sector ≡ sector * 512
offset-eq sector h = omega (arith, h)

read_same :
    (s : ℕ) (buf map map' : List ℕ)
    → Pasted s buf map map'
    → memcpy 512 (drop (offset s) map') ≡ ok (take 512 buf)
read_same s buf map map' p =
    let full = taken buf p.enough in
    let there : take 512 (drop (offset s) map') ≡ take 512 buf =
      ap (λ m. take 512 (drop (offset s) m)) p.result
      ∙ slice_there (offset s) 512 (take 512 buf) map (drop (offset s + 512) map)
          (omega (arith, p.inside)) (sym full) in
    let long : length map' ≡ length map =
      ap length p.result ∙ length-pasted (offset s) (take 512 buf) map full p.inside in
    memcpy-ok 512 _ (omega (arith, length-drop (offset s) map', long, p.inside)) ∙ ap ok there

memcpy-same :
    (xs ys : List ℕ)
    → length xs ≡ length ys
    → take 512 xs ≡ take 512 ys
    → memcpy 512 xs ≡ memcpy 512 ys
memcpy-same xs ys h k = rw (h, k)

read_other :
    (s t : ℕ) (buf map map' : List ℕ)
    → IsNumber s
    → IsNumber t
    → s ≢ t
    → Pasted s buf map map'
    → memcpy 512 (drop (offset t) map') ≡ memcpy 512 (drop (offset t) map)
read_other s t buf map map' hs ht differ p =
    let full = taken buf p.enough in
    let long : length map' ≡ length map =
      ap length p.result ∙ length-pasted (offset s) (take 512 buf) map full p.inside in
    memcpy-same (drop (offset t) map') (drop (offset t) map)
      (omega (arith, length-drop (offset t) map', length-drop (offset t) map, long))
      (ap (λ m. take 512 (drop (offset t) m)) p.result ∙ untouched full)
  where
    untouched :
        length (take 512 buf) ≡ 512
        → take 512
            (drop (offset t) (take (offset s) map ++ (take 512 buf ++ drop (offset s + 512) map)))
          ≡ take 512 (drop (offset t) map)
    untouched full = elim (dec_lt s t) [
      | yes before ↦
          let behind : offset s + 512 ≤ offset t = omega (arith, hs, ht, before) in
          ap
            (λ n.
              take 512 (
                drop (offset t) (take (offset s) map ++ (take 512 buf ++ drop (offset s + n) map))))
            (sym full)
          ∙ ap (take 512) (
              slice_behind (offset s) (offset t) (take 512 buf) map (omega (arith, p.inside))
                (omega (arith, behind, full)))
      | no after ↦
          slice_before (offset t) 512 (offset s) map (take 512 buf ++ drop (offset s + 512) map)
            (omega (arith, hs, ht, after, differ)) (omega (arith, p.inside))
    ]

-- What is written to a sector is read from it, and all other sectors read as before.
pub read_disk-write_disk :
    (s t : ℕ) (buf : List ℕ) (image image' : Image)
    → IsNumber s
    → IsNumber t
    → write_disk s buf image ≡ ok image'
    → read_disk t image' ≡ (if s == t then ok (take 512 buf) else read_disk t image)
unfolding read_disk
read_disk-write_disk s t buf image image' hs ht e =
    let p = write_disk-Pasted s buf image image' e in
    elim (ℕ_discrete s t) [
      | yes same ↦
          rw (same, ==-refl t)
            (subst (λ n. memcpy 512 (drop (offset n) image'.map) ≡ ok (take 512 buf)) same
              (read_same s buf image.map image'.map p))
      | no differ ↦ rw (ne→== s t differ) (read_other s t buf image.map image'.map hs ht differ p)
    ]

-- A write of 512 bytes or more to a sector of the disk succeeds, and the disk keeps its size.
pub write_disk-total :
    (s : ℕ) (buf : List ℕ) (image : Image)
    → 512 ≤ length buf
    → offset s + 512 ≤ length image.map
    → (image' : Image) × (write_disk s buf image ≡ ok image')
      × (length image'.map ≡ length image.map)
unfolding write_disk
write_disk-total s buf image long fits =
    let full = taken buf long in
    let inside : leb (offset s + length (take 512 buf)) (length image.map) ≡ true =
      rw full (le→leb _ _ fits) in
    rw (memcpy-ok 512 buf long) (
      rw inside (
        _,
        refl,
        ap
              (λ n.
                length
                  (take (offset s) image.map ++ (take 512 buf ++ drop (offset s + n) image.map)))
              full
            ∙ length-pasted (offset s) (take 512 buf) image.map full fits,
      ))
