-- ===== src/Prelude/Memory.antt =====
-- Copies of bytes out of an object.
use Prim.Native.Nat.{ℕ, zero, suc, ◌+◌, ◌≤◌}
use mathlib.Core.Path.{◌≡◌, refl, ap, ◌∙◌, sym}
use mathlib.Core.List.{List, [], ◌∷◌, ◌++◌}
use mathlib.Core.Option.{Option, none, some}
use native.Mathlib.Omega.{arith}
use fuselage_fat32_utn.Prelude.Tests.{leb, le→leb, ◌==◌, if◌then◌else◌}
use fuselage_fat32_utn.Prelude.Lists.{
  length, take, drop, get_elem?, length-append, take-append, drop-append, drop-add,
}
use mathlib.Core.Bool.{true}
use fuselage_fat32_utn.Prelude.Outcome.{Outcome, ok, fault, ◌>>=◌, need}
use fuselage_fat32_utn.Prelude.Words.{word32}

-- `memcpy(to, from, n)`: the bytes that are written, from an object that must have so many.
abbrev pub memcpy : ℕ → List ℕ → Outcome (List ℕ)
memcpy n from = if leb n (length from) then ok (take n from) else fault

pub take-all {ℓ} : {A : Type ℓ} (xs : List A) (n : ℕ) → n ≡ length xs → take n xs ≡ xs
take-all [] zero e = refl
take-all [] (suc n) e = refl
take-all (x ∷ xs) zero e = absurd (omega (arith, e))
take-all (x ∷ xs) (suc n) e = ap (λ l. x ∷ l) (take-all xs n (omega (arith, e)))

pub memcpy-ok : (n : ℕ) (from : List ℕ) → n ≤ length from → memcpy n from ≡ ok (take n from)
memcpy-ok n from h = ground arith

-- All bytes of an object.
pub memcpy_all : (bytes : List ℕ) (n : ℕ) → n ≡ length bytes → memcpy n bytes ≡ ok bytes
memcpy_all bytes n e = memcpy-ok n bytes (omega (arith, e)) ∙ ap ok (take-all bytes n e)

-- A copy of no bytes may be from NULL.
abbrev pub copy_from : ℕ → Option (List ℕ) → Outcome (List ℕ)
copy_from n none = if n == 0 then ok [] else fault
copy_from n (some bytes) = memcpy n bytes

-- A `uint32_t` at an index.
abbrev pub word_at : List ℕ → ℕ → Outcome ℕ
word_at msg i = do
  a ← need (get_elem? msg i)
  b ← need (get_elem? msg (i + 1))
  c ← need (get_elem? msg (i + 2))
  d ← need (get_elem? msg (i + 3))
  ok (word32 a b c d)

-- Bytes copied into an object at a place.
abbrev pub paste : (place : ℕ) → List ℕ → List ℕ → Outcome (List ℕ)
paste place bytes object =
    if leb (place + length bytes) (length object)
    then ok (take place object ++ (bytes ++ drop (place + length bytes) object))
    else fault

-- What is copied in front of the end of what has a known size.
pub paste-behind :
    (place : ℕ) (bytes front rest : List ℕ)
    → length front ≡ place
    → length bytes ≤ length rest
    → paste place bytes (front ++ rest) ≡ ok (front ++ (bytes ++ drop (length bytes) rest))
paste-behind place bytes front rest e h =
    let inside : leb (place + length bytes) (length (front ++ rest)) ≡ true =
      le→leb (place + length bytes) (length (front ++ rest))
        (omega (arith, e, h, length-append front rest)) in
    let before : take place (front ++ rest) ≡ front =
      ap (λ k. take k (front ++ rest)) (sym e) ∙ take-append front rest in
    let after : drop (place + length bytes) (front ++ rest) ≡ drop (length bytes) rest =
      drop-add (length bytes) place (front ++ rest)
      ∙ ap (λ k. drop (length bytes) (drop k (front ++ rest))) (sym e)
      ∙ ap (drop (length bytes)) (drop-append front rest) in
    rw (inside, before, after) refl
