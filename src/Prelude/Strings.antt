-- ===== src/Prelude/Strings.antt =====
-- Strings of C: bytes up to the first 0.
use Prim.Native.Nat.{ℕ}
use mathlib.Core.Path.{◌≡◌, refl}
use mathlib.Core.Logic.{◌≢◌, inl, inr}
use mathlib.Core.Bool.{Bool, true, false, ◌&&◌}
use mathlib.Core.List.{List, [], ◌∷◌, ◌++◌}
use native.Mathlib.Omega.{arith}
use fuselage_fat32_utn.Prelude.Tests.{◌==◌, if◌then◌else◌, ne→==, Bool-cases, ==-refl}
use fuselage_fat32_utn.Prelude.Pigeonhole.{All}
use fuselage_fat32_utn.Prelude.Outcome.{Outcome, ok, fault, ◌>>=◌}

-- The characters in front of the first 0 of a piece of memory, which has one.
abbrev pub c_string : List ℕ → Outcome (List ℕ)
c_string [] = fault
c_string (c ∷ cs) = if c == 0 then ok [] else (do rest ← c_string cs; ok (c ∷ rest))

-- `strcmp(a, b) == 0` on the characters of two strings.
abbrev pub same_string : List ℕ → List ℕ → Bool
same_string [] [] = true
same_string [] (d ∷ ds) = false
same_string (c ∷ cs) [] = false
same_string (c ∷ cs) (d ∷ ds) = (c == d) && same_string cs ds

abbrev pub IsString : List ℕ → Type 0
IsString cs = All (λ c. c ≢ 0) cs

pub c_string-append : (cs rest : List ℕ) → IsString cs → c_string (cs ++ 0 ∷ rest) ≡ ok cs
c_string-append [] rest h = refl
c_string-append (c ∷ cs) rest h = rw (ne→== c 0 h.0, c_string-append cs rest h.1) refl

pub same_string_refl : (cs : List ℕ) → same_string cs cs ≡ true
same_string_refl [] = refl
same_string_refl (c ∷ cs) = rw (==-refl c, same_string_refl cs) refl

pub same_string-eq : (cs ds : List ℕ) → same_string cs ds ≡ true → cs ≡ ds
same_string-eq [] [] h = refl
same_string-eq [] (d ∷ ds) h = absurd (cc)
same_string-eq (c ∷ cs) [] h = absurd (cc)
same_string-eq (c ∷ cs) (d ∷ ds) h = elim (Bool-cases (c == d)) [
  | inl e ↦
      let same : c ≡ d = ground arith in let rest : cs ≡ ds = same_string-eq cs ds (rw e at h) in cc
  | inr n ↦ absurd (cc (rw n at h))
]
