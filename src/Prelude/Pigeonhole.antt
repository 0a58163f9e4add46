-- ===== src/Prelude/Pigeonhole.antt =====
-- A list of distinct numbers below `n` has at most `n` members.
use Prim.Native.Nat.{ℕ, zero, suc, ◌+◌, ◌≤◌, ◌<◌}
use mathlib.Core.Path.{◌≡◌, refl, sym, subst}
use mathlib.Core.Option.{some}
use mathlib.Core.Logic.{◌≢◌, ite, if_pos, if_neg}
use mathlib.Core.List.{List, [], ◌∷◌, ◌++◌, map}
use native.Mathlib.Omega.{arith}
use native.Mathlib.Decide.{ℕ_discrete}
use fuselage_fat32_utn.Prelude.Lists.{length, get_elem?, set, some-inj}

abbrev pub All {ℓ κ} : {A : Type ℓ} → (A → Type κ) → List A → Type κ
All P [] = Unit
All P (x ∷ xs) = P x × All P xs

pub All-mono {ℓ κ} :
    {A : Type ℓ} {P Q : A → Type κ} → ((x : A) → P x → Q x) → (xs : List A) → All P xs → All Q xs
All-mono f [] h = tt
All-mono f (x ∷ xs) h = (f x h.0, All-mono f xs h.1)

abbrev pub Distinct : List ℕ → Type 0
Distinct [] = Unit
Distinct (x ∷ xs) = All (λ y. y ≢ x) xs × Distinct xs

without : ℕ → List ℕ → List ℕ
without n [] = []
without n (x ∷ xs) = ite (ℕ_discrete x n) (without n xs) (x ∷ without n xs)

without_id : (n : ℕ) (xs : List ℕ) → All (λ y. y ≢ n) xs → without n xs ≡ xs
unfolding without
without_id n [] h = refl
without_id n (x ∷ xs) h = rw (if_neg _ h.0, without_id n xs h.1)

length-without : (n : ℕ) (xs : List ℕ) → Distinct xs → length xs ≤ length (without n xs) + 1
unfolding without
length-without n [] d = omega arith
length-without n (x ∷ xs) d = elim (ℕ_discrete x n) [
  | yes e ↦ rw (if_pos _ e, without_id n xs (rw e at d.0)) (omega arith)
  | no e ↦ rw (if_neg _ e) (omega (arith, length-without n xs d.1))
]

All-without : (P : ℕ → Type 0) (n : ℕ) (xs : List ℕ) → All P xs → All P (without n xs)
unfolding without
All-without P n [] h = tt
All-without P n (x ∷ xs) h = elim (ℕ_discrete x n) [
  | yes e ↦ rw (if_pos _ e) (All-without P n xs h.1)
  | no e ↦ rw (if_neg _ e) (h.0, All-without P n xs h.1)
]

Distinct-without : (n : ℕ) (xs : List ℕ) → Distinct xs → Distinct (without n xs)
unfolding without
Distinct-without n [] d = tt
Distinct-without n (x ∷ xs) d = elim (ℕ_discrete x n) [
  | yes e ↦ rw (if_pos _ e) (Distinct-without n xs d.1)
  | no e ↦ rw (if_neg _ e) (All-without _ n xs d.0, Distinct-without n xs d.1)
]

below-without : (n : ℕ) (xs : List ℕ) → All (λ y. y < suc n) xs → All (λ y. y < n) (without n xs)
unfolding without
below-without n [] h = tt
below-without n (x ∷ xs) h = elim (ℕ_discrete x n) [
  | yes e ↦ rw (if_pos _ e) (below-without n xs h.1)
  | no e ↦ rw (if_neg _ e) (omega arith, below-without n xs h.1)
]

pub length-le_of_Distinct :
    (n : ℕ) (xs : List ℕ) → Distinct xs → All (λ y. y < n) xs → length xs ≤ n
length-le_of_Distinct n [] d h = omega arith
length-le_of_Distinct zero (x ∷ xs) d h = absurd (omega arith)
length-le_of_Distinct (suc n) (x ∷ xs) d h = omega (
  arith,
  length-without n (x ∷ xs) d,
  length-le_of_Distinct n (without n (x ∷ xs)) (Distinct-without n (x ∷ xs) d)
      (below-without n (x ∷ xs) h),
)

pub All-append {ℓ κ} :
    {A : Type ℓ} (P : A → Type κ) (xs ys : List A) → All P xs → All P ys → All P (xs ++ ys)
All-append P [] ys h k = k
All-append P (x ∷ xs) ys h k = (h.0, All-append P xs ys h.1 k)

pub All-zip {ℓ κ μ ν} :
    {A : Type ℓ} {P : A → Type κ} {Q : A → Type μ} {R : A → Type ν}
    → ((x : A) → P x → Q x → R x)
    → (xs : List A) → All P xs
    → All Q xs
    → All R xs
All-zip f [] h k = tt
All-zip f (x ∷ xs) h k = (f x h.0 k.0, All-zip f xs h.1 k.1)

pub All-map {ℓ κ μ} :
    {A : Type ℓ} {B : Type κ} (P : B → Type μ) (f : A → B) (xs : List A)
    → All P (map f xs)
    → All (λ x. P (f x)) xs
All-map P f [] h = tt
All-map P f (x ∷ xs) h = (h.0, All-map P f xs h.1)

pub map-All {ℓ κ μ} :
    {A : Type ℓ} {B : Type κ} (P : B → Type μ) (f : A → B) (xs : List A)
    → All (λ x. P (f x)) xs
    → All P (map f xs)
map-All P f [] h = tt
map-All P f (x ∷ xs) h = (h.0, map-All P f xs h.1)

-- What holds of all holds of the one at an index, and is kept when that one is replaced.
pub All-get {ℓ κ} :
    {A : Type ℓ} (P : A → Type κ) (xs : List A) (i : ℕ) (x : A)
    → All P xs
    → get_elem? xs i ≡ some x
    → P x
All-get P [] i x h e = absurd (cc)
All-get P (y ∷ ys) zero x h e = subst P (some-inj e) h.0
All-get P (y ∷ ys) (suc i) x h e = All-get P ys i x h.1 e

pub All-set {ℓ κ} :
    {A : Type ℓ} (P : A → Type κ) (xs : List A) (i : ℕ) (x : A)
    → All P xs
    → P x
    → All P (set xs i x)
All-set P [] i x h p = tt
All-set P (y ∷ ys) zero x h p = (p, h.1)
All-set P (y ∷ ys) (suc i) x h p = (h.0, All-set P ys i x h.1 p)

pub Distinct-set :
    (xs : List ℕ) (i x : ℕ) → Distinct xs → All (λ y. y ≢ x) xs → Distinct (set xs i x)
Distinct-set [] i x d h = tt
Distinct-set (y ∷ ys) zero x d h = (h.1, d.1)
Distinct-set (y ∷ ys) (suc i) x d h =
    (All-set (λ z. z ≢ y) ys i x d.0 (λ e. h.0 (sym e)), Distinct-set ys i x d.1 h.1)

pub Distinct-snoc :
    (xs : List ℕ) (x : ℕ) → Distinct xs → All (λ y. y ≢ x) xs → Distinct (xs ++ x ∷ [])
Distinct-snoc [] x d h = (tt, tt)
Distinct-snoc (y ∷ ys) x d h =
    (All-append _ ys (x ∷ []) d.0 ((λ e. h.0 (sym e)), tt), Distinct-snoc ys x d.1 h.1)
