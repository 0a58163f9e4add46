-- ===== src/Ppd/Taker/Nearest.antt =====
-- What TAKER_getNextNode looks for: among the requests on the right side of the head, one whose
-- cylinder is nearest.
use fuselage_fat32_utn.Prelude.{
  ℕ, suc, ◌+◌, ◌≤◌, ◌≡◌, refl, true, false, Option, none, some, List, [], ◌∷◌, ◌++◌, arith, ap, sym,
  ◌∙◌, length, get_elem?, get_elem?-middle, length-append, append_assoc, append-nil, subst, All,
  All-mono, All-append, Bool-cases, inl, inr, ltb,
}
use fuselage_fat32_utn.Prelude.Outcome.{ok}
use fuselage_fat32_utn.Ppd.Geometry.{Chs, Disk, abs_diff, turn_to_chs}
use fuselage_fat32_utn.Ppd.Taker.{
  Request, Condition, near, candidate, next_loop, is_candidate, get_next_node,
}

abbrev pub distance : Chs → Request → ℕ
distance head r = abs_diff r.address.cylinder head.cylinder

-- `best` is no worse than `r`: if `r` can be served in this direction, so can `best`, and it is at
-- least as near.
abbrev pub NoWorse : Chs → Condition → Request → Request → Type 0
NoWorse head condition best r =
    condition r.address head ≡ true
    → (condition best.address head ≡ true) × (distance head best ≤ distance head r)

near-keeps :
    (head : Chs) (condition : Condition) (x best r : Request)
    → ltb 0 (near x head best condition) ≡ true
    → NoWorse head condition best r
    → NoWorse head condition x r
unfolding near
near-keeps head condition x best r h k c = ground arith

near-better :
    (head : Chs) (condition : Condition) (x best : Request)
    → ltb 0 (near x head best condition) ≡ false
    → NoWorse head condition best x
unfolding near
near-better head condition x best h c = ground arith

near-serves :
    (head : Chs) (condition : Condition) (x best : Request)
    → ltb 0 (near x head best condition) ≡ true
    → condition x.address head ≡ true
unfolding near
near-serves head condition x best h = ground arith

-- What holds between rounds: the candidate is no worse than what was seen.
record Chosen (queue : List Request) (head : Chs) (condition : Condition) (first : Request)
    (seen : List Request) (prev : Option ℕ) : Type 0 where
  best : Request
  stands : candidate queue prev ≡ some best
  no_worse : All (NoWorse head condition best) seen
  serves : is_candidate first head condition prev ≡ condition best.address head

next_loop-Chosen :
    (queue : List Request) (head : Chs) (condition : Condition) (first : Request)
    (rest seen : List Request) (position : ℕ) (prev : Option ℕ)
    → queue ≡ seen ++ rest
    → length seen ≡ suc position
    → Chosen queue head condition first seen prev
    → (prev' : Option ℕ) × (next_loop queue head condition rest position prev ≡ ok prev')
      × Chosen queue head condition first queue prev'
unfolding next_loop
next_loop-Chosen queue head condition first [] seen position prev e n c = (
  prev,
  refl,
  subst (λ l. Chosen queue head condition first l prev) (sym (append-nil seen) ∙ sym e) c,
)
next_loop-Chosen queue head condition first (x ∷ rest) seen position prev e n c =
    let e' : queue ≡ (seen ++ x ∷ []) ++ rest = e ∙ sym (append_assoc seen (x ∷ []) rest) in
    let n' : length (seen ++ x ∷ []) ≡ suc (position + 1) =
      omega (arith, length-append seen (x ∷ []), n) in
    let at : get_elem? queue (suc position) ≡ some x =
      ap (λ q. get_elem? q (suc position)) e
      ∙ get_elem?-middle seen x rest (suc position) (sym n) in
    elim (Bool-cases (ltb 0 (near x head c.best condition))) [
      | inl better ↦
          rw (c.stands, better)
            (next_loop-Chosen queue head condition first rest (seen ++ x ∷ []) (position + 1)
              (some position) e' n'
              (record {
                best = x;
                stands = unfold candidate in at;
                no_worse =
                    All-append _ seen (x ∷ [])
                      (All-mono (λ r. near-keeps head condition x c.best r better) seen c.no_worse)
                      ((λ k. (k, omega arith)), tt);
                serves = unfold is_candidate in sym (near-serves head condition x c.best better);
              }))
      | inr worse ↦
          rw (c.stands, worse)
            (next_loop-Chosen queue head condition first rest (seen ++ x ∷ []) (position + 1) prev
              e' n'
              (record {
                best = c.best;
                stands = c.stands;
                no_worse =
                    All-append _ seen (x ∷ []) c.no_worse
                      (near-better head condition x c.best worse, tt);
                serves = c.serves;
              }))
    ]

is_candidate-false :
    (first : Request) (head : Chs) (condition : Condition) (prev : Option ℕ)
    → is_candidate first head condition prev ≡ false
    → prev ≡ none
unfolding is_candidate
is_candidate-false first head condition none e = refl
is_candidate-false first head condition (some i) e = absurd (cc)

-- On a queue that is not empty TAKER_getNextNode chooses a request of the queue that is no worse
-- than any: one that the direction allows if there is any such, and of these one on the nearest
-- cylinder. It returns 0 exactly when the direction allows none,
-- and then the candidate is the first node.
pub get_next_node-nearest :
    (disk : Disk) (first : Request) (rest : List Request) (head_position : ℕ)
    (condition : Condition)
    → let head = turn_to_chs disk head_position in
      (prev : Option ℕ) × (best : Request) × (get_next_node disk
          (first ∷ rest)
          head_position
          none
          condition
        ≡ ok (prev, condition best.address head))
      × (candidate (first ∷ rest) prev ≡ some best)
      × All (NoWorse head condition best) (first ∷ rest)
      × (condition best.address head ≡ false → prev ≡ none)
unfolding get_next_node
get_next_node-nearest disk first rest head_position condition =
    let head : Chs = turn_to_chs disk head_position in
    let start : Chosen (first ∷ rest) head condition first (first ∷ []) none = record {
      best = first;
      stands = unfold candidate in refl;
      no_worse = (λ k. (k, omega arith), tt);
      serves = unfold is_candidate in refl;
    } in
    let (prev, runs, c) =
      next_loop-Chosen (first ∷ rest) head condition first rest (first ∷ []) 0 none refl
        (omega arith) start in
    (
      prev,
      c.best,
      rw (runs, c.serves),
      c.stands,
      c.no_worse,
      λ refused. is_candidate-false first head condition prev (c.serves ∙ refused),
    )
