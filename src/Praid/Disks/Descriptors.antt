-- ===== src/Praid/Disks/Descriptors.antt =====
-- The descriptors of the disks in the queue: a choice changes none of them and chooses one of them,
-- and the loss of a disk leaves the others'.
use fuselage_fat32_utn.Prelude.{
  ℕ, ◌≡◌, refl, none, some, List, [], ◌∷◌, ◌++◌, not, ◌&&◌, ap, arith, ◌∙◌, Bool-cases, inl, inr,
  sym, true, ◌≢◌, ◌==◌,
}
use mathlib.Core.Option
use mathlib.Core.Option.{Option}
use fuselage_fat32_utn.Prelude.Outcome.{ok}
use fuselage_fat32_utn.Praid.Disks.{
  PpdNode, ready, same_status, select_unrequested, clear_requested, select_first,
  select_by_less_requests, select_or_first, get_by_id, remove_ppd,
}
use fuselage_fat32_utn.Praid.Disks.Members.{ids}

unfoldable pub fds : List PpdNode → List ℕ
fds [] = []
fds (d ∷ ds) = d.ppd_fd ∷ fds ds

-- Some disk of the list has the descriptor.
pub record IsServed (fd : ℕ) (ds : List PpdNode) : Type 0 where
  pub before : List ℕ
  pub after : List ℕ
  pub place : fds ds ≡ before ++ fd ∷ after

IsServed-cons : {fd : ℕ} {ds : List PpdNode} (d : PpdNode) → IsServed fd ds → IsServed fd (d ∷ ds)
unfolding fds
IsServed-cons d h = record {
  before = d.ppd_fd ∷ h.before;
  after = h.after;
  place = ap (λ l. d.ppd_fd ∷ l) h.place;
}

-- What holds of a choice.
pub record IsChoice (ds : List PpdNode) (x : PpdNode) (left : List PpdNode) : Type 0 where
  pub same : fds left ≡ fds ds
  pub served : IsServed x.ppd_fd ds

fds-clear_requested : (ds : List PpdNode) → fds (clear_requested ds) ≡ fds ds
unfolding fds clear_requested
fds-clear_requested [] = refl
fds-clear_requested (d ∷ ds) = ap (λ l. d.ppd_fd ∷ l) (fds-clear_requested ds)

abbrev SomeChoice : List PpdNode → Option (PpdNode × List PpdNode) → Type 0
SomeChoice ds none = Unit
SomeChoice ds (some (x, left)) = IsChoice ds x left

select_unrequested-IsChoice : (ds : List PpdNode) → SomeChoice ds (select_unrequested ds)
unfolding fds select_unrequested
select_unrequested-IsChoice [] = tt
select_unrequested-IsChoice (d ∷ ds) =
    elim (Bool-cases (not d.requested && same_status d.status ready)) [
      | inl free ↦
          rw free
            (record { same = refl; served = record { before = []; after = fds ds; place = refl } })
      | inr busy ↦ rw busy (behind (select_unrequested ds) (select_unrequested-IsChoice ds))
    ]
  where
    behind :
        (r : Option (PpdNode × List PpdNode))
        → SomeChoice ds r
        → SomeChoice (d ∷ ds) (Option.map (λ (s, rest). (s, d ∷ rest)) r)
    behind none k = tt
    behind (some (x, left)) k = record {
      same = ap (λ l. d.ppd_fd ∷ l) k.same;
      served = IsServed-cons d k.served;
    }

select_first-IsChoice :
    (ds : List PpdNode) (x : PpdNode) (left : List PpdNode)
    → select_first (clear_requested ds) ≡ ok (x, left)
    → IsChoice ds x left
unfolding fds select_first clear_requested
select_first-IsChoice [] x left e = absurd (cc)
select_first-IsChoice (d ∷ ds) x left e =
    let disk : PpdNode = record d { requested = true } in
    let chosen : disk ≡ x = ground arith in
    let queue : disk ∷ clear_requested ds ≡ left = ground arith in
    record {
      same = ap fds (sym queue) ∙ ap (λ l. d.ppd_fd ∷ l) (fds-clear_requested ds);
      served = record {
        before = [];
        after = fds ds;
        place = ap (λ (k : PpdNode). k.ppd_fd ∷ fds ds) chosen;
      };
    }

-- A choice keeps the descriptors, and the disk that is chosen has one of them.
pub select_by_less_requests-IsChoice :
    (ds : List PpdNode) (x : PpdNode) (left : List PpdNode)
    → select_by_less_requests ds ≡ ok (x, left)
    → IsChoice ds x left
unfolding select_by_less_requests
select_by_less_requests-IsChoice ds x left e =
    by_result (select_unrequested ds) (select_unrequested-IsChoice ds) e
  where
    by_result :
        (r : Option (PpdNode × List PpdNode))
        → SomeChoice ds r
        → select_or_first ds r ≡ ok (x, left)
        → IsChoice ds x left
    by_result none k e = select_first-IsChoice ds x left e
    by_result (some (y, rest)) k e =
        let chosen : y ≡ x = ground arith in
        let queue : rest ≡ left = ground arith in rw (sym chosen, sym queue) k

-- The queue `left` has the disks of the queue `ds` in their order, but for one of the number
-- `disk_id`. That they are the same is said of their numbers and of their descriptors: their marks
-- may have changed.
pub record IsWithout (disk_id : ℕ) (ds left : List PpdNode) : Type 0 where
  pub before : List PpdNode
  pub lost : PpdNode
  pub after : List PpdNode
  pub place : ds ≡ before ++ lost ∷ after
  pub its_id : lost.disk_id ≡ disk_id
  pub ids_left : ids left ≡ ids (before ++ after)
  pub fds_left : fds left ≡ fds (before ++ after)

remove_ppd-IsWithout :
    (disk_id : ℕ) (ds : List PpdNode)
    → get_by_id disk_id ds ≢ none
    → IsWithout disk_id ds (remove_ppd disk_id ds).0
unfolding remove_ppd get_by_id ids fds
remove_ppd-IsWithout disk_id [] found = absurd (found refl)
remove_ppd-IsWithout disk_id (d ∷ ds) found = elim (Bool-cases (d.disk_id == disk_id)) [
  | inl hit ↦ rw hit (record {
    before = [];
    lost = d;
    after = ds;
    place = refl;
    its_id = ground (arith, hit);
    ids_left = refl;
    fds_left = refl;
  })
  | inr miss ↦
      let w = remove_ppd-IsWithout disk_id ds (rw miss at found) in
      rw miss (record {
        before = d ∷ w.before;
        lost = w.lost;
        after = w.after;
        place = ap (λ l. d ∷ l) w.place;
        its_id = w.its_id;
        ids_left = ap (λ l. d.disk_id ∷ l) w.ids_left;
        fds_left = ap (λ l. d.ppd_fd ∷ l) w.fds_left;
      })
]

-- What is left of a queue without a disk stays so while numbers and descriptors stay.
pub left-IsWithout :
    (disk_id : ℕ) (ds left : List PpdNode)
    → get_by_id disk_id ds ≢ none
    → ids left ≡ ids (remove_ppd disk_id ds).0
    → fds left ≡ fds (remove_ppd disk_id ds).0
    → IsWithout disk_id ds left
left-IsWithout disk_id ds left found same_ids same_fds =
    let w = remove_ppd-IsWithout disk_id ds found in
    record {
      before = w.before;
      lost = w.lost;
      after = w.after;
      place = w.place;
      its_id = w.its_id;
      ids_left = same_ids ∙ w.ids_left;
      fds_left = same_fds ∙ w.fds_left;
    }
