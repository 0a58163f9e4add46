-- ===== src/Praid/Service/Replan.antt =====
-- What replan_requests does with the pending requests of a lost disk, one by one.
use fuselage_fat32_utn.Prelude.{
  ℕ, ◌-◌, ◌<◌, ◌≡◌, ◌≢◌, refl, List, [], ◌∷◌, ◌==◌, ◌&&◌, not, ap, sym, arith, ◌∙◌, map, length,
  Bool-cases, Option-cases, inl, inr, ltb, if◌then◌else◌, All, subst,
}
use fuselage_fat32_utn.Prelude.Outcome.{ok}
use fuselage_fat32_utn.Praid.Message.{Message, Sent}
use fuselage_fat32_utn.Praid.Requests.{Request}
use fuselage_fat32_utn.Praid.Disks.{
  PpdNode, select_by_less_requests, select_unrequested, select_first, clear_requested,
}
use fuselage_fat32_utn.Praid.Disks.Members.{ids, length-ids, ids-select_by_less_requests}
use fuselage_fat32_utn.Praid.Disks.Descriptors.{fds, IsServed, select_by_less_requests-IsChoice}
use fuselage_fat32_utn.Praid.Service.{sent, replan_read, replan_write, replan_loop}

-- The reads that a disk was asked for.
unfoldable pub reads_of : ℕ → List Request → List Message
reads_of fd [] = []
reads_of fd (r ∷ rs) =
    if not (r.ppd_fd == 0) && r.ppd_fd == fd then r.msg ∷ reads_of fd rs else reads_of fd rs

select_by_less_requests-ok :
    (ds : List PpdNode)
    → 0 < length ds
    → (p : PpdNode × List PpdNode) × (select_by_less_requests ds ≡ ok p)
unfolding select_by_less_requests select_first clear_requested
select_by_less_requests-ok ds h = elim (Option-cases (select_unrequested ds)) [
  | inl none_free ↦ rw none_free (first ds h)
  | inr found ↦ rw found.1 (found.0, refl)
]
  where
    first :
        (ds : List PpdNode)
        → 0 < length ds
        → (p : PpdNode × List PpdNode) × (select_first (clear_requested ds) ≡ ok p)
    first [] h = absurd (omega (arith, h))
    first (d ∷ ds) h = (_, refl)

-- The pending requests before and behind the loss of a disk, one by one: a write, which has the
-- descriptor 0, waits for one acknowledgement less if it waited for any, and a read stays as it was.
pub data AfterLoss : List Request → List Request → Type 0 where
  all_done : AfterLoss [] []
  awaited :
      {rs rs' : List Request} (r : Request)
      → r.ppd_fd ≡ 0
      → AfterLoss rs rs'
      → AfterLoss (r ∷ rs) (record r { write_count = r.write_count - 1 } ∷ rs')
  asked :
      {rs rs' : List Request} (r : Request)
      → r.ppd_fd ≢ 0
      → AfterLoss rs rs'
      → AfterLoss (r ∷ rs) (r ∷ rs')

pub replan_write-AfterLoss : (rs : List Request) → AfterLoss rs (map replan_write rs)
unfolding replan_write
replan_write-AfterLoss [] = all_done
replan_write-AfterLoss (r ∷ rs) = elim (Bool-cases (r.ppd_fd == 0)) [
  | inl write ↦ elim (Bool-cases (ltb 0 r.write_count)) [
    | inl waits ↦ rw (write, waits) (awaited r (ground (arith, write)) (replan_write-AfterLoss rs))
    | inr done ↦
        let zero : r.write_count - 1 ≡ r.write_count = ground (arith, done) in
        rw (write, done)
          (subst (λ n. AfterLoss (r ∷ rs) (record r { write_count = n } ∷ map replan_write rs)) zero
            (awaited r (ground (arith, write)) (replan_write-AfterLoss rs)))
  ]
  | inr read ↦ rw read (asked r (ground (arith, read)) (replan_write-AfterLoss rs))
]

-- The messages go to disks of the list.
abbrev pub AllServed : List PpdNode → List Sent → Type 0
AllServed ds out = All (λ (m : Sent). IsServed m.to ds) out

pub AllServed-same :
    (ds ds' : List PpdNode) (out : List Sent)
    → fds ds ≡ fds ds'
    → AllServed ds out
    → AllServed ds' out
AllServed-same ds ds' [] e h = tt
AllServed-same ds ds' (m ∷ out) e h = (
  record { before = h.0.before; after = h.0.after; place = sym e ∙ h.0.place },
  AllServed-same ds ds' out e h.1,
)

-- The outcome of `replan_loop` on the requests `rs` with the disks `ds`.
abbrev pub Replanned : ℕ → List Request → List PpdNode → Type 0
Replanned fd rs ds =
    (ds' : List PpdNode) × (out : List Sent) × (replan_loop fd rs ds
      ≡ ok (map replan_write rs, ds', out))
    × (map (λ (m : Sent). m.message) out ≡ reads_of fd rs)
    × (ids ds' ≡ ids ds)
    × (fds ds' ≡ fds ds)
    × AllServed ds out

pub replan_loop-Replanned :
    (fd : ℕ) (rs : List Request) (ds : List PpdNode) → 0 < length ds → Replanned fd rs ds
unfolding replan_loop replan_read reads_of
replan_loop-Replanned fd [] ds h = (ds, [], refl, refl, refl, refl, tt)
replan_loop-Replanned fd (r ∷ rs) ds h = elim (Bool-cases (not (r.ppd_fd == 0) && r.ppd_fd == fd)) [
  | inl mine ↦
      let (p, chosen) = select_by_less_requests-ok ds h in
      let same = ids-select_by_less_requests ds p.0 p.1 chosen in
      let long : length p.1 ≡ length ds = sym (length-ids p.1) ∙ ap length same ∙ length-ids ds in
      let choice = select_by_less_requests-IsChoice ds p.0 p.1 chosen in
      let (ds', out, done, messages, kept, same_fds, served) =
        replan_loop-Replanned fd rs p.1 (omega (arith, long, h)) in
      rw (mine, chosen)
        (rw done (
          ds',
          sent p.0.ppd_fd r.msg ∷ out,
          refl,
          ap (λ l. r.msg ∷ l) messages,
          kept ∙ same,
          same_fds ∙ choice.same,
          (choice.served, AllServed-same p.1 ds out choice.same served),
        ))
  | inr other ↦
      let (ds', out, done, messages, kept, same_fds, served) = replan_loop-Replanned fd rs ds h in
      rw other (rw done (ds', out, refl, messages, kept, same_fds, served))
]
