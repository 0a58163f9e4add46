-- ===== src/Praid/Service/Counting.antt =====
-- The disks that are counted are the disks that are connected, each under a number of its own.
use fuselage_fat32_utn.Prelude.{
  ℕ, ◌+◌, ◌-◌, ◌%◌, ◌<◌, ◌≡◌, refl, ◌≢◌, Bool, true, none, List, [], ◌∷◌, ◌++◌, ap, sym, arith, ◌∙◌,
  Distinct, Distinct-snoc, length, Bool-cases, Option-cases, inl, inr, length-append, u32_mod, ltb,
  subst, is_none, leb, ◌&&◌,
}
use fuselage_fat32_utn.Prelude.Outcome.{ok, ok-inj}
use fuselage_fat32_utn.Praid.Message.{Sent}
use fuselage_fat32_utn.Praid.Disks.{get_by_id, remove_ppd, add_new_ppd}
use fuselage_fat32_utn.Praid.Disks.Members.{
  ids, length-ids, ids-append, get_by_id-none, remove_ppd-ids,
}
use fuselage_fat32_utn.Praid.Service.{
  State, Event, pfs_message, pfs_lost, new_pfs, ppd_message, new_ppd, ppd_lost, start_last, step,
  handle_pfs_lost, handle_new_pfs, handle_new_ppd, handle_ppd_lost, standby,
}
use fuselage_fat32_utn.Praid.Service.Keeping.{
  SameDisks, KeepsDisks, keep_if, keep_as_is, replan_requests-KeepsDisks, ids-start_last,
  handle_pfs_message-KeepsDisks, handle_ppd_message-KeepsDisks,
}

pub record IsCounted (s : State) : Type 0 where
  pub count : s.ppd_count ≡ length s.disks
  pub bound : s.ppd_count < u32_mod
  pub apart : Distinct (ids s.disks)

SameDisks-IsCounted : (s s' : State) → SameDisks s s' → IsCounted s → IsCounted s'
unfolding SameDisks
SameDisks-IsCounted s s' e c = record {
  count = e.0 ∙ c.count ∙ sym (length-ids s.disks) ∙ ap length (sym e.1) ∙ length-ids s'.disks;
  bound = subst (λ n. n < u32_mod) (sym e.0) c.bound;
  apart = subst Distinct (sym e.1) c.apart;
}

-- What a step needs beside the invariant: the number of a disk that is lost is known, and one more
-- disk can be counted.
unfoldable pub IsExpected : Event → State → Type 0
IsExpected (pfs_message fd msg) s = Unit
IsExpected pfs_lost s = Unit
IsExpected (new_pfs received delivered fd) s = Unit
IsExpected (ppd_message msg) s = Unit
IsExpected (new_ppd received delivered uninitialised fd disk_id sectors) s =
    s.ppd_count + 1 < u32_mod
IsExpected (ppd_lost disk_id freed_fd) s = get_by_id disk_id s.disks ≢ none

new_pfs-IsCounted :
    (received delivered : Bool) (fd : ℕ) (s : State)
    → IsCounted s
    → IsCounted (handle_new_pfs received delivered fd s)
unfolding handle_new_pfs
new_pfs-IsCounted received delivered fd s c =
    elim (Bool-cases (received && leb 1 s.ppd_count && delivered)) [
      | inl added ↦ rw added (record { count = c.count; bound = c.bound; apart = c.apart })
      | inr ignored ↦ rw ignored c
    ]

new_ppd-IsCounted :
    (received delivered uninitialised : Bool) (fd disk_id sectors : ℕ) (s : State)
    → s.ppd_count + 1 < u32_mod
    → IsCounted s
    → IsCounted (handle_new_ppd received delivered uninitialised fd disk_id sectors s)
unfolding handle_new_ppd add_new_ppd ids
new_ppd-IsCounted received delivered uninitialised fd disk_id sectors s room c =
    elim (Bool-cases (received && is_none (get_by_id disk_id s.disks) && delivered)) [
      | inl added ↦ rw added (with_new (unknown added))
      | inr ignored ↦ rw ignored c
    ]
  where
    unknown :
        received && is_none (get_by_id disk_id s.disks) && delivered ≡ true
        → get_by_id disk_id s.disks ≡ none
    unknown h = elim (Option-cases (get_by_id disk_id s.disks)) [
      | inl missing ↦ missing
      | inr found ↦ absurd (ground (arith, found.1))
    ]

    with_new :
        get_by_id disk_id s.disks ≡ none
        → IsCounted (record s {
          disks =
              start_last (add_new_ppd uninitialised fd disk_id sectors (s.disks, s.ppd_count)).0;
          ppd_count = (s.ppd_count + 1) % u32_mod;
        })
    with_new new =
        let same =
          ids-start_last (add_new_ppd uninitialised fd disk_id sectors (s.disks, s.ppd_count)).0
          ∙ ids-append s.disks _ in
        record {
          count =
              let long : length (ids s.disks ++ disk_id ∷ []) ≡ length s.disks + 1 =
                length-append (ids s.disks) (disk_id ∷ []) ∙ ap (λ n. n + 1) (length-ids s.disks) in
              let all : (s.ppd_count + 1) % u32_mod ≡ length s.disks + 1 =
                omega (arith, c.count, room) in
              all ∙ sym long ∙ ap length (sym same) ∙ length-ids _;
          bound = omega arith;
          apart =
              subst Distinct (sym same)
                (Distinct-snoc (ids s.disks) disk_id c.apart (get_by_id-none disk_id s.disks new));
        }

ppd_lost-IsCounted :
    (disk_id freed_fd : ℕ) (s : State) (p : State × List Sent)
    → handle_ppd_lost disk_id freed_fd s ≡ ok p
    → get_by_id disk_id s.disks ≢ none
    → IsCounted s
    → IsCounted p.0
unfolding handle_ppd_lost standby KeepsDisks
ppd_lost-IsCounted disk_id freed_fd s p e there c =
    let (apart, fewer) = remove_ppd-ids disk_id s.disks there c.apart in
    let all : length s.disks ≡ s.ppd_count = sym c.count in
    let one_less : (s.ppd_count + u32_mod - 1) % u32_mod ≡ length (remove_ppd disk_id s.disks).0 =
      down s.ppd_count _ (omega (arith, all, fewer)) c.bound in
    let without : IsCounted (record s {
      disks = (remove_ppd disk_id s.disks).0;
      ppd_count = (s.ppd_count + u32_mod - 1) % u32_mod;
    }) =
      record {
        count = one_less;
        bound = omega (arith, fewer, all, one_less, c.bound);
        apart = apart;
      } in
    SameDisks-IsCounted _ p.0
      (keep_if _ (ltb 0 ((s.ppd_count + u32_mod - 1) % u32_mod)) _ _
        (replan_requests-KeepsDisks freed_fd _) (keep_as_is _ _ _ refl refl) p e)
      without
  where
    down : (n k : ℕ) → k + 1 ≡ n → n < u32_mod → (n + u32_mod - 1) % u32_mod ≡ k
    down n k h b = omega arith

-- The disks that PRAID counts are the disks in its queue, and no two have the same number: this
-- holds after a step when it held before.
pub step-IsCounted :
    (e : Event) (s : State) (p : State × List Sent)
    → step e s ≡ ok p
    → IsExpected e s
    → IsCounted s
    → IsCounted p.0
unfolding step KeepsDisks IsExpected handle_pfs_lost handle_new_pfs
step-IsCounted (pfs_message fd msg) s p e x c =
    SameDisks-IsCounted s p.0 (handle_pfs_message-KeepsDisks fd msg s p e) c
step-IsCounted pfs_lost s p e x c = SameDisks-IsCounted s p.0 (keep_as_is s _ _ refl refl p e) c
step-IsCounted (new_pfs received delivered fd) s p e x c =
    subst IsCounted (ap (λ (q : State × List Sent). q.0) (ok-inj e))
      (new_pfs-IsCounted received delivered fd s c)
step-IsCounted (ppd_message msg) s p e x c =
    SameDisks-IsCounted s p.0 (handle_ppd_message-KeepsDisks msg s p e) c
step-IsCounted (new_ppd received delivered uninitialised fd disk_id sectors) s p e x c =
    subst IsCounted (ap (λ (q : State × List Sent). q.0) (ok-inj e))
      (new_ppd-IsCounted received delivered uninitialised fd disk_id sectors s x c)
step-IsCounted (ppd_lost disk_id freed_fd) s p e x c = ppd_lost-IsCounted disk_id freed_fd s p e x c
