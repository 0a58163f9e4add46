-- ===== src/Praid/Service/Keeping.antt =====
-- The handlers of PRAID that leave its disks as they are, by their numbers (PRAID/src/ppd_thread.c).
use fuselage_fat32_utn.Prelude.{
  ℕ, ◌≡◌, refl, Bool, true, false, List, [], ◌∷◌, ◌==◌, ap, sym, ◌∙◌, Bool-cases, inl, inr, ltb,
  if◌then◌else◌, ◌&&◌, not,
}
use fuselage_fat32_utn.Prelude.Outcome.{Outcome, ok, fault, ok-inj, ◌>>=◌, need, >>=-eq-ok}
use fuselage_fat32_utn.Praid.Message.{Message, Sent, read_sectors, write_sectors}
use fuselage_fat32_utn.Praid.Disks.{
  PpdNode, ready, synchronizing, same_status, get_by_status, select_by_less_requests,
}
use fuselage_fat32_utn.Praid.Requests.{Request, request_take, request_search, decrement_write_count}
use fuselage_fat32_utn.Praid.Clients.{has_mutex}
use fuselage_fat32_utn.Praid.Disks.Members.{ids, ids-select_by_less_requests}
use fuselage_fat32_utn.Praid.Service.{
  State, sent, fan_out, replan_loop, replan_read, start_thread, start_last, handle_pfs_message,
  handle_ppd_message, handle_write, handle_read, handle_sync_answer, handle_write_answer,
  handle_read_answer, replan_requests,
}

-- The disks are the same, by their numbers.
unfoldable pub SameDisks : State → State → Type 0
SameDisks s s' = (s'.ppd_count ≡ s.ppd_count) × (ids s'.disks ≡ ids s.disks)

ids-fan_out : (msg : Message) (ds : List PpdNode) → ids (fan_out msg ds).0 ≡ ids ds
unfolding fan_out ids
ids-fan_out msg [] = refl
ids-fan_out msg (d ∷ ds) = elim (Bool-cases (same_status d.status ready)) [
  | inl up ↦ rw up (ap (λ l. d.disk_id ∷ l) (ids-fan_out msg ds))
  | inr down ↦ rw down (ap (λ l. d.disk_id ∷ l) (ids-fan_out msg ds))
]

pub ids-start_last : (ds : List PpdNode) → ids (start_last ds) ≡ ids ds
unfolding ids start_thread
ids-start_last [] = refl
ids-start_last (d ∷ []) = refl
ids-start_last (d ∷ e ∷ ds) = ap (λ l. d.disk_id ∷ l) (ids-start_last (e ∷ ds))

ids-replan_read :
    (fd : ℕ) (r : Request) (ds : List PpdNode) (p : List PpdNode × List Sent)
    → replan_read fd r ds ≡ ok p
    → ids p.0 ≡ ids ds
unfolding replan_read
ids-replan_read fd r ds p e = elim (Bool-cases (not (r.ppd_fd == 0) && r.ppd_fd == fd)) [
  | inl mine ↦ moved (rw mine at e)
  | inr other ↦ ap (λ (q : List PpdNode × List Sent). ids q.0) (sym (ok-inj (rw other at e)))
]
  where
    moved :
        (do
          (selected, disks) ← select_by_less_requests ds
          ok (disks, sent selected.ppd_fd r.msg ∷ []))
          ≡ ok p
        → ids p.0 ≡ ids ds
    moved e =
        let (q, chosen, back) = >>=-eq-ok _ _ e in
        ap (λ (q : List PpdNode × List Sent). ids q.0) (sym (ok-inj back))
        ∙ ids-select_by_less_requests ds q.0 q.1 chosen

ids-replan_loop :
    (fd : ℕ) (rs : List Request) (ds : List PpdNode) (p : List Request × List PpdNode × List Sent)
    → replan_loop fd rs ds ≡ ok p
    → ids p.1 ≡ ids ds
unfolding replan_loop
ids-replan_loop fd [] ds p e =
    ap (λ (q : List Request × List PpdNode × List Sent). ids q.1) (sym (ok-inj e))
ids-replan_loop fd (r ∷ rs) ds p e =
    let (q, one, rest) = >>=-eq-ok _ _ e in
    let (t, more, all) = >>=-eq-ok _ _ rest in
    ap (λ (q : List Request × List PpdNode × List Sent). ids q.1) (sym (ok-inj all))
    ∙ ids-replan_loop fd rs q.0 t more
    ∙ ids-replan_read fd r ds q one

-- A result that leaves the disks as they are.
unfoldable pub KeepsDisks : State → Outcome (State × List Sent) → Type 0
KeepsDisks s m = (p : State × List Sent) → m ≡ ok p → SameDisks s p.0

pub keep_as_is :
    (s s' : State) (out : List Sent)
    → s'.ppd_count ≡ s.ppd_count
    → ids s'.disks ≡ ids s.disks
    → KeepsDisks s (ok (s', out))
unfolding KeepsDisks SameDisks
keep_as_is s s' out c d p e =
    let first : s' ≡ p.0 = ap (λ (q : State × List Sent). q.0) (ok-inj e) in
    (
      ap (λ (t : State). t.ppd_count) (sym first) ∙ c,
      ap (λ (t : State). ids t.disks) (sym first) ∙ d,
    )

keep_fault : (s : State) → KeepsDisks s fault
unfolding KeepsDisks
keep_fault s p e = absurd (cc)

keep_bind {ℓ} :
    {A : Type ℓ} (s : State) (m : Outcome A) (f : A → Outcome (State × List Sent))
    → ((a : A) → m ≡ ok a → KeepsDisks s (f a))
    → KeepsDisks s (m >>= f)
unfolding KeepsDisks
keep_bind s m f h p e = let (a, first, rest) = >>=-eq-ok m f e in h a first p rest

pub keep_if :
    (s : State) (b : Bool) (x y : Outcome (State × List Sent))
    → KeepsDisks s x
    → KeepsDisks s y
    → KeepsDisks s (if b then x else y)
keep_if s true x y hx hy = hx
keep_if s false x y hx hy = hy

pub handle_pfs_message-KeepsDisks :
    (fd : ℕ) (msg : Message) (s : State) → KeepsDisks s (handle_pfs_message fd msg s)
unfolding handle_pfs_message handle_write handle_read
handle_pfs_message-KeepsDisks fd msg s =
    keep_if s _ _ _ (keep_as_is s _ _ refl (ids-fan_out msg s.disks)) (
      keep_bind s _ _
        (λ q chosen. keep_as_is s _ _ refl (ids-select_by_less_requests s.disks q.0 q.1 chosen)))

handle_sync_answer-KeepsDisks :
    (msg : Message) (s : State) → KeepsDisks s (handle_sync_answer msg s)
unfolding handle_sync_answer
handle_sync_answer-KeepsDisks msg s =
    keep_bind s (need (get_by_status synchronizing s.disks)) _
      (λ d found. keep_as_is s _ _ refl refl)

handle_write_answer-KeepsDisks :
    (msg : Message) (s : State) → KeepsDisks s (handle_write_answer msg s)
unfolding handle_write_answer
handle_write_answer-KeepsDisks msg s =
    let queue = decrement_write_count msg.request_id msg.sector s.requests in
    keep_bind s (need (request_search msg.request_id msg.sector s.requests)) _ (λ r found.
      keep_bind s (need (request_search msg.request_id msg.sector queue)) _ (λ r found.
        keep_if s (r.write_count == 0) _ _ (keep_as_is s _ _ refl refl)
          (keep_as_is s _ _ refl refl)))

handle_read_answer-KeepsDisks :
    (msg : Message) (s : State) → KeepsDisks s (handle_read_answer msg s)
unfolding handle_read_answer
handle_read_answer-KeepsDisks msg s =
    keep_bind s (need (request_take msg.request_id msg.sector s.requests).0) _ (λ r found.
      keep_if s (ltb 1 s.ppd_count && not (has_mutex r.pfs_fd s.clients)) _ _ (keep_fault s)
        (keep_as_is s _ _ refl refl))

pub handle_ppd_message-KeepsDisks :
    (msg : Message) (s : State) → KeepsDisks s (handle_ppd_message msg s)
unfolding handle_ppd_message
handle_ppd_message-KeepsDisks msg s =
    keep_if s (msg.request_id == 0) _ _ (handle_sync_answer-KeepsDisks msg s) (
      keep_if s (msg.type == write_sectors) _ _ (handle_write_answer-KeepsDisks msg s) (
        keep_if s (msg.type == read_sectors) _ _ (handle_read_answer-KeepsDisks msg s)
          (keep_as_is s _ _ refl refl)))

pub replan_requests-KeepsDisks : (fd : ℕ) (s : State) → KeepsDisks s (replan_requests fd s)
unfolding replan_requests
replan_requests-KeepsDisks fd s =
    keep_bind s _ _ (λ q done. keep_as_is s _ _ refl (ids-replan_loop fd s.requests s.disks q done))
