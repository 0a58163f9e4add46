-- ===== src/Ppd/Scan/Fscan.antt =====
-- FSCAN_getNext (PPD/src/ppd_FSCAN.c).
use fuselage_fat32_utn.Prelude.{
  ℕ, ◌<◌, ◌≤◌, ◌≡◌, refl, true, false, none, List, ◌∷◌, arith, ap, ◌∙◌, All, All-mono, All-zip, ◌⊎◌,
  inl, inr, Bool-cases, some,
}
use fuselage_fat32_utn.Prelude.Outcome.{ok}
use fuselage_fat32_utn.Ppd.Geometry.{Chs, Disk, turn_to_chs}
use fuselage_fat32_utn.Ppd.Taker.{Request, Condition, candidate, get_next_node}
use fuselage_fat32_utn.Ppd.Taker.Nearest.{distance, get_next_node-nearest}
use fuselage_fat32_utn.Ppd.Queues.{Flag, select_condition, toggle_direction}
use fuselage_fat32_utn.Ppd.Scan.{Search, fscan_get_next, turn_around, move_head_position, edge}
use fuselage_fat32_utn.Ppd.Scan.Direction.{
  IsMovable, Heading, upward, downward, Ahead, Behind, none_ahead, move_to_cylinder-lands,
}

module _ (disk : Disk) (v : IsMovable disk) (first : Request) (rest : List Request) where
  -- At the edge of the disk everything is on the way back.
  all_back :
      {d d' : Flag} {c c' : Condition} {e : ℕ} (head : Chs)
      → Heading disk d c d' c' e
      → head.cylinder ≡ e
      → (r : Request) → r.address.cylinder < disk.cylinders
      → c' r.address head ≡ true
  all_back head upward e r h = ground arith
  all_back head downward e r h = ground arith

  edge-eq : {d d' : Flag} {c c' : Condition} {e : ℕ} → Heading disk d c d' c' e → edge disk d ≡ e
  edge-eq upward = omega (arith, v.some_cylinders, v.few)
  edge-eq downward = refl

  edge-lt : {d d' : Flag} {c c' : Condition} {e : ℕ} → Heading disk d c d' c' e → e < disk.cylinders
  edge-lt upward = omega (arith, v.some_cylinders)
  edge-lt downward = v.some_cylinders

  select-here :
      {d d' : Flag} {c c' : Condition} {e : ℕ}
      → Heading disk d c d' c' e
      → select_condition d ≡ ok c
  unfolding select_condition
  select-here upward = refl
  select-here downward = refl

  select-back :
      {d d' : Flag} {c c' : Condition} {e : ℕ}
      → Heading disk d c d' c' e
      → (toggle_direction d ≡ d') × (select_condition d' ≡ ok c')
  unfolding select_condition toggle_direction
  select-back upward = (refl, refl)
  select-back downward = (refl, refl)

  turn_around-Behind :
      {d d' : Flag} {c c' : Condition} {e : ℕ} (trace : ℕ)
      → Heading disk d c d' c' e
      → All (λ r. r.address.cylinder < disk.cylinders) (first ∷ rest)
      → (s : Search) × (best : Request) × (turn_around disk (first ∷ rest) d trace none ≡ ok s)
        × (s.direction ≡ d')
        × (candidate (first ∷ rest) s.prev ≡ some best)
        × ((turn_to_chs disk s.trace_position).cylinder ≡ e)
        × All
            (λ r.
              distance (turn_to_chs disk s.trace_position) best
              ≤ distance (turn_to_chs disk s.trace_position) r)
            (first ∷ rest)
  unfolding turn_around move_head_position
  turn_around-Behind {d} {d'} {c'} {e} trace h on =
      let (delay, t, moves, lands) = move_to_cylinder-lands disk v e trace (edge-lt h) in
      let (prev, best, runs, stands, no_worse, _) = get_next_node-nearest disk first rest t c' in
      let (flips, selects) = select-back h in
      (
        record { delay = delay; prev = prev; direction = d'; trace_position = t },
        best,
        rw (edge-eq h) (rw moves (rw flips (rw selects (rw runs)))),
        refl,
        stands,
        lands,
        All-zip (λ r here worse. (worse (all_back (turn_to_chs disk t) h lands r here)).1)
            (first ∷ rest) on no_worse,
      )

  -- On a one-head disk that the head can move on, with every request on the disk, FSCAN serves a
  -- nearest request ahead of the head. If there is none it turns round at the edge it was heading
  -- for and serves a request nearest to that edge.
  pub fscan_get_next_lem :
      {d d' : Flag} {c c' : Condition} {e : ℕ} (trace head_position : ℕ)
      → Heading disk d c d' c' e
      → All (λ r. r.address.cylinder < disk.cylinders) (first ∷ rest)
      → (s : Search) × (best : Request) × (fscan_get_next disk (first ∷ rest) d trace head_position
          ≡ ok s)
        × (candidate (first ∷ rest) s.prev ≡ some best)
        × (((s.direction ≡ d) × Ahead (first ∷ rest) c (turn_to_chs disk head_position) best)
            ⊎ ((s.direction ≡ d')
                × Behind disk
                    (first ∷ rest)
                    c
                    (turn_to_chs disk head_position)
                    e
                    s.trace_position
                    best))
  unfolding fscan_get_next
  fscan_get_next_lem {d} {c} trace head_position h on =
      let (prev, best, runs, stands, no_worse, unset) =
        get_next_node-nearest disk first rest head_position c in
      elim (Bool-cases (c best.address (turn_to_chs disk head_position))) [
        | inl ahead ↦ (
          record { delay = 0; prev = prev; direction = d; trace_position = trace },
          best,
          rw (select-here h) (rw runs (rw ahead)),
          stands,
          inl (refl, (ahead, All-mono (λ r k a. (k a).1) (first ∷ rest) no_worse)),
        )
        | inr refused ↦
            let (s, back, turns, flipped, chosen, lands, nearest) = turn_around-Behind trace h on in
            let searched : get_next_node disk (first ∷ rest) head_position none c
                ≡ ok (none, false) =
              runs
              ∙ ap (λ p. ok (p, c best.address (turn_to_chs disk head_position))) (unset refused)
              ∙ ap (λ b. ok (none, b)) refused in
            (
              s,
              back,
              rw (select-here h) (rw searched turns),
              chosen,
              inr (
                flipped,
                (
                  lands,
                  none_ahead c (turn_to_chs disk head_position) best (first ∷ rest) refused
                      no_worse,
                  nearest,
                ),
              ),
            )
      ]
