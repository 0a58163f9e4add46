-- ===== src/Ppd/Service/Drained.antt =====
-- As many rounds of TAKER_main as requests wait answer each of them.
use mathlib.Core.List.{Perm}
use mathlib.Core.List.Perm
use fuselage_fat32_utn.Prelude.{
  ℕ, zero, suc, ◌+◌, ◌≡◌, refl, arith, List, [], ◌∷◌, ◌++◌, map, length, take, drop, bytes32,
}
use fuselage_fat32_utn.Prelude.Outcome.{ok}
use fuselage_fat32_utn.Ppd.Taker.{Request}
use fuselage_fat32_utn.Ppd.Queues.{waiting}
use fuselage_fat32_utn.Ppd.Service.{Ppd, taker_rounds, Reply}
use fuselage_fat32_utn.Ppd.Service.Drain.{pending, IsRunning, taker_round-Progress}

-- To whom a message goes, and the number of the request that it answers.
abbrev pub answered : Reply → ℕ × List ℕ
answered reply = (reply.to, take 4 (drop 3 reply.bytes))

abbrev pub asked : Request → ℕ × List ℕ
asked r = (r.sender, bytes32 r.id)

none_waits : (xs ys : List Request) → length xs + length ys ≡ 0 → xs ++ ys ≡ []
none_waits [] [] h = refl
none_waits [] (y ∷ ys) h = absurd (omega (arith, h))
none_waits (x ∷ xs) ys h = absurd (omega (arith, h))

-- On a disk that runs, with n requests in its queues, n rounds run to their end and leave no request;
-- the messages that they send are, but for their order, one to the sender of each request, with the
-- number of that request.
pub taker_rounds-drain :
    (n : ℕ) (p : Ppd)
    → IsRunning p
    → waiting p.queues ≡ n
    → (p' : Ppd) × (replies : List Reply) × (taker_rounds n p ≡ ok (p', replies))
      × IsRunning p'
      × (waiting p'.queues ≡ 0)
      × Perm (map asked (pending p)) (map answered replies)
unfolding taker_rounds
taker_rounds-drain zero p v h =
    (p, [], refl, v, h, rw (none_waits p.queues.queue1 p.queues.queue2 h) Perm.nil)
taker_rounds-drain (suc n) p v h =
    let (p1, reply, r, runs, v', perm, one, to, id) = taker_round-Progress p v (omega (arith, h)) in
    let (p2, replies, rest, v'', done, perms) =
      taker_rounds-drain n p1 v' (omega (arith, h, one)) in
    (
      p2,
      reply ∷ replies,
      rw (runs, rest) refl,
      v'',
      done,
      Perm.trans (Perm.map asked perm) (rw (to, id) (Perm.cons (asked r) perms)),
    )
