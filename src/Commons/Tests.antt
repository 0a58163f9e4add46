-- ===== src/Commons/Tests.antt =====
-- The shared code on short messages and queues.
use fuselage_fat32_utn.Prelude.{ℕ, ◌≡◌, List, [], ◌∷◌, arith}
use fuselage_fat32_utn.Prelude.Outcome.{◌>>=◌}
use fuselage_fat32_utn.Commons.Nipc.{create_msg, to_bytes, to_msg}
use fuselage_fat32_utn.Commons.Nipc.Framing.{create-bytes-msg}

abbrev payload : List ℕ
payload = 10 ∷ 20 ∷ 30 ∷ []

create-bytes-msg_example :
    (do msg ← create_msg 2 2 payload; bytes ← to_bytes msg; to_msg bytes) ≡ create_msg 2 2 payload
create-bytes-msg_example =
    create-bytes-msg 2 2 payload (omega arith) (λ e. absurd (omega (arith, e))) (omega arith)
      (omega arith)
