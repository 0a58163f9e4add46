-- ===== src/Praid/Requests.antt =====
-- The requests that wait for answers (PRAID/src/request_handler.c). The queue is a list; a function
-- that unlinks a node returns the new list.
pub mod Search
use fuselage_fat32_utn.Prelude.{
  ℕ, ◌+◌, Bool, Option, none, some, List, [], ◌∷◌, ◌++◌, ◌==◌, ◌&&◌, if◌then◌else◌, ◌%◌, u32_mod,
  ◌-◌,
}
use fuselage_fat32_utn.Praid.Message.{Message}

-- request_t
pub record Request : Type 0 where
  pub request_id : ℕ
  pub sector : ℕ
  pub pfs_fd : ℕ
  pub ppd_fd : ℕ
  pub write_count : ℕ
  pub msg : Message
  pub msg_len : ℕ

unfoldable pub request_add_new :
    (ppd_count : ℕ) → (ppd_fd pfs_fd : ℕ) → Message → List Request → List Request
request_add_new ppd_count ppd_fd pfs_fd msg queue =
    queue
    ++ record {
      request_id = msg.request_id;
      sector = msg.sector;
      pfs_fd = pfs_fd;
      ppd_fd = ppd_fd;
      write_count = ppd_count;
      msg = msg;
      msg_len = msg.len + 3;
    }
      ∷ []

abbrev pub matches : (request_id sector : ℕ) → Request → Bool
matches request_id sector r = (r.sector == sector) && (r.request_id == request_id)

-- The request, if there is one, and the queue without its node.
unfoldable pub request_take : (request_id sector : ℕ) → List Request → Option Request × List Request
request_take request_id sector [] = (none, [])
request_take request_id sector (r ∷ rest) =
    let (taken, left) = request_take request_id sector rest in
    if matches request_id sector r then (some r, rest) else (taken, r ∷ left)

unfoldable pub request_search : (request_id sector : ℕ) → List Request → Option Request
request_search request_id sector [] = none
request_search request_id sector (r ∷ rest) =
    if matches request_id sector r then some r else request_search request_id sector rest

-- `request->write_count--` through the pointer that request_search returned
unfoldable pub decrement_write_count : (request_id sector : ℕ) → List Request → List Request
decrement_write_count request_id sector [] = []
decrement_write_count request_id sector (r ∷ rest) =
    if matches request_id sector r
    then record r { write_count = (r.write_count + u32_mod - 1) % u32_mod } ∷ rest
    else r ∷ decrement_write_count request_id sector rest
