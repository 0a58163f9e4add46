-- ===== src/Praid/Clients.antt =====
-- The connected file systems (PRAID/src/pfs_queue.c), a list of their sockets.
use fuselage_fat32_utn.Prelude.{ℕ, Bool, true, false, List, [], ◌∷◌, ◌++◌, ◌==◌, if◌then◌else◌}

-- PFSQUEUE_getMutex: whether there is a mutex for the socket, or NULL.
unfoldable pub has_mutex : ℕ → List ℕ → Bool
has_mutex pfs_fd [] = false
has_mutex pfs_fd (fd ∷ rest) = if fd == pfs_fd then true else has_mutex pfs_fd rest

-- PFSQUEUE_addNew
unfoldable pub add_new_pfs : ℕ → List ℕ → List ℕ
add_new_pfs pfs_fd queue = queue ++ pfs_fd ∷ []

-- PFSQUEUE_removeAll
unfoldable pub remove_all : List ℕ → List ℕ
remove_all queue = []
