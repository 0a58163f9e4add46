-- ===== src/Pfs/FilePath.antt =====
-- Paths (FILE_splitNameFromPath of PFS/src/tad_file.c, and the tokens that fat32_readDirectory of
-- PFS/src/pfs_fat32.c takes from a path by `strtok`). A path is the list of its characters.
pub mod Split
use mathlib.Core.List.{reverse}
use fuselage_fat32_utn.Prelude.{
  ℕ, suc, ◌-◌, Bool, true, false, List, [], ◌∷◌, ◌++◌, ◌==◌, if◌then◌else◌, length, take, drop,
}
use fuselage_fat32_utn.Prelude.Outcome.{Outcome, ok, fault, ◌>>=◌}

-- `while (*aux != '/') { char_count++; aux--; }` over the characters from the last one back. In
-- front of the first one the loop reads outside of the path.
unfoldable pub count_name : List ℕ → Outcome ℕ
count_name [] = fault
count_name (c ∷ before) = if c == b'/' then ok 0 else (do n ← count_name before; ok (suc n))

-- The name and the path in front of it.
unfoldable pub split_name_from_path : List ℕ → Outcome (List ℕ × List ℕ)
unfolding count_name
split_name_from_path path = do
  char_count ← count_name (reverse path)
  let path_size = length path - char_count
  ok (
    take char_count (drop path_size path),
    if path_size == 1 then b'/' ∷ [] else take (path_size - 1) path,
  )

abbrev pub flush_token : List ℕ → List (List ℕ) → List (List ℕ)
flush_token [] tokens = tokens
flush_token (c ∷ cs) tokens = (c ∷ cs) ∷ tokens

-- `strtok(fullpath, "/")` and its repetitions: the pieces between slashes that are not empty.
unfoldable pub tokens_from : (token : List ℕ) → List ℕ → List (List ℕ)
tokens_from token [] = flush_token token []
tokens_from token (c ∷ cs) = elim (c == b'/') [
  | true ↦ flush_token token (tokens_from [] cs)
  | false ↦ tokens_from (token ++ c ∷ []) cs
]
