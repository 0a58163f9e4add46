-- ===== src/Pfs/Files/Root.antt =====
-- A file that fat32_mk makes in the root directory is found by its path.
use fuselage_fat32_utn.Prelude.{
  ℕ, suc, ◌+◌, ◌*◌, ◌≤◌, ◌≡◌, ◌≢◌, refl, ap, ◌∙◌, arith, true, some, none, List, [], ◌∷◌, ◌++◌,
  length, replicate, All, IsString, same_string, same_string_refl, same_string-eq, Bool-cases, inl,
  inr,
}
use fuselage_fat32_utn.Prelude.Outcome.{ok}
use fuselage_fat32_utn.Pfs.BootSector.{BootSector}
use fuselage_fat32_utn.Pfs.Fat.{get_linked_clusters}
use fuselage_fat32_utn.Pfs.Volume.{Volume}
use fuselage_fat32_utn.Pfs.DirEntry.{Tm, archive_attr, get_cluster_number}
use fuselage_fat32_utn.Pfs.LfnEntry.{Unicode}
use fuselage_fat32_utn.Pfs.LfnEntry.Names.{IsAscii, IsUnicode}
use fuselage_fat32_utn.Pfs.FilePath.Split.{IsName, split_name_from_path-join}
use fuselage_fat32_utn.Pfs.FileEntry.{FileEntry}
use fuselage_fat32_utn.Pfs.Directory.{Malloc, interpret_from_cluster}
use fuselage_fat32_utn.Pfs.Directory.Listing.{Slot, IsSlot, slots_bytes, file_of, files_of}
use fuselage_fat32_utn.Pfs.Lookup.{
  read_table_of, collect, read_directory, find_named, get_file_entry,
}
use fuselage_fat32_utn.Pfs.Files.{Making, mk}
use fuselage_fat32_utn.Pfs.Files.Search.{IsNamed}
use fuselage_fat32_utn.Pfs.Files.NewFile.{mk_in-IsMade}

pub find_named-slot :
    (name : List ℕ) (cluster offset : ℕ) (ss : List Slot) (new : Slot) (rest : List Slot)
    → All (λ (s : Slot). s.name ≢ name) ss
    → new.name ≡ name
    → find_named name (files_of cluster offset (ss ++ new ∷ rest))
      ≡ some (file_of cluster (offset + 64 * length ss) new)
unfolding find_named files_of
find_named-slot name cluster offset [] new rest others is_name =
    let z : offset ≡ offset + 64 * 0 = omega arith in
    let same : same_string new.name name ≡ true =
      ap (λ n. same_string n name) is_name ∙ same_string_refl name in
    rw same (ap (λ n. some (file_of cluster n new)) z)
find_named-slot name cluster offset (s ∷ ss) new rest others is_name =
    let size : offset + 64 + 64 * length ss ≡ offset + 64 * suc (length ss) = omega arith in
    elim (Bool-cases (same_string s.name name)) [
      | inl same ↦ absurd (others.0 (same_string-eq s.name name same))
      | inr other ↦ rw other (
          find_named-slot name cluster (offset + 64) ss new rest others.1 is_name
          ∙ ap (λ n. some (file_of cluster n new)) size)
    ]

pub find_named-none :
    (name : List ℕ) (cluster offset : ℕ) (ss : List Slot)
    → All (λ (s : Slot). s.name ≢ name) ss
    → find_named name (files_of cluster offset ss) ≡ none
unfolding find_named files_of
find_named-none name cluster offset [] others = refl
find_named-none name cluster offset (s ∷ ss) others = elim (Bool-cases (same_string s.name name)) [
  | inl same ↦ absurd (others.0 (same_string-eq s.name name same))
  | inr other ↦ rw other (find_named-none name cluster (offset + 64) ss others.1)
]

pub read_directory-root :
    (rounds : ℕ) (icu : Unicode) (malloc : Malloc) (v : Volume) (files : List FileEntry)
    → get_linked_clusters rounds v.fat 2 ≡ ok (2 ∷ [])
    → interpret_from_cluster icu malloc 2 (v.contents 2) ≡ ok files
    → read_directory rounds icu malloc v (b'/' ∷ []) ≡ ok files
unfolding read_directory read_table_of collect
read_directory-root rounds icu malloc v files chain shown = rw (chain, shown) refl

-- The search in a root directory of one cluster.
pub get_file_entry-root :
    (rounds : ℕ) (icu : Unicode) (malloc : Malloc) (v : Volume) (name : List ℕ)
    (files : List FileEntry)
    → IsName name
    → get_linked_clusters rounds v.fat 2 ≡ ok (2 ∷ [])
    → interpret_from_cluster icu malloc 2 (v.contents 2) ≡ ok files
    → get_file_entry rounds icu malloc v (b'/' ∷ name) ≡ ok (find_named name files)
unfolding get_file_entry
get_file_entry-root rounds icu malloc v name files is_name chain shown =
    rw (split_name_from_path-join [] name is_name)
      (rw (read_directory-root rounds icu malloc v files chain shown) refl)

module _ (rounds : ℕ) (boot : BootSector) (malloc : Malloc) (icu : Unicode) (now : Tm)
    (behind name : List ℕ) (ss : List Slot) (k : ℕ) (v : Volume) where
  -- Let the root directory be one cluster that holds files with long names, at most 62 of them, none of
  -- the name that is asked for and none with an own entry that starts with 0, and zeros behind them.
  -- Let the conversions keep ASCII, let memory hold eight bytes from the start of the name, and let
  -- `malloc` give 28 bytes at least where LFNENTRY_setNameChars asks for 26.
  -- When fat32_mk is called for a file of a name of up to 12 characters of ASCII, none of them 0
  -- or a slash, fat32_getFileEntry finds the file by its path: a file of that name, without a
  -- cluster and without a byte. The table stays as it was and is not sent.
  pub get_file_entry-mk :
      IsUnicode icu
      → IsString name
      → IsAscii name
      → IsName name
      → length name ≤ 12
      → 8 ≤ length name + 1 + length behind
      → 28 ≤ length icu.str_to
      → get_linked_clusters rounds v.fat 2 ≡ ok (2 ∷ [])
      → All (IsSlot icu) ss
      → All IsNamed ss
      → All (λ (s : Slot). s.name ≢ name) ss
      → v.contents 2 ≡ slots_bytes ss ++ replicate k 0
      → 64 * length ss + k ≡ 4096
      → length ss ≤ 62
      → (v' : Volume) × (f : FileEntry) × (mk rounds boot malloc icu now behind
            (b'/' ∷ name)
            archive_attr
            v
          ≡ ok (v', []))
        × (get_file_entry rounds icu malloc v' (b'/' ∷ name) ≡ ok (some f))
        × (f.long_file_name ≡ name)
        × (get_cluster_number f.dir_entry ≡ 0)
        × (f.dir_entry.file_size ≡ 0)
        × (f.dir_entry.archive ≡ true)
        × (v'.fat ≡ v.fat)
  unfolding mk
  get_file_entry-mk laws string ascii is_name short long room chain h named others holds whole few =
      let m : Making = record {
        icu = icu;
        now = now;
        filename = name;
        dir_or_archive = archive_attr;
        behind = behind;
      } in
      let (v', made, r) =
        mk_in-IsMade boot m malloc 2 ss k v [] laws refl string ascii short long room h named holds
          whole few in
      let found =
        get_file_entry-root rounds icu malloc v' name (files_of 2 0 (ss ++ r.new ∷ [])) is_name
          (ap (λ fat. get_linked_clusters rounds fat 2) r.same_fat ∙ chain) r.shown in
      (
        v',
        file_of 2 (0 + 64 * length ss) r.new,
        rw (split_name_from_path-join [] name is_name) (rw (chain) (rw made refl)),
        found ∙ ap ok (find_named-slot name 2 0 ss r.new [] others r.named),
        r.named,
        r.no_cluster,
        r.empty,
        r.file,
        r.same_fat,
      )
