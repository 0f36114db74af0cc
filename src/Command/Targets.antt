-- ===== src/Command/Targets.antt =====
-- cmd/scc/main.go: `collectDir`, `isELF` and `readList`, over a tree of files.
pub mod Lists
pub mod Walks
use sec_compile_option.Base.{
  Bool, List, Option, [], false, if◌then◌else◌, none, not, some, ◌&&◌, ◌++◌, ◌||◌, ◌∷◌,
}
use sec_compile_option.Go.Io.{ok, read_at}
use sec_compile_option.Go.Spaces.{trim_space}
use sec_compile_option.Go.Strings.{Bytes, codes, eq_bytes, has_prefix, split}

-- A directory entry as filepath.WalkDir meets it: a file with the bytes that can be read of it
-- (none if it cannot be opened), or a directory with its entries in order (none if it cannot be
-- listed). Each has its path.
mutual
  pub data Node : Type 0 where
    leaf : Bytes → Option Bytes → Node
    folder : Bytes → Nodes → Node
    unreadable : Bytes → Node

  pub data Nodes : Type 0 where
    nil : Nodes
    cons : Node → Nodes → Nodes

-- The file system: what os.Lstat and the walk find below a path (none if the path is not there),
-- and what os.ReadFile returns.
pub record FileSystem : Type 0 where
  pub walk_root : Bytes → Option Node
  pub read_file : Bytes → Option Bytes

abbrev pub elf_magic : Bytes
elf_magic = 0x7f ∷ b'E' ∷ b'L' ∷ b'F' ∷ []

-- The first four bytes are the magic number.
unfoldable pub is_elf : Option Bytes → Bool
unfolding read_at eq_bytes
is_elf none = false
is_elf (some content) =
    let r = read_at (some content) 4 0 in
    elim r.outcome [ ok ↦ eq_bytes r.buf elf_magic | _ ↦ false ]

-- Both results of a part of the walk, in order.
abbrev pub join_found : Option (List Bytes) → Option (List Bytes) → Option (List Bytes)
join_found none rest = none
join_found (some found) none = none
join_found (some found) (some rest) = some (found ++ rest)

-- The walk below a root; none once the callback has returned an error. A folder that is not the
-- root is skipped, and not listed, unless the walk is recursive.
unfoldable mutual
  unfolding is_elf

  pub walk : Bytes → Bool → Node → Option (List Bytes)
  walk root recursive (leaf path content) = some (if is_elf content then path ∷ [] else [])
  walk root recursive (folder path entries) =
      let below = walk_all root recursive entries in
      if not recursive && not (eq_bytes path root) then some [] else below
  walk root recursive (unreadable path) =
      if not recursive && not (eq_bytes path root) then some [] else none

  pub walk_all : Bytes → Bool → Nodes → Option (List Bytes)
  walk_all root recursive nil = some []
  walk_all root recursive (cons n ns) =
      join_found (walk root recursive n) (walk_all root recursive ns)

unfoldable pub collect_dir : FileSystem → Bytes → Bool → Option (List Bytes)
unfolding walk walk_all
collect_dir fs dir recursive = elim (fs.walk_root dir) [
  | none ↦ none
  | some root ↦ walk dir recursive root
]

unfoldable pub listed : List Bytes → List Bytes
unfolding trim_space has_prefix
listed [] = []
listed (line ∷ lines) =
    let t = trim_space line in
    if eq_bytes t [] || has_prefix t (codes "#") then listed lines else t ∷ listed lines

unfoldable pub read_list : FileSystem → Bytes → Option (List Bytes)
unfolding split listed
read_list fs path = elim (fs.read_file path) [
  | none ↦ none
  | some content ↦ some (listed (split b'\n' content))
]
