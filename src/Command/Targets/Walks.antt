-- ===== src/Command/Targets/Walks.antt =====
-- `collectDir`: which files a walk finds.
use sec_compile_option.Base.{
  Bool, Bool-cases, List, Option, [], ap, arith, false, if◌then◌else◌, inl, inr, none, refl, some,
  sym, true, ◌&&◌, ◌++◌, ◌∙◌, ◌∷◌, ◌≡◌, ◌≢◌,
}
use sec_compile_option.Command.Targets.{
  FileSystem, Node, Nodes, collect_dir, cons, folder, is_elf, join_found, leaf, nil, unreadable,
  walk, walk_all,
}
use sec_compile_option.Go.Strings.{Bytes, eq_bytes, eq_bytes_iff}

abbrev pub Leaf : Type 0
Leaf = Bytes × Option Bytes

-- The paths of the files that are ELF, in order.
abbrev pub elf_paths : List Leaf → List Bytes
elf_paths [] = []
elf_paths ((path, content) ∷ ls) = if is_elf content then path ∷ elf_paths ls else elf_paths ls

-- All files below a node, in the order of the walk.
mutual
  pub leaves : Node → List Leaf
  leaves (leaf path content) = (path, content) ∷ []
  leaves (folder path entries) = leaves_all entries
  leaves (unreadable path) = []

  pub leaves_all : Nodes → List Leaf
  leaves_all nil = []
  leaves_all (cons n ns) = leaves n ++ leaves_all ns

-- Every folder below a node can be listed.
mutual
  pub is_readable : Node → Bool
  is_readable (leaf path content) = true
  is_readable (folder path entries) = all_readable entries
  is_readable (unreadable path) = false

  pub all_readable : Nodes → Bool
  all_readable nil = true
  all_readable (cons n ns) = is_readable n && all_readable ns

-- The files that stand directly in a folder.
abbrev pub direct_leaves : Nodes → List Leaf
direct_leaves nil = []
direct_leaves (cons (leaf path content) ns) = (path, content) ∷ direct_leaves ns
direct_leaves (cons (folder path entries) ns) = direct_leaves ns
direct_leaves (cons (unreadable path) ns) = direct_leaves ns

abbrev path_of : Node → Bytes
path_of (leaf path content) = path
path_of (folder path entries) = path
path_of (unreadable path) = path

-- The path of each entry is another one.
abbrev pub Others : Bytes → Nodes → Type 0
Others dir nil = Unit
Others dir (cons n ns) = (path_of n ≢ dir) × Others dir ns

elf_paths-append : (xs ys : List Leaf) → elf_paths (xs ++ ys) ≡ elf_paths xs ++ elf_paths ys
elf_paths-append [] ys = refl
elf_paths-append (x ∷ xs) ys = elim (Bool-cases (is_elf x.1)) [
  | inl e ↦ rw e (ap (◌∷◌ x.0) (elf_paths-append xs ys))
  | inr e ↦ rw e (elf_paths-append xs ys)
]

join_if :
    (a b : Bool) (x y : List Bytes)
    → join_found (if a then some x else none) (if b then some y else none)
      ≡ (if a && b then some (x ++ y) else none)
join_if true true x y = refl
join_if true false x y = refl
join_if false b x y = refl

mutual
  unfolding walk walk_all leaves leaves_all is_readable all_readable

  walk-leaves :
      (root : Bytes) (n : Node)
      → walk root true n ≡ (if is_readable n then some (elf_paths (leaves n)) else none)
  walk-leaves root (leaf path content) = refl
  walk-leaves root (folder path entries) = walk_all-leaves root entries
  walk-leaves root (unreadable path) = refl

  walk_all-leaves :
      (root : Bytes) (ns : Nodes)
      → walk_all root true ns ≡ (if all_readable ns then some (elf_paths (leaves_all ns)) else none)
  walk_all-leaves root nil = refl
  walk_all-leaves root (cons n ns) =
      rw (walk-leaves root n, walk_all-leaves root ns)
        (join_if (is_readable n) (all_readable ns) (elf_paths (leaves n))
            (elf_paths (leaves_all ns))
          ∙ ap (λ t. if is_readable n && all_readable ns then some t else none)
              (sym (elf_paths-append (leaves n) (leaves_all ns))))

differs : (a b : Bytes) → a ≢ b → eq_bytes a b ≡ false
differs a b h = ground (arith, eq_bytes_iff a b)

walk_all-direct :
    (dir : Bytes) (ns : Nodes)
    → Others dir ns
    → walk_all dir false ns ≡ some (elf_paths (direct_leaves ns))
unfolding walk walk_all
walk_all-direct dir nil h = refl
walk_all-direct dir (cons (leaf path content) ns) (h, hs) =
    rw (walk_all-direct dir ns hs)
      (elim (Bool-cases (is_elf content)) [ inl e ↦ rw e refl | inr e ↦ rw e refl ])
walk_all-direct dir (cons (folder path entries) ns) (h, hs) =
    rw (differs path dir h, walk_all-direct dir ns hs) refl
walk_all-direct dir (cons (unreadable path) ns) (h, hs) =
    rw (differs path dir h, walk_all-direct dir ns hs) refl

-- A recursive walk of a directory finds all ELF files below it, in the order of the walk, and fails
-- exactly if a folder below it cannot be listed; a walk that is not recursive finds the ELF files
-- that stand directly in it. The entries of the directory have other paths than the directory.
pub collect_dir-leaves :
    (fs : FileSystem) (dir : Bytes) (entries : Nodes)
    → fs.walk_root dir ≡ some (folder dir entries)
    → Others dir entries
    → (collect_dir fs dir true
        ≡ (if all_readable entries then some (elf_paths (leaves_all entries)) else none))
      × (collect_dir fs dir false ≡ some (elf_paths (direct_leaves entries)))
unfolding collect_dir walk
collect_dir-leaves fs dir entries e h = (
  rw (collect_dir, e) (walk_all-leaves dir entries),
  rw (collect_dir, e, walk, (eq_bytes_iff dir dir).1 refl) (walk_all-direct dir entries h),
)
