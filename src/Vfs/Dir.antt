-- ===== src/Vfs/Dir.antt =====
-- The directories of ramfs, kernel/core/vfs.c. A node is named by its address; what kmalloc gives
-- for a new one is an argument. The chain of `next` pointers is the list of the children.
pub mod Rename
use utms.Base.{
  ℕ, ◌-◌, Bool, true, false, not, ◌&&◌, ◌||◌, List, [], ◌∷◌, Option, none, some, if◌then◌else◌,
  ◌==◌, take,
}
use utms.Vfs.File.{File}

-- `VFS_FILE`, `VFS_DIR`, `VFS_SYMLINK`, `VFS_BLOCK_DEVICE`
pub data NodeType : Type 0 where
  file : NodeType
  dir : NodeType
  symlink : NodeType
  block_device : NodeType

abbrev pub is_dir : NodeType → Bool
is_dir dir = true
is_dir file = false
is_dir symlink = false
is_dir block_device = false

abbrev pub is_symlink : NodeType → Bool
is_symlink symlink = true
is_symlink file = false
is_symlink dir = false
is_symlink block_device = false

-- `vfs_node_t`, without the links to drivers.
pub record Node : Type 0 where
  pub name : List ℕ
  pub type : NodeType
  pub mode : ℕ
  pub contents : File
  pub target : List ℕ
  pub parent : Option ℕ
  pub children : List ℕ

abbrev pub Nodes : Type 0
Nodes = ℕ → Node

abbrev pub max_name : ℕ
max_name = 256

abbrev pub update : ℕ → Node → Nodes → Nodes
update a n t b = if b == a then n else t b

-- `strcmp` gives 0.
unfoldable pub same_name : List ℕ → List ℕ → Bool
same_name [] [] = true
same_name [] (y ∷ ys) = false
same_name (x ∷ xs) [] = false
same_name (x ∷ xs) (y ∷ ys) = (x == y) && same_name xs ys

-- `vfs_create_node`
abbrev pub create_node : List ℕ → NodeType → Node
create_node name type = record {
  name = take (max_name - 1) name;
  type = type;
  mode = 0;
  contents = record { size = 0; capacity = 0; data_bytes = [] };
  target = [];
  parent = none;
  children = [];
}

unfoldable pub find_named : Nodes → List ℕ → List ℕ → Option ℕ
find_named t name [] = none
find_named t name (c ∷ cs) =
    let later = find_named t name cs in if same_name (t c).name name then some c else later

-- `ramfs_find_child`
unfoldable pub find_child : Nodes → ℕ → List ℕ → Option ℕ
find_child t d name = if is_dir (t d).type then find_named t name (t d).children else none

-- `ramfs_add_child`
unfoldable pub add_child : ℕ → ℕ → Nodes → Nodes
add_child d c t =
    let t' = update c (record (t c) { parent = some d }) t in
    update d (record (t' d) { children = c ∷ (t' d).children }) t'

-- The first occurrence is taken out.
unfoldable pub remove : ℕ → List ℕ → Option (List ℕ)
remove c [] = none
remove c (x ∷ xs) =
    let later = remove c xs in
    if x == c then some xs else elim later [ none ↦ none | some ys ↦ some (x ∷ ys) ]

-- `ramfs_remove_child`; `none` is -1.
unfoldable pub remove_child : ℕ → ℕ → Nodes → Option Nodes
remove_child d c t = elim (remove c (t d).children) [
  | none ↦ none
  | some cs ↦
      let t' = update d (record (t d) { children = cs }) t in
      some (update c (record (t' c) { parent = none }) t')
]

-- `ramfs_lookup`
unfoldable pub lookup : ℕ → List ℕ → Nodes → Option (Nodes × ℕ)
lookup d name t = elim (find_child t d name) [
  | none ↦ none
  | some c ↦ some (update c (record (t c) { parent = some d }) t, c)
]

abbrev pub is_found : Option ℕ → Bool
is_found none = false
is_found (some a) = true

-- A node is made and added, unless the name is there.
unfoldable pub make : Option ℕ → ℕ → Node → List ℕ → Nodes → Option Nodes
make page d n name t =
    if not (is_dir (t d).type) || is_found (find_child t d name)
    then none
    else elim page [ none ↦ none | some a ↦ some (add_child d a (update a n t)) ]

-- `ramfs_create`
unfoldable pub create : Option ℕ → ℕ → List ℕ → ℕ → Nodes → Option Nodes
create page d name mode t = make page d (record (create_node name file) { mode = mode }) name t

-- `ramfs_mkdir`
unfoldable pub mkdir : Option ℕ → ℕ → List ℕ → ℕ → Nodes → Option Nodes
mkdir page d name mode t = make page d (record (create_node name dir) { mode = mode }) name t

-- `ramfs_symlink`
unfoldable pub make_symlink : Option ℕ → ℕ → List ℕ → List ℕ → Nodes → Option Nodes
make_symlink page d name target t =
    make page d
      (record (create_node name symlink) { mode = 511; target = take (max_name - 1) target }) name t

-- `ramfs_readlink` into a buffer of so many bytes.
unfoldable pub readlink : ℕ → ℕ → Nodes → Option (List ℕ)
readlink a size t =
    if not (is_symlink (t a).type) || size == 0 then none else some (take (size - 1) (t a).target)

abbrev pub is_empty : List ℕ → Bool
is_empty [] = true
is_empty (x ∷ xs) = false

-- A directory that is not empty.
abbrev pub is_kept : Node → Bool
is_kept n = is_dir n.type && not (is_empty n.children)

-- `ramfs_unlink`; the node's memory is freed.
unfoldable pub unlink : ℕ → List ℕ → Nodes → Option Nodes
unlink d name t = elim (find_child t d name) [
  | none ↦ none
  | some c ↦ if is_kept (t c) then none else remove_child d c t
]

-- `ramfs_readdir`: names, types and sizes of the first children.
pub record Dirent : Type 0 where
  pub name : List ℕ
  pub type : NodeType
  pub size : ℕ

unfoldable pub dirents : Nodes → List ℕ → List Dirent
dirents t [] = []
dirents t (c ∷ cs) =
    record { name = (t c).name; type = (t c).type; size = (t c).contents.size } ∷ dirents t cs

unfoldable pub readdir : ℕ → ℕ → Nodes → Option (List Dirent)
readdir max d t = if is_dir (t d).type then some (dirents t (take max (t d).children)) else none

-- The last part of `ramfs_rename`: the node moves and takes the name. It says whether it gives 0.
unfoldable pub move : ℕ → ℕ → ℕ → List ℕ → Nodes → Nodes × Bool
move old_dir new_dir c name t = elim (remove_child old_dir c t) [
  | none ↦ (t, false)
  | some t' ↦
      (add_child new_dir c (update c (record (t' c) { name = take (max_name - 1) name }) t'), true)
]

abbrev pub or_same : Nodes → Option Nodes → Nodes
or_same t none = t
or_same t (some t') = t'

-- `ramfs_rename`: what stands under the new name is removed first.
unfoldable pub rename : ℕ → List ℕ → ℕ → List ℕ → Nodes → Nodes × Bool
rename old_dir old_name new_dir new_name t = elim (find_child t old_dir old_name) [
  | none ↦ (t, false)
  | some c ↦ elim (find_child t new_dir new_name) [
    | none ↦ move old_dir new_dir c new_name t
    | some e ↦
        if is_kept (t e)
        then (t, false)
        else move old_dir new_dir c new_name (or_same t (remove_child new_dir e t))
  ]
]
