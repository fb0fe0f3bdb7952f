-- ===== src/Vfs/Table.antt =====
-- The table of mounts in kernel/core/vfs.c: vfs_mount_fs, vfs_unmount, vfs_is_mounted, and
-- vfs_resolve_path with the current directory and the root of a process. The root that a file
-- system gives for a device is an argument; a node that a file system is told to unmount is a
-- result.
use utms.Base.{◌-◌, suc}
use utms.Base.{
  ℕ, suc, Bool, true, false, not, ◌&&◌, ◌||◌, List, [], ◌∷◌, ◌++◌, Option, none, some,
  if◌then◌else◌, ◌==◌, length, get_or, set, take,
}
use utms.Vfs.Dir.{Nodes, same_name, max_name}
use utms.Vfs.Mount.{Mount, slash}
use utms.Vfs.Path.{Driver, resolve}

-- `mounts` and `root_node`.
pub record Table : Type 0 where
  pub mounts : List Mount
  pub root_node : Option ℕ

abbrev pub slash_path : List ℕ
slash_path = slash ∷ []

-- `strncpy` and `snprintf` into a buffer of 1024 bytes.
abbrev pub in_buffer : List ℕ → List ℕ
in_buffer s = take 1023 s

abbrev pub empty_mount : Mount
empty_mount = record { path = []; root = none; used = false }

-- `make_absolute_path`, with the current directory.
unfoldable pub make_absolute_path : List ℕ → List ℕ → List ℕ
make_absolute_path cwd path =
    let from_root = (length cwd == 0) || same_name cwd slash_path in
    if get_or path 0 0 == slash
    then in_buffer path
    else if from_root
    then in_buffer (slash ∷ path)
    else in_buffer (cwd ++ (slash ∷ path))

-- `vfs_resolve_path`, with the root directory of the process (`none` where it has none).
unfoldable pub resolve_path :
    Driver → List ℕ → Option (List ℕ) → Table → List ℕ → Nodes → Nodes × Option ℕ
unfolding make_absolute_path resolve
resolve_path d cwd chroot table path t =
    let resolved = make_absolute_path cwd path in
    let inside = λ (root : List ℕ).
      if same_name resolved slash_path then in_buffer root else in_buffer (root ++ resolved) in
    let final : List ℕ = elim chroot [
      | none ↦ resolved
      | some root ↦
          if ((length root == 0) || same_name root slash_path) || not (get_or resolved 0 0 == slash)
          then resolved
          else inside root
    ] in
    resolve 9 d table.mounts table.root_node final t

abbrev pub is_at : List ℕ → Mount → Bool
is_at path m = m.used && same_name m.path path

-- The last mount at a path, from index `i` on, and the first unused slot.
unfoldable pub last_at : List ℕ → List Mount → ℕ → Option ℕ
last_at path [] i = none
last_at path (m ∷ ms) i =
    let later = last_at path ms (suc i) in
    elim later [ none ↦ if is_at path m then some i else none | some j ↦ some j ]

unfoldable pub first_unused : List Mount → ℕ → Option ℕ
first_unused [] i = none
first_unused (m ∷ ms) i = let later = first_unused ms (suc i) in if m.used then later else some i

abbrev pub new_mount : List ℕ → ℕ → Mount
new_mount path fs_root = record {
  path = take (max_name - 1) path;
  root = some fs_root;
  used = true;
}

-- The stores of vfs_mount_fs into a slot.
abbrev pub fill_slot : ℕ → List ℕ → ℕ → Table → Table
fill_slot i path fs_root table = record {
  mounts = set table.mounts i (new_mount path fs_root);
  root_node = if same_name path slash_path then some fs_root else table.root_node;
}

-- `vfs_mount_fs`, once the file system has given a root: the table, the root that is unmounted
-- (where its file system can), and whether it gives 0.
unfoldable pub mount_fs : List ℕ → ℕ → Table → Table × Option ℕ × Bool
unfolding last_at first_unused
mount_fs path fs_root table = elim (last_at path table.mounts 0) [
  | some i ↦ (fill_slot i path fs_root table, (get_or table.mounts i empty_mount).root, true)
  | none ↦ elim (first_unused table.mounts 0) [
    | some i ↦ (fill_slot i path fs_root table, none, true)
    | none ↦ (table, some fs_root, false)
  ]
]

unfoldable pub first_at : List ℕ → List Mount → Option ℕ
first_at path [] = none
first_at path (m ∷ ms) = let later = first_at path ms in if is_at path m then m.root else later

-- `vfs_unmount`: the same results.
unfoldable pub unmount : List ℕ → Table → Table × Option ℕ × Bool
unfolding last_at first_at
unmount path table = elim (last_at path table.mounts 0) [
  | none ↦ (table, none, false)
  | some i ↦
      let mounts = set table.mounts i empty_mount in
      (
        record {
          mounts = mounts;
          root_node =
              if same_name path slash_path then first_at slash_path mounts else table.root_node;
        },
        (get_or table.mounts i empty_mount).root,
        true,
      )
]

-- `vfs_is_mounted`
unfoldable pub is_mounted : List ℕ → List Mount → Bool
is_mounted path [] = false
is_mounted path (m ∷ ms) = is_at path m || is_mounted path ms
