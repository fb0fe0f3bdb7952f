-- ===== src/Vfs/Path.antt =====
-- Path resolution in kernel/core/vfs.c: resolve_path_internal. What a file system answers is an
-- argument, since each has its own functions. A path is its characters.
pub mod Names
pub mod Along
use utms.Base.{
  ℕ, zero, suc, Bool, true, false, not, ◌&&◌, List, [], ◌∷◌, Option, none, some, if◌then◌else◌,
  ◌==◌, length, get_or, take,
}
use utms.Vfs.Dir.{Node, Nodes, is_dir, is_symlink, same_name}
use utms.Vfs.Mount.{Mount, slash, find_mount, skip_slashes}

-- The answers of the file systems: `fs->lookup` (`none` is a failure), and what `fs->readlink`
-- leaves in the buffer.
pub record Driver : Type 0 where
  pub lookup : ℕ → List ℕ → Nodes → Nodes × Option ℕ
  pub target : ℕ → Nodes → List ℕ

-- The characters up to the next slash, and the rest from that slash on.
unfoldable pub split_name : List ℕ → List ℕ × List ℕ
split_name [] = ([], [])
split_name (x ∷ xs) =
    let (name, rest) = split_name xs in if x == slash then ([], x ∷ xs) else (x ∷ name, rest)

-- `.` and `..`
abbrev pub dot : List ℕ
dot = 46 ∷ []

abbrev pub dot_dot : List ℕ
dot_dot = 46 ∷ 46 ∷ []

-- The parent of a node; the node itself where it has none.
abbrev pub above : Nodes → ℕ → ℕ
above t a = elim (t a).parent [ none ↦ a | some b ↦ b ]

-- What a name does to the node that is reached; `none` ends the walk without a node.
unfoldable pub step : Driver → ℕ → List ℕ → Nodes → Nodes × Option ℕ
step d a name t =
    if same_name name dot
    then (t, some a)
    else if same_name name dot_dot
    then (t, some (above t a))
    else if is_dir (t a).type
    then d.lookup a name t
    else (t, none)

-- The loop over the characters of a path. Each round takes one at least, so `length path` rounds
-- are enough.
unfoldable pub walk : ℕ → Driver → ℕ → List ℕ → Nodes → Nodes × Option ℕ
unfolding skip_slashes split_name step
walk zero d a path t = (t, some a)
walk (suc rounds) d a path t =
    let at_name = skip_slashes path in
    let (name, rest) = split_name at_name in
    let (t', next) = step d a name t in
    let done : Nodes × Option ℕ = elim next [
      | none ↦ (t', none)
      | some b ↦ walk rounds d b rest t'
    ] in
    if length at_name == 0 then (t, some a) else done

-- `resolve_path_internal` once vfs_ready is set, with the number of links that may still be
-- followed, 8 at first, plus 1. The rest of the path is copied into 1024 bytes.
unfoldable pub resolve : ℕ → Driver → List Mount → Option ℕ → List ℕ → Nodes → Nodes × Option ℕ
unfolding find_mount walk
resolve zero d mounts root path t = (t, none)
resolve (suc left) d mounts root path t =
    let found : Nodes × Option ℕ = elim (find_mount path mounts) [
      | none ↦ (t, none)
      | some (i, rest) ↦
          elim (get_or mounts i (record { path = []; root = none; used = false })).root [
            | none ↦ (t, none)
            | some a ↦
                let link = d.target a t in
                let there = resolve left d mounts root link t in
                let short = take 1023 rest in
                if is_symlink (t a).type && (get_or link 0 0 == slash)
                then there
                else walk (length short) d a short t
          ]
    ] in
    if length path == 0 then (t, root) else if get_or path 0 0 == slash then found else (t, none)
