-- ===== src/Vfs/Mount.antt =====
-- The table of mounts of kernel/core/vfs.c and find_mount. A path is its characters, without the
-- NUL at the end.
pub mod Longest
use utms.Base.{
  ℕ, zero, suc, ◌+◌, Bool, true, false, ◌&&◌, ◌||◌, List, [], ◌∷◌, Option, none, some,
  if◌then◌else◌, ◌==◌, ltb, length, get_or, drop,
}

-- `vfs_mount_t`; the root is the address of its node.
pub record Mount : Type 0 where
  pub path : List ℕ
  pub root : Option ℕ
  pub used : Bool

-- `strncmp(path, prefix, strlen(prefix)) == 0`
unfoldable pub is_prefix : List ℕ → List ℕ → Bool
is_prefix [] path = true
is_prefix (x ∷ xs) [] = false
is_prefix (x ∷ xs) (y ∷ ys) = (x == y) && is_prefix xs ys

abbrev pub slash : ℕ
slash = 47

-- The mount is used, and the path lies below its own.
unfoldable pub covers : List ℕ → Mount → Bool
covers path m =
    let next = get_or path (length m.path) 0 in
    (m.used && is_prefix m.path path) && ((next == 0) || ((next == slash) || (length m.path == 1)))

-- The loop over the table from index `i` on, with `best` and `best_len`.
unfoldable pub best_from : List ℕ → List Mount → ℕ → Option ℕ → ℕ → Option ℕ × ℕ
best_from path [] i best best_len = (best, best_len)
best_from path (m ∷ ms) i best best_len =
    let better = covers path m && ltb best_len (length m.path) in
    best_from path ms (suc i) (if better then some i else best)
      (if better then length m.path else best_len)

unfoldable pub skip_slashes : List ℕ → List ℕ
skip_slashes [] = []
skip_slashes (x ∷ xs) = let later = skip_slashes xs in if x == slash then later else x ∷ xs

-- `find_mount`: the index of the mount, and the rest of the path.
unfoldable pub find_mount : List ℕ → List Mount → Option (ℕ × List ℕ)
unfolding best_from skip_slashes
find_mount path mounts =
    let (best, best_len) = best_from path mounts 0 none 0 in
    elim best [ none ↦ none | some i ↦ some (i, skip_slashes (drop best_len path)) ]
