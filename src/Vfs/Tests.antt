-- ===== src/Vfs/Tests.antt =====
-- The theorems about the file system in memory at concrete inputs.
use utms.Base.{some, ℕ, ◌≡◌}
use utms.Vfs.Mount.{skip_slashes}
use utms.Vfs.Dir.{find_child, find_named, same_name}
use utms.Vfs.Path.{Driver, walk, split_name, step}
use utms.Vfs.Path.Names.{names}
use utms.Vfs.Path.Along.{Along, walk-Along}
use utms.Base.{List, some, ◌==◌, refl, true, [], ◌∷◌, if◌then◌else◌, arith}
use utms.Vfs.Mount.{Mount, find_mount}
use utms.Vfs.Mount.Longest.{Found, find_mount-Found}
use utms.Vfs.File.{File, write}
use utms.Vfs.File.Contents.{FileOk, Wrote}
use utms.Vfs.File.Outcome.{write-Wrote}
use utms.Vfs.Dir.{Nodes, create_node, file, dir, rename, find_named, remove, same_name}
use utms.Vfs.Dir.Rename.{Once, here, there, Lost, rename-Lost}

-- A file of three bytes in a block of four.
abbrev small : File
small = record { size = 3; capacity = 4; data_bytes = 10 ∷ 20 ∷ 30 ∷ 99 ∷ [] }

small-FileOk : FileOk small
small-FileOk = record { block = refl; fits = omega arith }

-- The write leaves a gap and needs a larger block.
write-Wrote_example : Wrote true small 6 (1 ∷ 2 ∷ []) (write true 6 (1 ∷ 2 ∷ []) small)
write-Wrote_example = write-Wrote true 6 (1 ∷ 2 ∷ []) small small-FileOk (omega arith) (omega arith)

-- A directory at 1 with the files "b", at 2, and "a", at 3.
abbrev nodes : Nodes
nodes x =
    if x == 1
    then record (create_node [] dir) { children = 2 ∷ 3 ∷ [] }
    else if x == 2
    then create_node (98 ∷ []) file
    else create_node (97 ∷ []) file

nodes-Once : Once nodes (97 ∷ []) 3 (2 ∷ 3 ∷ [])
unfolding same_name find_named remove
nodes-Once = there 2 (3 ∷ []) refl refl (here [] refl refl refl)

rename-Lost_example : Lost 1 (97 ∷ []) (rename 1 (97 ∷ []) 1 (97 ∷ []) nodes)
rename-Lost_example = rename-Lost nodes 1 3 (97 ∷ []) refl nodes-Once refl

-- "/" and "/a", and the path "/a/b".
abbrev mounts : List Mount
mounts =
    record { path = 47 ∷ []; root = some 1; used = true }
    ∷ record { path = 47 ∷ 97 ∷ []; root = some 2; used = true }
    ∷ []

find_mount-Found_example :
    Found (47 ∷ 97 ∷ 47 ∷ 98 ∷ []) mounts (find_mount (47 ∷ 97 ∷ 47 ∷ 98 ∷ []) mounts)
find_mount-Found_example = find_mount-Found (47 ∷ 97 ∷ 47 ∷ 98 ∷ []) mounts

-- ramfs answers; the path "//b/../b/.", from the directory above.
abbrev driver : Driver
driver = record { lookup = λ a name t. (t, find_child t a name); target = λ a t. [] }

abbrev winding : List ℕ
winding = 47 ∷ 47 ∷ 98 ∷ 47 ∷ 46 ∷ 46 ∷ 47 ∷ 98 ∷ 47 ∷ 46 ∷ []

walk-Along_example : Along driver 1 (names winding) nodes (walk 10 driver 1 winding nodes)
walk-Along_example = walk-Along 10 driver 1 winding nodes (omega arith)

-- The path "//b/." leads to the file.
leads_to_file : (walk 5 driver 1 (47 ∷ 47 ∷ 98 ∷ 47 ∷ 46 ∷ []) nodes).1 ≡ some 2
unfolding walk split_name step find_child same_name find_named skip_slashes
leads_to_file = refl
