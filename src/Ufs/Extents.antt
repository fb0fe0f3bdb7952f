-- ===== src/Ufs/Extents.antt =====
-- The extents of a file: ufs_get_block and ufs_append_block.
pub mod Insert
use utms.Base.{ℕ, ◌+◌, ◌-◌, ◌==◌, if◌then◌else◌, List, [], ◌∷◌, Option, none, some, ltb, u32}
use utms.Ufs.{Extent}

-- `ufs_get_block`: the block of an index, 0 where there is none.
unfoldable pub get_block : List Extent → ℕ → ℕ
get_block [] idx = 0
get_block (e ∷ es) idx =
    let later = get_block es (idx - e.len) in
    if e.len == 0 then 0 else if ltb idx e.len then u32 (e.start + idx) else later

-- `ufs_append_block`; `none` is -1.
unfoldable pub append_block : List Extent → ℕ → Option (List Extent)
append_block [] b = none
append_block (e ∷ es) b =
    let later = append_block es b in
    if e.len == 0
    then some (record { start = b; len = 1 } ∷ es)
    else if u32 (e.start + e.len) == b
    then some (record e { len = u32 (e.len + 1) } ∷ es)
    else elim later [ none ↦ none | some rest ↦ some (e ∷ rest) ]
