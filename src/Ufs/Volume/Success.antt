-- ===== src/Ufs/Volume/Success.antt =====
-- ufs_vfs_format as a whole, on a device that can be read and written.
use utms.Base.{if_cases}
use utms.Ufs.{block_size}
use utms.Ufs.Volume.Made.{finished-Formatted}
use utms.Ufs.Volume.{format}
use utms.Ufs.Alloc.{alloc_block}
use utms.Ufs.Volume.Sealed.{alloc_block-Keeps}
use utms.Ufs.Alloc.Outcome.{alloc_block-Allocated}
use mathlib.Core.Path.{subst}
use utms.Base.{sym, u32, ltb}
use utms.Base.Bits.{pow-pos}
use utms.Base.{◌<◌, ◌==◌, if◌then◌else◌, false, ◌≤◌, ◌^◌}
use utms.Ufs.Volume.Sealed.{Keeps}
use utms.Ufs.Volume.Made.{Ready, Formatted, finished, write_inode-root, with_root}
use utms.Ufs.Alloc.Fresh.{Allocated, full, given}
use utms.Ufs.Volume.{magic_number, seal, root_of}
use utms.Ufs.{write_inode}
use utms.Ufs.Alloc.Search.{write_block-stored}
use utms.Base.Bits.{pow-pos}
use utms.Base.{◌<◌, ◌==◌, if◌then◌else◌, false, ◌≤◌}
use utms.Ufs.Volume.Sealed.{Keeps}
use utms.Ufs.Volume.Made.{Ready, Formatted, finished, write_inode-root, with_root}
use utms.Ufs.Alloc.Fresh.{Allocated, full, given}
use utms.Ufs.Volume.{magic_number, seal, root_of}
use utms.Ufs.{write_inode}
use utms.Ufs.Alloc.Search.{write_block-stored}
use utms.Base.{
  ℕ, ◌^◌, ◌<◌, ◌≤◌, ◌≡◌, ◌==◌, ltb, u32, if◌then◌else◌, sym, Bool, true, false, if_cases,
}
use mathlib.Core.Path.{subst}
use utms.Ufs.{Layout, Mount, block_size, write_block, write_inode}
use utms.Ufs.Laws.{IsLayout}
use utms.Ufs.Calls.{dots}
use utms.Ufs.Alloc.{alloc_block}
use utms.Ufs.Alloc.Search.{write_block-stored}
use utms.Ufs.Alloc.Fresh.{Allocated, full, given}
use utms.Ufs.Alloc.Outcome.{alloc_block-Allocated}
use utms.Ufs.Volume.{
  magic_number, format, seal, clear_blocks, mark_blocks, blank, new_superblock, root_of,
}
use utms.Ufs.Volume.Sealed.{Keeps, alloc_block-Keeps}
use utms.Ufs.Volume.Made.{
  Formatted, Ready, with_root, finished, finished-Formatted, write_inode-root,
}

module _ {B : Type 0} ⦃layout : Layout B⦄ where
  -- The steps of ufs_vfs_format behind the allocation of the root's block.
  abbrev rest : ℕ → Mount B × ℕ → Mount B × Bool
  rest now r =
      let (m2, kept) = write_inode 1 (root_of now r.1) r.0 in
      let (m3, stored) = write_block r.1 (dots 1 1) m2 in
      if r.1 == 0 then (r.0, false) else if stored then (seal m3, true) else (m3, false)

module _ {B : Type 0} ⦃layout : Layout B⦄ (lawful : IsLayout layout) (total : ℕ) (device : ℕ → B)
    (readable writable : ℕ → Bool) (reads : (b : ℕ) → readable b ≡ true)
    (writes : (b : ℕ) → writable b ≡ true) (small : total ≤ 2147483648)
    (room : (new_superblock total).data_start < total) where
  abbrev start : Mount B
  start = blank total device readable writable

  abbrev ends : ℕ
  ends = (new_superblock total).data_start

  abbrev cleared : Mount B
  cleared = clear_blocks ends 0 start

  abbrev ready : Mount B
  ready = mark_blocks ends 0 cleared
