-- ===== src/Ufs/Volume/Made.antt =====
-- A file system that ufs_vfs_format makes.
use utms.Base.{All}
use utms.Ufs.{sb_words}
use utms.Ufs.Laws.{IsWord, FitsInode, FitsExtent}
use utms.Base.{◌≤◌}
use utms.Base.{◌-◌, Option, some, sym}
use mathlib.Core.Path.{subst}
use utms.Ufs.Volume.{inode_count}
use utms.Ufs.Volume.Sealed.{sealed}
use utms.Ufs.{read_inode}
use utms.Ufs.Volume.Again.{mount-seal}
use utms.Base.{◌<◌, if_cases}
use utms.Ufs.Alloc.Search.{read_block-some, write_block-stored, stored}
use utms.Ufs.Volume.{seal}
use utms.Ufs.Volume.Again.{seal-stores}
use utms.Ufs.{inode_block, is_inode, write_inode}
use utms.Base.{ℕ, ◌-◌, ◌<◌, ◌≤◌, ◌≡◌, refl, sym, ap, arith, Bool, true, inr, if_cases, Option, some}
use mathlib.Core.Path.{subst}
use utms.Ufs.{Inode, Layout, Mount, read_inode, write_inode, inode_block, is_inode}
use utms.Ufs.Laws.{IsLayout}
use utms.Ufs.Calls.{dots}
use utms.Ufs.Alloc.Search.{IsSane, stored, read_block-some, write_block-stored}
use utms.Ufs.Volume.{magic_number, inode_count, fresh_mount, mount, seal, root_of}
use utms.Ufs.Volume.Again.{seal-stores, mount-seal}

module _ {B : Type 0} ⦃layout : Layout B⦄ where
  -- A file system of so many blocks that is mounted again, and whose root is a directory in a block
  -- of the data, with its two entries.
  pub record Formatted (now total : ℕ) (r : Mount B × Bool) : Type 0 where
    pub done : r.1 ≡ true
    pub blocks : r.0.sb.total_blocks ≡ total
    pub mounts :
        mount r.0.device r.0.readable r.0.writable
        ≡ inr (fresh_mount r.0.sb r.0.device r.0.readable r.0.writable)
    pub root_block : ℕ
    pub in_data : (r.0.sb.data_start ≤ root_block) × (root_block < total)
    pub root : read_inode r.0 1 ≡ some (root_of now root_block)
    pub entries : r.0.device root_block ≡ dots 1 1

  -- What the last steps need of the mount.
  pub record Ready (m : Mount B) (b : ℕ) : Type 0 where
    pub sane : IsSane m
    pub magic : m.sb.magic ≡ magic_number
    pub table : (0 < m.sb.inode_table_start) × (m.sb.inode_table_start < m.sb.data_start)
    pub inodes : 0 < m.sb.inode_count
    pub in_data : (m.sb.data_start ≤ b) × (b < m.sb.total_blocks)
    pub words : All IsWord (sb_words m.sb)

  abbrev pub with_root : ℕ → ℕ → Mount B → Mount B
  with_root now b m =
      stored (inode_block m 1) (layout.put_inode 0 (root_of now b) (m.device (inode_block m 1))) m

  -- The mount after the stores of the root.
  abbrev pub with_entries : ℕ → ℕ → Mount B → Mount B
  with_entries now b m = stored b (dots 1 1) (with_root now b m)

  abbrev pub finished : ℕ → ℕ → Mount B → Mount B
  finished now b m = seal (with_entries now b m)

module _ {B : Type 0} ⦃layout : Layout B⦄ (lawful : IsLayout layout) where
  root_of-FitsInode : (now b : ℕ) → IsWord now → IsWord b → FitsInode (root_of now b)
  root_of-FitsInode now b time word =
      let none : FitsExtent (record { start = 0; len = 0 }) = (omega arith, omega arith) in
      record {
        mode = omega arith;
        nlink = omega arith;
        size = omega arith;
        blocks = omega arith;
        atime = time;
        mtime = time;
        ctime = time;
        eight = refl;
        extents = ((word, omega arith), (none, (none, (none, (none, (none, (none, (none, tt))))))));
      }

  pub write_inode-root :
      (now b : ℕ) (m : Mount B)
      → Ready m b
      → write_inode 1 (root_of now b) m ≡ (with_root now b m, true)
  unfolding write_inode
  write_inode-root now b m ready =
      let sane = ready.sane in
      let within = sane.within in
      let inodes = ready.inodes in
      let (behind, before) = ready.table in
      if_cases (λ (r : Mount B × Bool). r ≡ (with_root now b m, true)) (is_inode m 1)
        (λ t.
          rw (read_block-some m (inode_block m 1) sane (omega arith))
            (write_block-stored m (inode_block m 1) _ (sane.writes _) (omega arith)))
        (λ t. absurd (ground arith))

  -- What the last step stores.
  abbrev sealed_with : ℕ → ℕ → Mount B → Mount B
  sealed_with now b m =
      let sb = record m.sb { free_inodes = inode_count - 1 } in
      record (stored 0 (layout.put_superblock (sealed sb) layout.cleared) (with_entries now b m)) {
        sb = sealed sb;
      }

  finished-stores : (now b : ℕ) (m : Mount B) → Ready m b → finished now b m ≡ sealed_with now b m
  finished-stores now b m ready =
      let sane = ready.sane in
      let (lo, lt) = ready.in_data in
      seal-stores lawful (with_entries now b m) (sane.writes 0) (omega arith)

  read_inode-stored :
      (inode : Inode) (block : B) (n : Mount B)
      → FitsInode inode
      → IsSane n
      → 0 < n.sb.inode_count
      → n.sb.inode_table_start < n.sb.total_blocks
      → n.device (inode_block n 1) ≡ layout.put_inode 0 inode block
      → read_inode n 1 ≡ some inode
  unfolding read_inode
  read_inode-stored inode block n fits sane inodes lt e =
      if_cases (λ (r : Option Inode). r ≡ some inode) (is_inode n 1)
        (λ t.
          rw (read_block-some n (inode_block n 1) sane (omega arith), e)
            (ap some (lawful.inode_self 0 inode block (omega arith) fits)))
        (λ t. absurd (ground arith))

  sealed_with-IsSane : (now b : ℕ) (m : Mount B) → IsSane m → IsSane (sealed_with now b m)
  sealed_with-IsSane now b m sane = record {
    reads = sane.reads;
    writes = sane.writes;
    small = sane.small;
    within = sane.within;
    start = sane.start;
    behind_superblock = sane.behind_superblock;
    before_data = sane.before_data;
  }

  pub finished-Formatted :
      (now b : ℕ) (m : Mount B)
      → IsWord now
      → Ready m b
      → Formatted now m.sb.total_blocks (finished now b m, true)
  finished-Formatted now b m time ready =
      let sane = ready.sane in
      let within = sane.within in
      let (lo, lt) = ready.in_data in
      let (behind, before) = ready.table in
      let last : finished now b m ≡ sealed_with now b m = finished-stores now b m ready in
      let mounted =
        mount-seal lawful (with_entries now b m) ready.magic (sane.reads 0) (sane.writes 0)
          (omega arith) ready.words in
      subst (λ (n : Mount B). Formatted now m.sb.total_blocks (n, true)) (sym last)
        (record {
          done = refl;
          blocks = refl;
          mounts = rw last at mounted;
          root_block = b;
          in_data = (lo, lt);
          root =
              read_inode-stored (root_of now b) (m.device (inode_block m 1)) (sealed_with now b m)
                (root_of-FitsInode now b time (omega arith)) (sealed_with-IsSane now b m sane)
                ready.inodes (omega arith) (ground arith);
          entries = ground arith;
        })
