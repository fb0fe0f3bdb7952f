-- ===== src/Ufs/Dir/Store.antt =====
-- A directory on a mount, and the stores of ufs_add_to_dir where it has a free place.
use utms.Ufs.Laws.{FitsDirent, FitsInode}
use utms.Ufs.{dirents_per_block}
use utms.Base.{◌≢◌, ◌+◌}
use utms.Ufs.Extents.{get_block}
use utms.Base.{
  elim_some, ◌<◌, Bool, ◌⊎◌, inl, inr, u32, true, ◌∙◌, ◌≢◌, ℕ, ◌+◌, ◌≡◌, ap, arith, List, some,
}
use native.Mathlib.Decide.{ℕ_discrete}
use utms.Ufs.Dir.{dirent_of, add_to_dir, find_entry, is_free, blocks_of_size, entry}
use utms.Ufs.{
  dirent_size, Dirent, Inode, Layout, Mount, read_inode, write_inode, inode_block, inode_slot,
  is_inode,
}
use utms.Ufs.Volume.Room.{stored-IsSane}
use utms.Ufs.Laws.{IsLayout}
use utms.Ufs.Extents.{get_block}
use utms.Ufs.Alloc.Search.{IsSane, stored, read_block-some, write_block-stored}

module _ {B : Type 0} ⦃layout : Layout B⦄ where
  -- A directory on a mount: its inode is in the table, and its blocks are neither the table's block
  -- nor outside the device.
  pub record IsDir (m : Mount B) (ino : ℕ) (dir : Inode) : Type 0 where
    pub valid : is_inode m ino ≡ true
    pub table : inode_block m ino < m.sb.total_blocks
    pub stored_there : layout.inode_at (inode_slot ino) (m.device (inode_block m ino)) ≡ dir
    pub within : (k : ℕ) → get_block dir.extents k < m.sb.total_blocks
    pub apart : (k : ℕ) → get_block dir.extents k ≢ inode_block m ino
    pub small : dir.size + 4159 < 4294967296
    pub fits : FitsInode dir

  pub read_inode-there :
      (m : Mount B) (ino : ℕ) (dir : Inode)
      → IsSane m
      → is_inode m ino ≡ true
      → inode_block m ino < m.sb.total_blocks
      → layout.inode_at (inode_slot ino) (m.device (inode_block m ino)) ≡ dir
      → read_inode m ino ≡ some dir
  unfolding read_inode
  read_inode-there m ino dir sane valid lt e =
      rw (valid, read_block-some m (inode_block m ino) sane lt) (ap some e)

  write_inode-there :
      (m : Mount B) (ino : ℕ) (dir : Inode)
      → IsSane m
      → is_inode m ino ≡ true
      → inode_block m ino < m.sb.total_blocks
      → write_inode ino dir m ≡ (
        stored
            (inode_block m ino)
            (layout.put_inode (inode_slot ino) dir (m.device (inode_block m ino)))
            m,
        true,
      )
  unfolding write_inode
  write_inode-there m ino dir sane valid lt =
      rw (valid, read_block-some m (inode_block m ino) sane lt)
        (write_block-stored m (inode_block m ino) _ (sane.writes _) lt)

-- A directory with one entry more.
abbrev pub grown : Inode → Inode
grown dir = record dir { size = u32 (dir.size + dirent_size) }

pub grown-FitsInode : (dir : Inode) → FitsInode dir → FitsInode (grown dir)
grown-FitsInode dir f = record {
  mode = f.mode;
  nlink = f.nlink;
  size = omega arith;
  blocks = f.blocks;
  atime = f.atime;
  mtime = f.mtime;
  ctime = f.ctime;
  eight = f.eight;
  extents = f.extents;
}

module _ {B : Type 0} ⦃layout : Layout B⦄ where
  -- The entry is stored, then the inode.
  abbrev pub placed : ℕ × ℕ → Dirent → Mount B → Mount B
  placed (b, j) e m = stored b (layout.put_dirent j e (m.device b)) m

  abbrev pub after : ℕ → Inode → ℕ × ℕ → Dirent → Mount B → Mount B
  after ino dir at e m =
      let n = placed at e m in
      let block = n.device (inode_block m ino) in
      stored (inode_block m ino) (layout.put_inode (inode_slot ino) (grown dir) block) n

  pub add_to_dir-stores :
      (m : Mount B) (ino child type b j : ℕ) (name : List ℕ) (dir : Inode)
      → IsSane m
      → IsDir m ino dir
      → find_entry is_free m dir (blocks_of_size dir.size) 0 ≡ some (b, j)
      → b < m.sb.total_blocks
      → add_to_dir ino child name type m ≡ (after ino dir (b, j) (entry child type name) m, true)
  unfolding add_to_dir
  add_to_dir-stores m ino child type b j name dir sane is_dir found lt =
      let e = entry child type name in
      let done : Mount B × Bool = (after ino dir (b, j) e m, true) in
      let P : Mount B × Bool → Type 0 = λ r. r ≡ done in
      elim_some P (read_inode m ino) _ _
        (read_inode-there m ino dir sane is_dir.valid is_dir.table is_dir.stored_there)
        (elim_some P (find_entry is_free m dir (blocks_of_size dir.size) 0) _ _ found (
          ap (λ (n : Mount B). ((write_inode ino (grown dir) n).0, true))
            (ap (λ (r : Mount B × Bool). r.0)
              (write_block-stored m b (layout.put_dirent j e (m.device b)) (sane.writes b) lt))
          ∙ ap (λ (r : Mount B × Bool). (r.0, true))
              (write_inode-there (placed (b, j) e m) ino (grown dir) (stored-IsSane m b _ sane)
                is_dir.valid is_dir.table)))

  module _ (lawful : IsLayout layout) (m : Mount B) (ino : ℕ) (dir : Inode) (b j : ℕ) (e : Dirent)
      (other : b ≢ inode_block m ino) (in_block : j < dirents_per_block) (fits : FitsDirent e) where
    pub dirent_self : dirent_of (after ino dir (b, j) e m) (b, j) ≡ e
    dirent_self =
        let block = layout.put_dirent j e (m.device b) in
        ap (layout.dirent_at j) {x = (after ino dir (b, j) e m).device b} {y = block} (ground arith)
        ∙ lawful.dirent_self j e (m.device b) in_block fits

    pub dirent_ne :
        (a i : ℕ)
        → i < dirents_per_block
        → a ≢ inode_block m ino
        → (b ≢ a) ⊎ (j ≢ i)
        → dirent_of (after ino dir (b, j) e m) (a, i) ≡ dirent_of m (a, i)
    dirent_ne a i within apart (inl ne) =
        ap (layout.dirent_at i) {x = (after ino dir (b, j) e m).device a} {y = m.device a}
          (ground arith)
    dirent_ne a i within apart (inr ne) = elim (ℕ_discrete b a) [
      | no far ↦
          ap (layout.dirent_at i) {x = (after ino dir (b, j) e m).device a} {y = m.device a}
            (ground arith)
      | yes here ↦
          let block = layout.put_dirent j e (m.device b) in
          ap (layout.dirent_at i) {x = (after ino dir (b, j) e m).device a} {y = block}
            (ground arith)
          ∙ (lawful.dirent_ne j i e (m.device b) in_block within ne fits
              ∙ ap (λ c. layout.dirent_at i (m.device c)) here)
    ]

    -- The inode is read again.
    pub inode_after :
        FitsInode (grown dir)
        → layout.inode_at (inode_slot ino) ((after ino dir (b, j) e m).device (inode_block m ino))
          ≡ grown dir
    inode_after small =
        let block = (placed (b, j) e m).device (inode_block m ino) in
        ap (layout.inode_at (inode_slot ino))
          {x = (after ino dir (b, j) e m).device (inode_block m ino)}
          {y = layout.put_inode (inode_slot ino) (grown dir) block} (ground arith)
        ∙ lawful.inode_self (inode_slot ino) (grown dir) block (omega arith) small
