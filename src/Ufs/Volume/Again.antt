-- ===== src/Ufs/Volume/Again.antt =====
-- What the last step of ufs_vfs_format leaves is mounted by ufs_vfs_mount.
use utms.Base.{All}
use utms.Ufs.{sb_words}
use utms.Ufs.Laws.{IsWord}
use utms.Ufs.Volume.Sealed.{sealed-FitsSuperblock}
use utms.Base.{◌-◌}
use utms.Base.{◌<◌, ◌≡◌, arith, true, inr}
use utms.Ufs.{Layout, Mount, write_block}
use utms.Ufs.Laws.{IsLayout}
use utms.Ufs.Alloc.Search.{stored}
use utms.Ufs.Volume.{magic_number, inode_count, fresh_mount, mount, seal}
use utms.Ufs.Volume.Sealed.{sealed, mount-sealed}

module _ {B : Type 0} ⦃layout : Layout B⦄ (lawful : IsLayout layout) where
  pub seal-stores :
      (m : Mount B)
      → m.writable 0 ≡ true
      → 0 < m.sb.total_blocks
      → seal m ≡ (
          let sb = record m.sb { free_inodes = inode_count - 1 } in
          record (stored 0 (layout.put_superblock (sealed sb) layout.cleared) m) { sb = sealed sb })
  unfolding seal write_block
  seal-stores m w pos = ground arith

  pub mount-seal :
      (m : Mount B)
      → m.sb.magic ≡ magic_number
      → m.readable 0 ≡ true
      → m.writable 0 ≡ true
      → 0 < m.sb.total_blocks
      → All IsWord (sb_words m.sb)
      → mount (seal m).device m.readable m.writable
        ≡ inr (fresh_mount (seal m).sb (seal m).device m.readable m.writable)
  mount-seal m magic r w pos (a, (b, (c, (d, (e, (f, words)))))) =
      let sb = record m.sb { free_inodes = inode_count - 1 } in
      rw (seal-stores m w pos) (
        mount-sealed _ m.readable m.writable sb magic r (
          lawful.superblock_self (sealed sb) layout.cleared
            (sealed-FitsSuperblock sb (a, (b, (c, (d, (e, (omega arith, words)))))))))
