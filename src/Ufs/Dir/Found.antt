-- ===== src/Ufs/Dir/Found.antt =====
-- What ufs_add_to_dir stores is what ufs_find_in_dir finds.
use utms.Ufs.Laws.{FitsDirent, IsWord, IsChar}
use utms.Ufs.Dir.Store.{grown-FitsInode}
use utms.Base.{take-length_le, take, All}
use utms.Ufs.Dir.Place.{Place, not_found, entry-is_named, Entry-Place, Entry-Without}
use utms.Base.{true, ◌<◌}
use mathlib.Core.Path.{subst}
use native.Mathlib.Decide.{dec_lt}
use utms.Ufs.{inode_block, read_inode}
use utms.Ufs.Dir.Store.{inode_after, read_inode-there, add_to_dir-stores, IsDir}
use utms.Ufs.Dir.Scan.{find_entry-Entry, absent, present}
use utms.Ufs.Dir.{add_to_dir, find_entry, find_in_dir}
use mathlib.Core.Path.{ap, ap₂, subst}
use utms.Base.{
  ◌≤◌, ◌⊎◌, inl, inr, false, ◌∙◌, sym, ◌≢◌, ◌+◌, Option, none, elim_some, length, ◌<◌, Bool, true,
  ℕ, ◌≡◌, refl, arith, List, some,
}
use native.Mathlib.Decide.{ℕ_discrete}
use utms.Ufs.Volume.Room.{stored-IsSane}
use utms.Ufs.Laws.{IsLayout}
use utms.Ufs.Dir.Store.{grown, after, dirent_self, dirent_ne, IsDir, read_inode-there}
use utms.Ufs.Dir.{is_free, find_in_dir, is_named, dirent_of, find_entry, blocks_of_size, entry}
use utms.Ufs.{dirents_per_block, Dirent, Inode, Layout, Mount, read_inode}
use utms.Ufs.Extents.{get_block}
use utms.Ufs.Dir.Scan.{Entry, absent, present, Without}
use utms.Ufs.Alloc.Search.{IsSane}

module _ {B : Type 0} ⦃layout : Layout B⦄ where
  -- The scan of the directory with one entry more.
  module _ (lawful : IsLayout layout) (m : Mount B) (ino : ℕ) (dir : Inode) (child type : ℕ)
      (name : List ℕ) (sane : IsSane m) (is_dir : IsDir m ino dir) (short : length name < 56)
      (pos : 0 < child) (word : IsWord child) (kind : type < 256) (chars : All IsChar name)
      (b j : ℕ) where
    abbrev e : Dirent
    e = entry child type name

    abbrev m' : Mount B
    m' = after ino dir (b, j) e m

    m'-IsSane : IsSane m'
    m'-IsSane = stored-IsSane _ _ _ (stored-IsSane m b _ sane)

    abbrev scanned : ℕ
    scanned = blocks_of_size dir.size

    abbrev scanned_now : ℕ
    scanned_now = blocks_of_size (grown dir).size

    scanned-grows : scanned ≤ scanned_now
    scanned-grows = let small = is_dir.small in omega arith

    e-FitsDirent : FitsDirent e
    e-FitsDirent =
        let whole : take 55 name ≡ name = take-length_le 55 name (omega arith) in
        record {
          inode = word;
          type = kind;
          name_len = rw whole (omega arith);
          name = rw whole short;
          chars = rw whole chars;
        }

    at_the_entry :
        (k : ℕ) → b ≡ get_block dir.extents k → j < dirents_per_block → dirent_of m' (b, j) ≡ e
    at_the_entry k same in_block =
        dirent_self lawful m ino dir b j e (λ x. is_dir.apart k (sym same ∙ x)) in_block
          e-FitsDirent

    number_found :
        (k i l : ℕ)
        → j < dirents_per_block
        → b ≡ get_block dir.extents l
        → k < scanned
        → get_block dir.extents k ≢ 0
        → i < dirents_per_block
        → Without (is_named name) m dir 0 (0 + scanned)
        → is_named name (dirent_of m' (get_block dir.extents k, i)) ≡ true
        → (dirent_of m' (get_block dir.extents k, i)).inode ≡ child
    number_found k i l in_block same lt used small without t =
        elim (ℕ_discrete b (get_block dir.extents k)) [
          | no far ↦ absurd (old (inl far))
          | yes near ↦ elim (ℕ_discrete j i) [
            | no far ↦ absurd (old (inr far))
            | yes here ↦
                ap (λ (d : Dirent). d.inode)
                  (ap₂ (λ x y. dirent_of m' (x, y)) (sym near) (sym here)
                    ∙ at_the_entry l same in_block)
          ]
        ]
      where
        old : (b ≢ get_block dir.extents k) ⊎ (j ≢ i) → ⊥
        old far =
            let was = without k i (omega arith) (omega arith) used small in
            let unchanged =
              dirent_ne lawful m ino dir b j e (λ x. is_dir.apart l (sym same ∙ x)) in_block
                e-FitsDirent (get_block dir.extents k) i small (is_dir.apart k) far in
            let now = ap (is_named name) unchanged in clash (sym was ∙ (sym now ∙ t))
          where
            clash : false ≡ true → ⊥
            clash q = cc

    not_both : false ≡ true → ⊥
    not_both q = cc

    named_there :
        (place : Place is_free m dir scanned (b, j))
        → is_named name (dirent_of m' (get_block dir.extents place.index, j)) ≡ true
    named_there place =
        ap (λ x. is_named name (dirent_of m' (x, j))) (sym place.block)
        ∙ (ap (is_named name) (at_the_entry place.index place.block place.in_block)
            ∙ entry-is_named child type name short pos)

    of_scan :
        (r : Option (ℕ × ℕ))
        → Entry (is_named name) m' (grown dir) scanned_now 0 r
        → Place is_free m dir scanned (b, j)
        → Without (is_named name) m dir 0 (0 + scanned)
        → (elim r [ none ↦ none | some at ↦ some (dirent_of m' at).inode ]) ≡ some child
    of_scan none (absent g) place without =
        let range = place.in_range in
        let grows = scanned-grows in
        absurd (
          not_both (
            sym (g place.index j (omega arith) (omega arith) place.used place.in_block)
            ∙ named_there place))
    of_scan (some _) (present k i lo hi used lt t first) place without =
        let range = place.in_range in
        let early : k < scanned = elim (dec_lt place.index k) [
          | yes later ↦ absurd (
              not_both (
                sym (first place.index j (omega arith) later place.used place.in_block)
                ∙ named_there place))
          | no not_later ↦ omega arith
        ] in
        ap some (number_found k i place.index place.in_block place.block early used lt without t)

    found_now :
        Place is_free m dir scanned (b, j)
        → Without (is_named name) m dir 0 (0 + scanned)
        → find_in_dir m' ino name ≡ some child
    unfolding find_in_dir
    found_now place without =
        let entry_block_apart : b ≢ inode_block m ino =
          λ x. is_dir.apart place.index (sym place.block ∙ x) in
        elim_some (λ (r : Option ℕ). r ≡ some child) (read_inode m' ino) _ _
          (read_inode-there m' ino (grown dir) m'-IsSane is_dir.valid is_dir.table (
            inode_after lawful m ino dir b j e entry_block_apart place.in_block e-FitsDirent
              (grown-FitsInode dir is_dir.fits)))
          (of_scan _
            (find_entry-Entry (is_named name) m' (grown dir) scanned_now 0 m'-IsSane is_dir.within)
            place without)

  -- For a lawful layout, on a mount whose device can be read and written, and a directory whose
  -- blocks are apart from its inode's and whose inode fits its structure: if a name of at most 55
  -- characters, none of them NUL, is not found and a place is free, then, for a number that is not 0
  -- and a type that both fit an entry, ufs_add_to_dir gives 0, and ufs_find_in_dir finds the name
  -- with the number that was added.
  pub find_in_dir-add_to_dir :
      (m : Mount B) (ino : ℕ) (dir : Inode) (child type : ℕ) (name : List ℕ) (b j : ℕ)
      → IsLayout layout
      → IsSane m
      → IsDir m ino dir
      → find_in_dir m ino name ≡ none
      → length name < 56
      → 0 < child
      → IsWord child
      → type < 256
      → All IsChar name
      → find_entry is_free m dir (blocks_of_size dir.size) 0 ≡ some (b, j)
      → ((add_to_dir ino child name type m).1 ≡ true)
        × (find_in_dir (add_to_dir ino child name type m).0 ino name ≡ some child)
  find_in_dir-add_to_dir m ino dir child type name b j lawful sane is_dir new short pos word kind
        chars free =
      let n = blocks_of_size dir.size in
      let scan_free = find_entry-Entry is_free m dir n 0 sane is_dir.within in
      let scan_named = find_entry-Entry (is_named name) m dir n 0 sane is_dir.within in
      let place = Entry-Place is_free m dir n _ scan_free (b, j) free in
      let without =
        Entry-Without (is_named name) m dir n _ scan_named
          (not_found m ino dir name sane is_dir new) in
      let in_device : b < m.sb.total_blocks =
        subst (λ x. x < m.sb.total_blocks) (sym place.block) (is_dir.within place.index) in
      subst (λ (r : Mount B × Bool). (r.1 ≡ true) × (find_in_dir r.0 ino name ≡ some child))
        (sym (add_to_dir-stores m ino child type b j name dir sane is_dir free in_device))
        (
          refl,
          found_now lawful m ino dir child type name sane is_dir short pos word kind chars b j place
              without,
        )
