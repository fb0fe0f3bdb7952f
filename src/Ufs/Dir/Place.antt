-- ===== src/Ufs/Dir/Place.antt =====
-- A place that a scan has found, and names that none has.
use utms.Base.{true, ◌<◌}
use mathlib.Core.Path.{subst}
use utms.Ufs.{read_inode}
use utms.Ufs.Dir.Store.{read_inode-there, IsDir}
use utms.Ufs.Dir.Scan.{absent, present}
use utms.Ufs.Dir.{find_entry, find_in_dir}
use mathlib.Core.Path.{subst}
use utms.Base.{
  ◌∙◌, sym, take, take-length_le, ◌≢◌, ◌+◌, Option, none, elim_some, length, ◌<◌, Bool, true, ℕ,
  ◌≡◌, refl, arith, List, [], ◌∷◌, some,
}
use utms.Ufs.Dir.Store.{IsDir, read_inode-there}
use utms.Ufs.Dir.{find_in_dir, is_named, dirent_of, find_entry, blocks_of_size, entry}
use utms.Ufs.{dirents_per_block, Dirent, Inode, Layout, Mount, read_inode}
use utms.Ufs.Extents.{get_block}
use mathlib.Core.Option.{some_inj}
use utms.Ufs.Dir.Scan.{Entry, absent, present, Without}
use utms.Vfs.Dir.{same_name}
use utms.Ufs.Alloc.Search.{IsSane}

same_name_refl : (s : List ℕ) → same_name s s ≡ true
unfolding same_name
same_name_refl [] = refl
same_name_refl (c ∷ s) = let rest = same_name_refl s in ground arith

pub entry-is_named :
    (child type : ℕ) (name : List ℕ)
    → length name < 56
    → 0 < child
    → is_named name (entry child type name) ≡ true
entry-is_named child type name short pos =
    let whole : take 55 name ≡ name = take-length_le 55 name (omega arith) in
    let same = same_name_refl name in rw (whole, same) (ground arith)

module _ {B : Type 0} ⦃layout : Layout B⦄ where
  -- A name that is not found is at no place of the blocks.
  pub not_found :
      (m : Mount B) (ino : ℕ) (dir : Inode) (name : List ℕ)
      → IsSane m
      → IsDir m ino dir
      → find_in_dir m ino name ≡ none
      → find_entry (is_named name) m dir (blocks_of_size dir.size) 0 ≡ none
  unfolding find_in_dir
  not_found m ino dir name sane is_dir e =
      some_none (find_entry (is_named name) m dir (blocks_of_size dir.size) 0) (
        sym (
          elim_some
            (λ (r : Option ℕ).
              r ≡ number_of (find_entry (is_named name) m dir (blocks_of_size dir.size) 0))
            (read_inode m ino) _ _
            (read_inode-there m ino dir sane is_dir.valid is_dir.table is_dir.stored_there) refl)
        ∙ e)
    where
      number_of : Option (ℕ × ℕ) → Option ℕ
      number_of none = none
      number_of (some at) = some (dirent_of m at).inode

      some_none : (r : Option (ℕ × ℕ)) → number_of r ≡ none → r ≡ none
      some_none none q = refl
      some_none (some at) q = absurd (clash q)
        where
          clash : {n : ℕ} → some n ≡ none → ⊥
          clash q = cc

  -- A place that the scan has found.
  pub record Place (p : Dirent → Bool) (m : Mount B) (dir : Inode) (n : ℕ) (at : ℕ × ℕ)
      : Type 0 where
    pub index : ℕ
    pub in_range : index < n
    pub used : get_block dir.extents index ≢ 0
    pub in_block : at.1 < dirents_per_block
    pub block : at.0 ≡ get_block dir.extents index

  pub Entry-Place :
      (p : Dirent → Bool) (m : Mount B) (dir : Inode) (n : ℕ)
      → (r : Option (ℕ × ℕ)) → Entry p m dir n 0 r
      → (at : ℕ × ℕ) → r ≡ some at
      → Place p m dir n at
  Entry-Place p m dir n none (absent f) at e = absurd (clash e)
    where
      clash : {at : ℕ × ℕ} → none ≡ some at → ⊥
      clash q = cc
  Entry-Place p m dir n (some _) (present k j lo hi used lt t first) at e =
      subst (Place p m dir n) (some_inj.0 e)
        (record { index = k; in_range = omega arith; used = used; in_block = lt; block = refl })

  pub Entry-Without :
      (p : Dirent → Bool) (m : Mount B) (dir : Inode) (n : ℕ)
      → (r : Option (ℕ × ℕ)) → Entry p m dir n 0 r
      → r ≡ none
      → Without p m dir 0 (0 + n)
  Entry-Without p m dir n none (absent f) e = f
  Entry-Without p m dir n (some _) (present k j lo hi used lt t first) e = absurd (clash e)
    where
      clash : {at : ℕ × ℕ} → some at ≡ none → ⊥
      clash q = cc
