-- ===== src/Ufs/Tests.antt =====
-- The file system's calls on a device of packed blocks.
use utms.Ufs.Bytes.{decode_inode, load, store, encode_inode, decode_dirent}
use utms.Ufs.Laws.{FitsInode, FitsExtent}
use utms.Ufs.Bytes.{Block, packed}
use utms.Ufs.Bytes.Lawful.{packed-IsLayout}
use utms.Base.Int.{to_int}
use utms.Base.{none}
use utms.Ufs.Extents.{get_block}
use utms.Ufs.Dir.{find_in_dir, find_entry, find_slot, is_free, add_to_dir, blocks_of_size}
use utms.Ufs.Dir.Store.{IsDir}
use utms.Ufs.Dir.Found.{find_in_dir-add_to_dir}
use utms.Ufs.{read_block}
use utms.Base.{◌+◌, some, All, take, drop, true}
use utms.Ufs.{read_inode, Extent, Mount}
use utms.Ufs.Extents.Insert.{Fits, Packed, Appended, append_block-Appended, blocks_of}
use utms.Ufs.Extents.{append_block}
use utms.Ufs.Alloc.{alloc_block}
use utms.Ufs.Alloc.Search.{IsSane}
use utms.Ufs.Alloc.Fresh.{Allocated}
use utms.Ufs.Alloc.Outcome.{alloc_block-Allocated}
use utms.Ufs.Files.{read}
use utms.Ufs.Files.Contents.{Reads, file_bytes, read-file_bytes}
use utms.Base.{ℕ, ◌≡◌, ◌==◌, if◌then◌else◌, refl, ap, arith, List, [], ◌∷◌, length}
use utms.Ufs.{Inode}
use utms.Ufs.Alloc.{free_inode_slot}
use utms.Ufs.Volume.{no_superblock}

abbrev none_left : Extent
none_left = record { start = 0; len = 0 }

-- Of the file, the first extent holds blocks 50 and 51.
abbrev extents : List Extent
extents =
    record { start = 50; len = 2 }
    ∷ record { start = 60; len = 1 }
    ∷ none_left
    ∷ none_left
    ∷ none_left
    ∷ none_left
    ∷ none_left
    ∷ none_left
    ∷ []

extents-Fits : All Fits extents
extents-Fits =
    let e : Fits none_left = (omega arith, omega arith) in
    ((omega arith, omega arith), ((omega arith, omega arith), (e, (e, (e, (e, (e, (e, tt))))))))

extents-Packed : Packed extents
unfolding blocks_of
extents-Packed = (
  (λ z. absurd (omega arith)),
  (
    (λ z. refl),
    ((λ z. refl), ((λ z. refl), ((λ z. refl), ((λ z. refl), ((λ z. refl), ((λ z. refl), tt)))))),
  ),
)

append_block-Appended_example : Appended extents 52 (append_block extents 52)
append_block-Appended_example = append_block-Appended extents 52 extents-Fits extents-Packed

abbrev text_file : Inode
text_file = record free_inode_slot { mode = 33188; size = 5000; extents = extents }

text_file-FitsInode : FitsInode text_file
text_file-FitsInode =
    let e : FitsExtent none_left = (omega arith, omega arith) in
    record {
      mode = omega arith;
      nlink = omega arith;
      size = omega arith;
      blocks = omega arith;
      atime = omega arith;
      mtime = omega arith;
      ctime = omega arith;
      eight = refl;
      extents = (
        (omega arith, omega arith),
        ((omega arith, omega arith), (e, (e, (e, (e, (e, (e, tt))))))),
      );
    }

-- Block 2 is the table of the inodes; the last bytes of the others tell their numbers.
abbrev block_of : ℕ → Block
block_of b =
    if b == 2
    then packed.put_inode 0 text_file packed.cleared
    else packed.put_bytes 4094 (b ∷ (b + 1) ∷ []) packed.cleared

-- A device of 100 blocks with the file as inode 1.
abbrev disk : Mount Block
disk = record {
  sb = record no_superblock {
    magic = 1431588179;
    total_blocks = 100;
    free_blocks = 60;
    inode_count = 30;
    free_inodes = 29;
    bitmap_start = 1;
    inode_table_start = 2;
    data_start = 40;
  };
  mounted = true;
  next_free_block = 45;
  next_free_inode = 2;
  device = block_of;
  readable = λ b. true;
  writable = λ b. true;
}

disk-IsSane : IsSane disk
disk-IsSane = record {
  reads = λ b. refl;
  writes = λ b. refl;
  small = omega arith;
  within = omega arith;
  start = omega arith;
  behind_superblock = omega arith;
  before_data = λ b lt. omega arith;
}

alloc_block-Allocated_example : Allocated disk (alloc_block disk)
alloc_block-Allocated_example = alloc_block-Allocated packed-IsLayout disk disk-IsSane (omega arith)

text_file-Reads : All (Reads disk) (blocks_of extents)
unfolding blocks_of
text_file-Reads = (
  (omega arith, omega arith, refl),
  ((omega arith, omega arith, refl), ((omega arith, omega arith, refl), tt)),
)

text_file-found : read_inode disk 1 ≡ some text_file
unfolding read_inode read_block
text_file-found =
    ap some
      (packed-IsLayout.inode_self 0 text_file packed.cleared (omega arith) text_file-FitsInode)

read-file_bytes_example :
    read 1 true 10 4094 disk
    ≡ some (
      take 10 (drop 4094 (file_bytes disk text_file)),
      to_int (length (take 10 (drop 4094 (file_bytes disk text_file)))),
    )
read-file_bytes_example =
    read-file_bytes disk 1 10 4094 text_file packed-IsLayout refl text_file-found (omega arith)
      extents-Fits text_file-Reads

-- The same inode read as a directory, whose places are all free.
disk-IsDir : IsDir disk 1 text_file
unfolding get_block
disk-IsDir = record {
  valid = refl;
  table = omega arith;
  stored_there =
      packed-IsLayout.inode_self 0 text_file packed.cleared (omega arith) text_file-FitsInode;
  within = λ k. ground arith;
  apart = λ k. ground arith;
  small = omega arith;
  fits = text_file-FitsInode;
}

not_there : find_in_dir disk 1 (104 ∷ 105 ∷ []) ≡ none
unfolding find_in_dir find_entry find_slot read_inode read_block get_block decode_inode load store
    encode_inode decode_dirent
not_there = refl

free_place : find_entry is_free disk text_file (blocks_of_size 5000) 0 ≡ some (50, 0)
unfolding find_entry find_slot read_block get_block decode_dirent load store
free_place = refl

find_in_dir-add_to_dir_example :
    ((add_to_dir 1 9 (104 ∷ 105 ∷ []) 1 disk).1 ≡ true)
    × (find_in_dir (add_to_dir 1 9 (104 ∷ 105 ∷ []) 1 disk).0 1 (104 ∷ 105 ∷ []) ≡ some 9)
find_in_dir-add_to_dir_example =
    find_in_dir-add_to_dir disk 1 text_file 9 1 (104 ∷ 105 ∷ []) 50 0 packed-IsLayout disk-IsSane
      disk-IsDir not_there (omega arith) (omega arith) (omega arith) (omega arith)
      ((omega arith, omega arith), ((omega arith, omega arith), tt)) free_place
