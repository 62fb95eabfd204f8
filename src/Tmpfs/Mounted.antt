-- ===== src/Tmpfs/Mounted.antt =====
-- tmpfs as a file system behind the calls of kernel/fs/vfs.c.
use mini_unix.Base.{
  ℕ, ◌+◌, ◌^◌, ◌<◌, ◌≡◌, ◌⊎◌, refl, inl, inr, false, ◌||◌, ltb, leb, ◌==◌, Bool-cases, Option-cases,
}
use mini_unix.Heap.{word}
use mini_unix.Vfs.Calls.FileSystem.{Separate, FileSystem}
use mini_unix.Tmpfs.{TmpfsState, Inodes, is_dir}
use mini_unix.Tmpfs.Contents.{grow, tmpfs_read, tmpfs_write}
use mini_unix.Tmpfs.Transfer.{IsFile, CanCopy, Fresh, Inside}
use mini_unix.Tmpfs.RoundTrip.{tmpfs_write-tmpfs_read}

pub tmpfs_read-Separate : Separate tmpfs_read
unfolding tmpfs_read
tmpfs_read-Separate = record {
  separate = λ files node offset buffer count st.
      let inode = st.own (st.store.vnodes node).private_data in
      elim (Bool-cases ((node == 0) || (buffer == 0))) [
        | inl bad ↦ rw bad (refl, refl)
        | inr good ↦ elim (Bool-cases (count == 0)) [
          | inl nothing ↦ rw (good, nothing) (refl, refl)
          | inr much ↦ elim (Bool-cases (is_dir inode.kind)) [
            | inl dir ↦ rw (good, much, dir) (refl, refl)
            | inr file ↦ elim (Bool-cases (leb inode.size offset)) [
              | inl past ↦ rw (good, much, file, past) (refl, refl)
              | inr within ↦ rw (good, much, file, within) (refl, refl)
            ]
          ]
        ]
      ];
}

pub tmpfs_write-Separate : Separate tmpfs_write
unfolding tmpfs_write
tmpfs_write-Separate = record {
  separate = λ files node offset buffer count st.
      let inode = st.own (st.store.vnodes node).private_data in
      let required = word (offset + count) in
      elim (Bool-cases ((node == 0) || (buffer == 0))) [
        | inl bad ↦ rw bad (refl, refl)
        | inr good ↦ elim (Bool-cases (count == 0)) [
          | inl nothing ↦ rw (good, nothing) (refl, refl)
          | inr much ↦ elim (Bool-cases (is_dir inode.kind)) [
            | inl dir ↦ rw (good, much, dir) (refl, refl)
            | inr file ↦ elim (Bool-cases (ltb inode.size required)) [
              | inr short ↦ rw (good, much, file, short) (refl, refl)
              | inl long ↦ elim (Option-cases (grow required offset inode st.opened.heap).0) [
                | inl full ↦ rw (good, much, file, long, full) (refl, refl)
                | inr (grown, e) ↦ rw (good, much, file, long, e) (refl, refl)
              ]
            ]
          ]
        ]
      ];
}

-- A file, and a write to it of a count that an `ssize_t` can have, which stays within its contents or gives
-- it its first ones, and for which the area `to` can then be filled from the contents.
pub record Accepts (st : TmpfsState) (node offset buffer count to : ℕ) : Type 0 where
  pub inode : ℕ
  pub is_file : IsFile st node inode
  pub has_buffer : (buffer == 0) ≡ false
  pub has_count : (count == 0) ≡ false
  pub positive : count < 2 ^ 31
  pub has_to : (to == 0) ≡ false
  pub carried_out : Inside st inode offset buffer count ⊎ Fresh st inode offset buffer count
  pub can_copy :
      CanCopy to (((tmpfs_write node offset buffer count st).1.own inode).data_at + offset) count

abbrev pub tmpfs_filesystem : FileSystem Inodes
tmpfs_filesystem = record {
  read = tmpfs_read;
  write = tmpfs_write;
  Accepts = Accepts;
  read_separate = tmpfs_read-Separate;
  write_separate = tmpfs_write-Separate;
  read_back = λ st node offset buffer count to a.
      let (wrote, found, back) =
        tmpfs_write-tmpfs_read st node a.inode offset buffer count to a.is_file a.has_buffer
          a.has_count a.positive a.has_to a.carried_out a.can_copy in
      (a.positive, wrote, found, back);
}
