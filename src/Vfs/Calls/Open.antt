-- ===== src/Vfs/Calls/Open.antt =====
-- What a file goes through from `vfs_open` to `vfs_close`.
use mini_unix.Base.{
  ℕ, ◌+◌, ◌-◌, ◌^◌, ◌<◌, ◌≡◌, refl, sym, subst, ap, ◌∙◌, true, false, Option, some, arith, ◌==◌,
  ==_refl,
}
use mini_unix.Base.Int.{ℤ, pos, negsuc}
use mini_unix.Errno.{ok}
use mini_unix.Text.{Str}
use mini_unix.Heap.{Heap, word, kmalloc}
use mini_unix.Process.{Process, put, process_alloc_fd, process_get_file}
use mini_unix.Files.{file_size, fresh_file, file_create, file_destroy}
use mini_unix.Files.References.{
  file_destroy-refcount, file_create-file_destroy, file_destroy-references, given_back,
}
use mini_unix.Vfs.{Store, Lookup, vfs_lookup}
use mini_unix.Vfs.Calls.{State, set_file, vfs_open, vfs_close, open_node}

-- the count that `vfs_close` leaves of a vnode, if the file had one reference
pub vfs_close-references :
    {Own : Type 0} (p : Option Process) (fd : ℤ) (f other : ℕ) (st : State Own)
    → process_get_file p fd ≡ f
    → (f == 0) ≡ false
    → (st.opened.files f).refcount ≡ pos 1
    → ((vfs_close p fd st).0 ≡ ok 0)
      × ((vfs_close p fd st).1.opened.references other
          ≡ given_back (st.opened.files f).node st.opened.references other)
unfolding vfs_close
vfs_close-references p fd f other st found has_file one =
    let dead = set_file st.opened f (record (st.opened.files f) { refcount = pos 0 }) in
    (
      rw (found, has_file) refl,
      rw (found, has_file, one)
          (file_destroy-references f other dead has_file ∙ rw (==_refl f) refl),
    )

-- `vfs_open` of a path that leads to a vnode with fewer than 2^32 - 1 references, with a first free
-- descriptor between 1 and 31 and room in the heap, returns the descriptor. Behind it there is then a
-- file for that vnode at offset 0 with the flags of the call, and the vnode has one reference more.
-- `vfs_close` of the descriptor succeeds and gives the reference back.
pub vfs_open-vfs_close :
    (Own : Type 0) (lookup_of : ℕ → Option Lookup) (p : Process) (path : Option Str)
    (flags node fd f other : ℕ) (store' : Store) (heap' : Heap) (st : State Own)
    → vfs_lookup lookup_of path true st.store ≡ some (ok node, store')
    → process_alloc_fd (some p) ≡ ok fd
    → 0 < fd
    → fd < 32
    → kmalloc file_size st.opened.heap ≡ (some f, heap')
    → (node == 0) ≡ false
    → (f == 0) ≡ false
    → st.opened.references node < 2 ^ 32 - 1
    → (p' : Option Process) × (st' : State Own) × (vfs_open lookup_of (some p) path flags st
        ≡ some (ok fd, (p', st')))
      × (process_get_file p' (pos fd) ≡ f)
      × (st'.opened.files f ≡ fresh_file node (word flags))
      × (st'.opened.references node ≡ st.opened.references node + 1)
      × ((vfs_close p' (pos fd) st').0 ≡ ok 0)
      × ((vfs_close p' (pos fd) st').1.opened.references other ≡ st.opened.references other)
unfolding vfs_open process_get_file
vfs_open-vfs_close Own lookup_of p path flags node fd f other store' heap' st found slot lo hi room
      has_node has_file small =
    let opened' = (file_create node (word flags) st.opened).1 in
    let st' : State Own = record { store = store'; opened = opened'; own = st.own } in
    let (same, fresh, more, back) =
      (file_create-file_destroy node (word flags) other f heap' st.opened has_node has_file small).0
        room in
    let p' : Option Process = some (record { files = put p.files fd f }) in
    let got : process_get_file p' (pos fd) ≡ f = ground arith in
    let fresh' : opened'.files f ≡ fresh_file node (word flags) =
      subst (λ q. opened'.files q ≡ fresh_file node (word flags)) same fresh in
    let back' : (file_destroy f opened').references other ≡ st.opened.references other =
      subst (λ q. (file_destroy q opened').references other ≡ st.opened.references other) same
        back in
    let one : (opened'.files f).refcount ≡ pos 1 = ap (λ file. file.refcount) fresh' in
    let (closed, left) = vfs_close-references p' (pos fd) f other st' got has_file one in
    let destroyed = rw one at (file_destroy-references f other opened' has_file) in
    (
      p',
      st',
      rw (found, slot, same, has_file, vfs_open, open_node) refl,
      got,
      fresh',
      more,
      closed,
      left ∙ sym destroyed ∙ back',
    )

vfs_close-refcount :
    {Own : Type 0} (p : Option Process) (fd : ℤ) (f : ℕ) (st : State Own)
    → process_get_file p fd ≡ f
    → (f == 0) ≡ false
    → (st.opened.files f).refcount ≡ pos 1
    → ((vfs_close p fd st).1.opened.files f).refcount ≡ negsuc 0
unfolding vfs_close
vfs_close-refcount p fd f st found has_file one =
    let dead = set_file st.opened f (record (st.opened.files f) { refcount = pos 0 }) in
    rw (found, has_file, one) (file_destroy-refcount f dead has_file ∙ rw (==_refl f) refl)

vfs_close-dead :
    {Own : Type 0} (p : Option Process) (fd : ℤ) (f other : ℕ) (st : State Own)
    → process_get_file p fd ≡ f
    → (f == 0) ≡ false
    → (st.opened.files f).refcount ≡ negsuc 0
    → ((vfs_close p fd st).0 ≡ ok 0)
      × ((vfs_close p fd st).1.opened.references other ≡ st.opened.references other)
unfolding vfs_close
vfs_close-dead p fd f other st found has_file dead =
    (rw (found, has_file) refl, rw (found, has_file, dead) refl)

-- `vfs_close` leaves the descriptor as it is. A second `vfs_close` of a descriptor whose file had one
-- reference finds the same file, succeeds again and changes no reference of a vnode.
pub vfs_close-twice :
    {Own : Type 0} (p : Option Process) (fd : ℤ) (f other : ℕ) (st : State Own)
    → process_get_file p fd ≡ f
    → (f == 0) ≡ false
    → (st.opened.files f).refcount ≡ pos 1
    → let st' = (vfs_close p fd st).1 in
      ((vfs_close p fd st).0 ≡ ok 0)
      × ((vfs_close p fd st').0 ≡ ok 0)
      × ((vfs_close p fd st').1.opened.references other ≡ st'.opened.references other)
vfs_close-twice p fd f other st found has_file one =
    let gone = vfs_close-refcount p fd f st found has_file one in
    let (again, kept) = vfs_close-dead p fd f other (vfs_close p fd st).1 found has_file gone in
    ((vfs_close-references p fd f other st found has_file one).0, again, kept)
