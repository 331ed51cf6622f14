-- ===== src/EvLoop/WatchPool/Calls.antt =====
-- What `ev_watch_pool_add` and `ev_watch_pool_del` of src/fevent_loop/_ev_watch_pool.c leave of the items
-- of the pool.
use c_liber.Prelude.{
  ℕ, suc, ◌+◌, ◌*◌, ◌^◌, ◌<◌, ◌≡◌, refl, sym, Bool, true, false, some, List, ◌∷◌, ◌==◌,
  if◌then◌else◌, count, length, arith, inl, inr, ◌⊎◌,
}
use mathlib.Core.Path.{subst}
use c_liber.RbTree.{RbTree}
use c_liber.RbTree.Order.{insort}
use c_liber.RbTree.Remove.Locate.{remove}
use c_liber.EvLoop.WatchTree.{lower_fd}
use c_liber.EvLoop.WatchTree.Lookup.{IsFree}
use c_liber.EvLoop.WatchTree.Calls.{IsWatchTree, Deletes, ev_watch_tree_delete-Deletes}
use c_liber.EvLoop.WatchPool.{
  WatchPool, Done, success, failure, freed_use, free_item, new_item, after_delete,
  ev_watch_pool_del,
}

module _ (fd_of : ℕ → ℕ) where
  -- What a deletion of `fd` leaves of the items `xs`: nothing happens where no item has it; otherwise the
  -- one item that has it is taken out and freed, whatever `epoll_ctl` answers.
  abbrev pub Drops : (ctl : Bool) (fd : ℕ) → List ℕ → WatchPool → Done → Type 0
  Drops ctl fd xs wp d =
      (IsFree fd_of fd xs × (d ≡ success wp))
      ⊎ ((w : ℕ) × (wp' : WatchPool) × (0 < count w xs)
          × (fd_of w ≡ fd)
          × (d ≡ (if ctl then success wp' else failure wp'))
          × IsWatchTree fd_of (remove w xs) wp'.watch_tree
          × IsFree fd_of fd (remove w xs)
          × (wp'.freed ≡ w ∷ wp.freed)
          × ((v : ℕ) → wp'.cb_list v ≡ wp.cb_list v))

  after_delete-Drops :
      (ctl : Bool) (fd : ℕ) (xs : List ℕ) (wp : WatchPool) (w : ℕ) (tree : RbTree)
      → Deletes fd_of fd xs w wp.watch_tree tree
      → Drops ctl fd xs wp (after_delete fd_of ctl wp (some (w, tree)))
  unfolding after_delete
  after_delete-Drops ctl fd xs wp w tree (inl (z, free, same)) = inl (free, rw (z, same) refl)
  after_delete-Drops ctl fd xs wp w tree (inr (n, there, e, t, free)) =
      let stands : (w == 0) ≡ false = ground arith in
      inr (
        w,
        free_item w (record wp { watch_tree = tree }),
        there,
        e,
        rw stands refl,
        t,
        free,
        refl,
        λ v. refl,
      )

  -- Let `xs` be the items of the pool's tree, which is a red-black tree ordered by the descriptors, each
  -- descriptor once. Where 2 ^ (b + 1) is more than their number plus one, 2 * b + 1 rounds of fuel for
  -- each loop are enough for `ev_watch_pool_del` to return. Where no item has the descriptor it returns 0
  -- and leaves the pool. Otherwise it takes the item that has it out of the tree and frees it, once, and
  -- no other, and returns 0 or -1 by the outcome of `epoll_ctl`; the tree is again such a tree, without
  -- the descriptor.
  pub ev_watch_pool_del-Drops :
      (fuel b : ℕ) (ctl : Bool) (fd : ℕ) (xs : List ℕ) (wp : WatchPool)
      → IsWatchTree fd_of xs wp.watch_tree
      → length xs + 1 < 2 ^ suc b
      → 2 * b < fuel
      → Drops ctl fd xs wp (ev_watch_pool_del fd_of fuel ctl fd wp)
  unfolding ev_watch_pool_del
  ev_watch_pool_del-Drops fuel b ctl fd xs wp t few enough =
      let (w, tree, e, d) =
        ev_watch_tree_delete-Deletes fd_of fuel fd b xs wp.watch_tree t few enough in
      subst (λ o. Drops ctl fd xs wp (after_delete fd_of ctl wp o)) (sym e)
        (after_delete-Drops ctl fd xs wp w tree d)

  -- What an addition of the item `w` leaves.
  abbrev pub PoolAdds : (w : ℕ) → (ctl : Bool) → List (ℕ × ℕ) → List ℕ → WatchPool → Done → Type 0
  PoolAdds w ctl args xs wp d =
      (IsFree fd_of (fd_of w) xs
        × (wp' : WatchPool) × (wp'.cb_list ≡ (new_item fd_of w args wp).cb_list)
        × (((ctl ≡ true)
              × (d ≡ success wp')
              × IsWatchTree fd_of (insort (lower_fd fd_of) w xs) wp'.watch_tree
              × (wp'.freed ≡ wp.freed))
            ⊎ ((ctl ≡ false)
                × (d ≡ failure wp')
                × IsWatchTree fd_of xs wp'.watch_tree
                × (wp'.freed ≡ w ∷ wp.freed))))
      ⊎ ((v : ℕ) × (0 < count v xs) × (fd_of v ≡ fd_of w) × (d ≡ freed_use w))
