-- ===== src/EvLoop/WatchPool/Tests.antt =====
-- The theorems on the pool of watched descriptors at a pool of one item.
use c_liber.Prelude.{true, [], ◌∷◌, arith}
use c_liber.EvLoop.WatchTree.Tests.{fds, one, one-IsWatchTree}
use c_liber.EvLoop.WatchPool.{WatchPool, ev_watch_pool_del}
use c_liber.EvLoop.WatchPool.Calls.{Drops, ev_watch_pool_del-Drops}

abbrev pool : WatchPool
pool = record { watch_tree = one; cb_list = λ w. []; freed = [] }

ev_watch_pool_del-Drops_example :
    Drops fds true 25 (5 ∷ []) pool (ev_watch_pool_del fds 9 true 25 pool)
ev_watch_pool_del-Drops_example =
    ev_watch_pool_del-Drops fds 9 1 true 25 (5 ∷ []) pool one-IsWatchTree (omega arith)
      (omega arith)
