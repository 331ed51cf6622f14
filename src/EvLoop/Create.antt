-- ===== src/EvLoop/Create.antt =====
-- The creation of the objects of src/fevent_loop with its clean-up: `ev_monitor_create` of
-- ev_monitor.c, `ev_ready_queue_create` of _ev_ready_queue.c and `epoll_get_monitor_handle` of
-- _ev_monitor_core/_epoll.c. What is acquired is pushed with a number; at an error the pushed
-- resources are popped, and a `switch` on the number releases them.
use c_liber.Prelude.{
  ℕ, ◌≡◌, Bool, true, false, ◌&&◌, ◌||◌, List, [], ◌∷◌, map, ◌==◌, leb, if◌then◌else◌, arith,
}

pub data Acquired : Type 0 where
  block core mutex watch_pool queue epoll_fd read_fd write_fd : Acquired

-- A call that acquires a resource, which is pushed with a number, or one that acquires nothing; with
-- its outcome.
pub data Acquire : Type 0 where
  acquires : (ok : Bool) → (id : ℕ) → Acquired → Acquire
  calls : (ok : Bool) → Acquire

-- The resources that no case of the `switch` releases.
unfoldable pub clean_up : (cases : ℕ → Bool) → List (ℕ × Acquired) → List Acquired
clean_up cases [] = []
clean_up cases ((id, r) ∷ pushed) =
    let rest = clean_up cases pushed in if cases id then rest else r ∷ rest

-- Whether the creation succeeds, and what it then holds, the last one first.
unfoldable pub create_all :
    (cases : ℕ → Bool) → List Acquire → List (ℕ × Acquired) → Bool × List Acquired
unfolding clean_up
create_all cases [] pushed = (true, map (λ p. p.1) pushed)
create_all cases (acquires true id r ∷ steps) pushed = create_all cases steps ((id, r) ∷ pushed)
create_all cases (acquires false id r ∷ steps) pushed = (false, clean_up cases pushed)
create_all cases (calls true ∷ steps) pushed = create_all cases steps pushed
create_all cases (calls false ∷ steps) pushed = (false, clean_up cases pushed)

unfoldable pub ev_monitor_create :
    (malloc core_create mutex_init pool_create queue_create : Bool) → Bool × List Acquired
unfolding create_all
ev_monitor_create malloc core_create mutex_init pool_create queue_create =
    create_all (λ id. leb id 3)
      (acquires malloc 0 block
        ∷ acquires core_create 1 core
        ∷ acquires mutex_init 2 mutex
        ∷ acquires pool_create 3 watch_pool
        ∷ calls queue_create
        ∷ [])
      []

unfoldable pub ev_ready_queue_create : (malloc mutex_init tp_create : Bool) → Bool × List Acquired
unfolding create_all
ev_ready_queue_create malloc mutex_init tp_create =
    create_all (λ id. id == 0 || id == 2)
      (acquires malloc 0 block ∷ acquires mutex_init 1 mutex ∷ calls tp_create ∷ []) []

-- `pipe` opens two descriptors at once.
unfoldable pub epoll_get_monitor_handle :
    (malloc epoll_create pipe unblock_0 unblock_1 epoll_ctl : Bool) → Bool × List Acquired
unfolding create_all
epoll_get_monitor_handle malloc epoll_create pipe unblock_0 unblock_1 epoll_ctl =
    create_all (λ id. leb id 1)
      (acquires malloc 0 block
        ∷ acquires epoll_create 1 epoll_fd
        ∷ acquires pipe 1 read_fd
        ∷ acquires true 1 write_fd
        ∷ calls unblock_0
        ∷ calls unblock_1
        ∷ calls epoll_ctl
        ∷ [])
      []

-- `ev_monitor_create` succeeds exactly if every call does; otherwise it holds nothing.
pub ev_monitor_create-held :
    (malloc core_create mutex_init pool_create queue_create : Bool)
    → let (ok, held) = ev_monitor_create malloc core_create mutex_init pool_create queue_create in
      (ok ≡ malloc && core_create && mutex_init && pool_create && queue_create)
      × (held ≡ (if ok then watch_pool ∷ mutex ∷ core ∷ block ∷ [] else []))
unfolding ev_monitor_create
ev_monitor_create-held malloc core_create mutex_init pool_create queue_create = ground arith

-- `epoll_get_monitor_handle` succeeds exactly if every call does; otherwise it holds nothing.
pub epoll_get_monitor_handle-held :
    (malloc epoll_create pipe unblock_0 unblock_1 epoll_ctl : Bool)
    → let (ok, held) =
        epoll_get_monitor_handle malloc epoll_create pipe unblock_0 unblock_1 epoll_ctl in
      (ok ≡ malloc && epoll_create && pipe && unblock_0 && unblock_1 && epoll_ctl)
      × (held ≡ (if ok then write_fd ∷ read_fd ∷ epoll_fd ∷ block ∷ [] else []))
unfolding epoll_get_monitor_handle
epoll_get_monitor_handle-held malloc epoll_create pipe unblock_0 unblock_1 epoll_ctl = ground arith

-- `ev_ready_queue_create` succeeds exactly if every call does; if the thread pool cannot be made its
-- mutex is left behind, and otherwise it holds nothing.
pub ev_ready_queue_create-held :
    (malloc mutex_init tp_create : Bool)
    → let (ok, held) = ev_ready_queue_create malloc mutex_init tp_create in
      (ok ≡ malloc && mutex_init && tp_create)
      × (held
          ≡ (if ok then mutex ∷ block ∷ [] else if malloc && mutex_init then mutex ∷ [] else []))
unfolding ev_ready_queue_create
ev_ready_queue_create-held malloc mutex_init tp_create = ground arith
