-- ===== src/Backend/Start.antt =====
-- How a thread gets its queue, `ThreadContextHandler` and `get_or_create_thread_queue` of
-- include/papper/detail/core.h.
use papper.Common.{ℕ, ◌^◌, ◌≤◌, ◌≡◌, refl, true, Option, none, some, List, [], ◌∷◌}
use papper.Text.{Text}
use papper.Queue.{create}
use papper.Queue.Invariant.{fresh, create-IsValid}
use papper.Queue.Sequential.{Pending}
use papper.Backend.{ThreadContext, thread_name_of, Node, register_thread}

-- The threads of the backend, and the counter of those that were given no name.
pub record Registry : Type 0 where
  pub nodes : List Node
  pub unnamed : ℕ

-- `ThreadContextHandler(thread_name, queue_size)`: the context's node is allocated at `address`.
unfoldable pub start_thread : (ℕ → Text) → ℕ → Text → ℕ → Registry → Registry
start_thread to_string address thread_name queue_size threads =
    let (name, unnamed) = thread_name_of to_string threads.unnamed thread_name in
    record {
      nodes = register_thread threads.nodes (record {
        address = address;
        context = record { name = name; queue = create queue_size; is_alive = true };
      });
      unnamed = unnamed;
    }

-- `get_or_create_thread_queue`: the first argument but one is the thread-local handler, by its node, if
-- it was constructed before.
unfoldable pub get_or_create_thread_queue :
    (ℕ → Text) → ℕ → Option ℕ → Text → ℕ → Registry → ℕ × Registry
get_or_create_thread_queue to_string address (some handler) thread_name queue_size threads =
    (handler, threads)
get_or_create_thread_queue to_string address none thread_name queue_size threads =
    (address, start_thread to_string address thread_name queue_size threads)

-- `init_thread` of include/papper/papper.h.
abbrev init_thread : (ℕ → Text) → ℕ → Option ℕ → Text → ℕ → Registry → Registry
init_thread to_string address handler thread_name queue_size threads =
    (get_or_create_thread_queue to_string address handler thread_name queue_size threads).1

-- For sizes up to 2 ^ 62: the first call of a thread registers one node at the head, alive and with an
-- empty queue of at least the size asked for; a later call, with any name and size, gives the same
-- queue and changes nothing.
get_or_create_thread_queue_lem :
    (to_string : ℕ → Text) (address other : ℕ) (thread_name later_name : Text)
    (queue_size later_size : ℕ) (threads : Registry)
    → queue_size ≤ 2 ^ 62
    → let (handler, after) =
        get_or_create_thread_queue to_string address none thread_name queue_size threads in
      (c : ThreadContext) × (after.nodes
        ≡ record { address = handler; context = c } ∷ threads.nodes)
      × (c.is_alive ≡ true)
      × Pending c.queue []
      × (queue_size ≤ c.queue.capacity)
      × (get_or_create_thread_queue to_string other (some handler) later_name later_size after
          ≡ (handler, after))
unfolding get_or_create_thread_queue start_thread register_thread
get_or_create_thread_queue_lem to_string address other thread_name later_name queue_size later_size
      threads small =
    let (valid, room) = create-IsValid queue_size small in
    (_, refl, refl, (fresh, valid, refl), room, refl)
