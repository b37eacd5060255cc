-- ===== src/Connection/Transmit/Send.antt =====
-- `Connection::send` and `sendInloop`: from the loop's thread, from another, and after the end.
use net_module.Base.{
  ℕ, ◌≡◌, refl, ◌∙◌, true, false, List, [], none, some, ok, Result, err, undefined, ==-refl, ◌>>=◌,
  >>=_congr, arith, length, take_of_length-le,
}
use native.Mathlib.Nat.{le_refl}
use net_module.Base.IntMap.{lookup}
use net_module.System.{EpollApi, SendApi}
use net_module.EventLoop.Tasks.{run_tasks, handlewakeup, wakeup, queue_in_loop}
use net_module.EventLoop.Tasks.Order.{handlewakeup-queue_in_loop}
use net_module.Connection.{Session, Callbacks, SendTask}
use net_module.Connection.Transmit.{send, send_inloop, run_own_send, run_send}

module _ {S U C : Type 0} (epoll : EpollApi S) (sender : SendApi S) (cbs : Callbacks S U C)
    (others : SendTask → Session S U C → Result (Session S U C)) where
  run_send-live :
      (this : ℕ) (heap : List (ℕ × List ℕ)) (address : ℕ) (message : List ℕ) (y : Session S U C)
      → lookup address heap ≡ some message
      → run_send epoll sender cbs this others heap
          (record { this = this; address = address; length = length message })
          y
        ≡ send_inloop epoll sender cbs message y
  unfolding run_send run_own_send
  run_send-live this heap address message y live =
      rw (==-refl this)
        (rw (live, run_own_send) (rw (take_of_length-le (length message) message (le_refl _))))

  -- On a live connection a send from the loop's own thread is `sendInloop`; from another thread it
  -- leaves the connection alone, and when the loop wakes up, with the bytes still in memory,
  -- `sendInloop` runs after the tasks that stood before it, which may be of any connection, and the queue is
  -- empty.
  pub send_queued :
      (heap : List (ℕ × List ℕ)) (address : ℕ) (message : List ℕ) (ses : Session S U C)
      → ses.conn.dis_connect ≡ false
      → lookup address heap ≡ some message
      → (send epoll sender cbs true address message ses ≡ send_inloop epoll sender cbs message ses)
        × ((t : Session S U C) × (send epoll sender cbs false address message ses ≡ ok t)
            × (t.conn ≡ ses.conn)
            × ((x : Session S U C)
                → handlewakeup
                    (run_send epoll sender cbs ses.conn.client_channel.self others heap)
                    t.tasks
                    x
                  ≡ (run_tasks
                        (run_send epoll sender cbs ses.conn.client_channel.self others heap)
                        ses.tasks.task_queue
                        x
                      >>= λ y. send_inloop epoll sender cbs message y >>= λ z.
                          ok (record { task_queue = []; counter = 0 }, z))))
  unfolding send
  send_queued heap address message ses on live = (
    rw on,
    (
      record ses { tasks = queue_in_loop ses.tasks task },
      rw on,
      refl,
      λ x.
          handlewakeup-queue_in_loop
            (run_send epoll sender cbs ses.conn.client_channel.self others heap) ses.tasks task x
          ∙ >>=_congr
              (run_tasks (run_send epoll sender cbs ses.conn.client_channel.self others heap)
                ses.tasks.task_queue x)
              _ _
              (λ y. rw (run_send-live ses.conn.client_channel.self heap address message y live)),
    ),
  )
    where
      task : SendTask
      task = record {
        this = ses.conn.client_channel.self;
        address = address;
        length = length message;
      }

  -- The bytes are not copied: a send to a live connection, queued alone, is undefined when it runs after
  -- they are gone from memory.
  pub send_dangling :
      (heap : List (ℕ × List ℕ)) (address : ℕ) (message : List ℕ) (ses t x : Session S U C)
      → ses.conn.dis_connect ≡ false
      → ses.tasks.task_queue ≡ []
      → lookup address heap ≡ none
      → send epoll sender cbs false address message ses ≡ ok t
      → handlewakeup (run_send epoll sender cbs ses.conn.client_channel.self others heap) t.tasks x
        ≡ err undefined
  unfolding send run_send run_own_send handlewakeup queue_in_loop wakeup run_tasks
  send_dangling heap address message ses t x on idle gone sent = ground arith
