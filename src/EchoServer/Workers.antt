-- ===== src/EchoServer/Workers.antt =====
-- The worker threads: messages that are handled outside the loop's thread.
mod Tests
use net_module.Base.{
  ℕ, ◌≡◌, ◌≢◌, refl, ◌∙◌, false, List, [], ◌∷◌, ◌++◌, Option, none, some, Result, ok, err,
  undefined, ◌>>=◌, ◌==◌, ==_ne, ==-refl, >>=_assoc, take, length,
}
use net_module.Base.IntMap.{lookup}
use net_module.System.{EpollApi, SendApi}
use net_module.EventLoop.Tasks.{handlewakeup, run_tasks, queue_in_loop}
use net_module.EventLoop.Tasks.Order.{handlewakeup-queue_in_loop}
use net_module.Connection.{Session, SendTask, get_con_statue}
use net_module.Connection.Transmit.{send, send_inloop, run_own_send, run_send}
use net_module.EchoServer.{Backlog, printers, on_message, handle_message}

-- The bytes that a pointer leads to; a pointer into memory that was given back is not to be read.
abbrev pub at_address : Option (List ℕ) → Result (List ℕ)
at_address none = err undefined
at_address (some bytes) = ok bytes

module _ {S C : Type 0} (epoll : EpollApi S) (sender : SendApi S) where
  -- A worker takes the oldest task and runs `OnMessage`; its copy of the message stands at an address, for
  -- as long as the task is there.
  unfoldable pub work : ℕ → Session S Backlog C → Result (Session S Backlog C)
  work address ses = elim ses.user [
    | [] ↦ ok ses
    | m ∷ later ↦ on_message epoll sender false address m (record ses { user = later })
  ]

module _ {S C : Type 0} (epoll : EpollApi S) (sender : SendApi S)
    (others : SendTask → Session S Backlog C → Result (Session S Backlog C)) where
  run_send-at_address :
      (this copy n : ℕ) (heap : List (ℕ × List ℕ)) (x : Session S Backlog C)
      → run_send epoll sender printers this others heap
          (record { this = this; address = copy; length = n })
          x
        ≡ (at_address (lookup copy heap) >>= λ bytes.
            send_inloop epoll sender printers (take n bytes) x)
  unfolding run_send run_own_send
  run_send-at_address this copy n heap x = rw (==-refl this) (read (lookup copy heap))
    where
      read :
          (o : Option (List ℕ))
          → elim o [
            | none ↦ err undefined
            | some bytes ↦ send_inloop epoll sender printers (take n bytes) x
          ]
            ≡ (at_address o >>= λ bytes. send_inloop epoll sender printers (take n bytes) x)
      read none = refl
      read (some bytes) = refl

  -- With workers, on a live connection with nothing waiting: a message goes to the task queue of the pool;
  -- the worker that takes it leaves the connection as it is and gives the loop a pointer to the
  -- task's copy; and the loop, when it wakes up, reads what then stands at that address. So the
  -- message is sent if the task still exists then, and the program is undefined if it does not, which
  -- nothing prevents.
  pub worker_echo :
      (workers address copy : ℕ) (m : List ℕ) (heap : List (ℕ × List ℕ))
      (ses x : Session S Backlog C)
      → workers ≢ 0
      → ses.conn.dis_connect ≡ false
      → ses.user ≡ []
      → ses.tasks.task_queue ≡ []
      → (s t : Session S Backlog C) × (handle_message epoll sender workers address m ses ≡ ok s)
        × (work epoll sender copy s ≡ ok t)
        × (t.conn ≡ ses.conn)
        × (handlewakeup
              (run_send epoll sender printers ses.conn.client_channel.self others heap)
              t.tasks
              x
            ≡ (at_address (lookup copy heap) >>= λ bytes.
                send_inloop epoll sender printers (take (length m) bytes) x >>= λ y.
                ok (record { task_queue = []; counter = 0 }, y)))
  unfolding handle_message work on_message get_con_statue send run_tasks lookup
  worker_echo workers address copy m heap ses x some_work on idle empty = (
    record ses { user = ses.user ++ m ∷ [] },
    record ses { user = []; tasks = queue_in_loop ses.tasks task },
    rw (==_ne workers 0 some_work),
    rw (idle, on),
    refl,
    handlewakeup-queue_in_loop
          (run_send epoll sender printers ses.conn.client_channel.self others heap) ses.tasks task x
        ∙ rw
            (
              empty,
              run_tasks,
              run_send-at_address ses.conn.client_channel.self copy (length m) heap x,
            )
            (>>=_assoc (at_address (lookup copy heap)) _ _),
  )
    where
      task : SendTask
      task = record { this = ses.conn.client_channel.self; address = copy; length = length m }
