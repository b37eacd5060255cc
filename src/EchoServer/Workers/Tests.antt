-- ===== src/EchoServer/Workers/Tests.antt =====
-- A server with five workers, and a client's message "hi" whose copy is gone when the loop wakes up.
use net_module.Base.{ℕ, ◌≡◌, refl, [], ◌∷◌, ok, ◌>>=◌, take}
use net_module.Base.IntMap.{lookup}
use net_module.EventLoop.Tasks.{handlewakeup}
use net_module.Connection.{Session}
use net_module.Connection.Transmit.{send_inloop, run_send}
use net_module.EchoServer.{Backlog, printers, handle_message}
use net_module.EchoServer.Tests.{session}
use net_module.EchoServer.Workers.{at_address, work, worker_echo}
use net_module.Simulation.{World, epoll, open_sender}

worker_echo_example :
    (s t : Session World Backlog ℕ) × (handle_message epoll open_sender 5 64
        (104 ∷ 105 ∷ [])
        session
      ≡ ok s)
    × (work epoll open_sender 96 s ≡ ok t)
    × (t.conn ≡ session.conn)
    × (handlewakeup (run_send epoll open_sender printers 5 (λ task x. ok x) []) t.tasks session ≡ (
        at_address (lookup 96 []) >>= λ bytes.
        send_inloop epoll open_sender printers (take 2 bytes) session >>= λ y.
        ok (record { task_queue = []; counter = 0 }, y)))
worker_echo_example =
    worker_echo epoll open_sender (λ task x. ok x) 5 64 96 (104 ∷ 105 ∷ []) [] session session
      (λ e. cc) refl refl refl
