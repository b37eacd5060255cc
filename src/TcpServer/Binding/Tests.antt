-- ===== src/TcpServer/Binding/Tests.antt =====
-- The connection on descriptor 7, at address 64, of a server with three loops ends.
use net_module.Base.{ℕ, ◌+◌, ◌≡◌, refl, sym, ap, true, [], ◌∷◌, some, ok}
use net_module.Channel
use net_module.Connection.{Session, get_cfd}
use net_module.Connection.Close.{close_callback, error_callback}
use net_module.TcpServer.{ServerHandler, close_bound, error_bound, UserCall}
use net_module.TcpServer.Binding.{Outer, bound_callbacks}
use net_module.TcpServer.Binding.Ending.{Ended, ending-Ended}
use net_module.TcpServer.Tests.{Counted, service, joined_connection, count, count-IsAloof}
use net_module.Simulation.{World, quiet_world, enter, epoll, epoll_laws, open_sender}

abbrev session : Session World (Outer ℕ ℕ) ServerHandler
session = record {
  conn = record joined_connection {
    client_channel = record (Channel.make 65 21 7) { events = 0x8000_0001; inepoll = true };
    closecallback = some close_bound;
    errorcallback = some error_bound;
  };
  sys = enter quiet_world 21 7 (some (record { events = 0x8000_0001; ptr = 65 }));
  user = record {
    server = record (service.server) { conns = (7, 64) ∷ (8, 66) ∷ [] };
    memory = [];
    user = 0;
  };
  tasks = record { task_queue = []; counter = 0 };
}

count_quiet :
    (cb : ℕ) (c : UserCall) (v w : Counted)
    → count cb c v ≡ ok w
    → (ep fd : ℕ) → w.sys.interests ep fd ≡ v.sys.interests ep fd
count_quiet cb c v w h ep fd =
    let same : record v { user = v.user + 1 } ≡ w = cc in
    ap (λ (x : Counted). x.sys.interests ep fd) (sym same)

ending-Ended_example :
    ((t : Session World (Outer ℕ ℕ) ServerHandler) × (close_callback epoll
          (bound_callbacks count 64)
          session
        ≡ ok t)
      × Ended count count-IsAloof epoll epoll_laws open_sender count_quiet 64
          (get_cfd session.conn)
          session
          t)
    × ((t : Session World (Outer ℕ ℕ) ServerHandler) × (error_callback epoll
            (bound_callbacks count 64)
            session
          ≡ ok t)
        × Ended count count-IsAloof epoll epoll_laws open_sender count_quiet 64
            (get_cfd session.conn)
            session
            t)
ending-Ended_example =
    ending-Ended count count-IsAloof epoll epoll_laws open_sender count_quiet 64 session refl refl
      refl
