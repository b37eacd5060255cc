-- ===== src/EchoServer/Bound.antt =====
-- The functions of example/EchoServer.cpp behind those of the server, as a connection's callbacks.
pub mod Blind
pub mod Exchange
pub mod Joined
pub mod Kept
pub mod Seated
pub mod Sent
pub mod Served
use net_module.Base.{
  ℕ, ◌<◌, ◌≡◌, refl, ◌∙◌, List, [], ◌∷◌, ◌++◌, Option, some, Result, ok, err, ◌>>=◌, map_ok,
}
use net_module.Base.IntMap.{lookup, insert, erase, lookup-insert_same, erase-insert}
use net_module.System.{EpollApi, SendApi, ClockApi}
use net_module.EventLoop.Tasks.{Tasks}
use net_module.Connection.{Session, Callbacks, SendTask}
use net_module.Connection.Receive
use net_module.TcpServer.{ServerHandler, UserCall, on_message, call_if_set, Service, at_index}
use net_module.TcpServer.Binding.{Outer, as_service, as_session, bound_callbacks}
use net_module.EchoServer
use net_module.EchoServer.{Backlog}
use net_module.EchoServer.Program.{EchoHandler, handle_message}

abbrev pub no_tasks : Tasks SendTask
no_tasks = record { task_queue = []; counter = 0 }

module _ {S : Type 0} (epoll : EpollApi S) (sender : SendApi S) (workers address : ℕ) where
  -- What the server's user does: `HandleMessage` acts on the connection that it is given, in the thread of
  -- its loop, whose queue it leaves alone; the others only print.
  unfoldable pub user_call :
      EchoHandler
      → UserCall
      → Service S Backlog EchoHandler
      → Result (Service S Backlog EchoHandler)
  user_call handle_message (on_message at m) v = do
    conn ← at_index (lookup at v.memory)
    ses ←
        EchoServer.handle_message epoll sender workers address m
          (record { conn = conn; sys = v.sys; user = v.user; tasks = no_tasks })
    ok (record v { memory = insert at ses.conn v.memory; sys = ses.sys; user = ses.user })
  user_call h c v = ok v

-- A connection of the server with what its user keeps, and with all that surrounds it.
abbrev pub Inner : Type 0 → Type 0
Inner S = Session S Backlog ServerHandler

abbrev pub Full : Type 0 → Type 0
Full S = Session S (Outer Backlog EchoHandler) ServerHandler

module _ {S : Type 0} (at : ℕ) where
  -- The connection alone, and back.
  abbrev pub inner : Full S → Inner S
  inner ses = record { conn = ses.conn; sys = ses.sys; user = ses.user.user; tasks = no_tasks }

  abbrev pub restore : Full S → Inner S → Full S
  restore ses t = record {
    conn = t.conn;
    sys = t.sys;
    user = record { server = ses.user.server; memory = erase at ses.user.memory; user = t.user };
    tasks = ses.tasks;
  }

  -- A connection alone within what surrounds it.
  abbrev pub within : Outer Backlog EchoHandler → Inner S → Full S
  within o ses = record {
    conn = ses.conn;
    sys = ses.sys;
    user = record { server = o.server; memory = erase at o.memory; user = ses.user };
    tasks = ses.tasks;
  }

module _ {S : Type 0} (epoll : EpollApi S) (sender : SendApi S) (clock : ClockApi S)
    (address at : ℕ) where
  -- The callbacks of the connection at `at`, in a server without workers.
  abbrev pub echo_callbacks : Callbacks S (Outer Backlog EchoHandler) ServerHandler
  echo_callbacks = bound_callbacks (user_call epoll sender 0 address) at

  -- The way back, once `HandleMessage` has ended.
  put_back :
      (ses : Full S) (r : Result (Inner S))
      → ((r >>= λ (t : Inner S). ok (record (as_service at ses) {
        memory = insert at t.conn (insert at ses.conn ses.user.memory);
        sys = t.sys;
        user = t.user;
      }))
          >>= as_session at ses.tasks)
        ≡ map_ok (restore at ses) r
  put_back ses (err e) = refl
  put_back ses (ok t) =
      rw
        (
          lookup-insert_same at t.conn (insert at ses.conn ses.user.memory),
          erase-insert at t.conn (insert at ses.conn ses.user.memory),
          erase-insert at ses.conn ses.user.memory,
        )
        refl

  -- What the callback for messages does if `o` is the user's function.
  abbrev pub calling : Option EchoHandler → List ℕ → Full S → Result (Full S)
  calling o m ses =
      call_if_set (user_call epoll sender 0 address) o (on_message at m) (as_service at ses)
      >>= as_session at ses.tasks

  pub calling-handle_message :
      (m : List ℕ) (ses : Full S)
      → calling (some handle_message) m ses
        ≡ map_ok
            (restore at ses)
            (EchoServer.handle_message epoll sender 0 address m (inner at ses))
  unfolding user_call
  calling-handle_message m ses =
      rw (lookup-insert_same at ses.conn ses.user.memory)
        (put_back ses (EchoServer.handle_message epoll sender 0 address m (inner at ses)))

  -- A service that nothing was done to, back as a session.
  pub unchanged :
      (ses : Full S)
      → as_session at ses.tasks (as_service at ses) ≡ ok (restore at ses (inner at ses))
  unchanged ses =
      rw (lookup-insert_same at ses.conn ses.user.memory, erase-insert at ses.conn ses.user.memory)
        refl
