-- ===== src/TcpServer/Binding.antt =====
-- How the server's member functions hang on a connection: what its callbacks do.
pub mod Ending
mod Tests
use net_module.Base.{
  ℕ, ◌≡◌, ◌∙◌, List, [], ◌∷◌, Option, none, some, Result, ok, ◌>>=◌, ◌==◌, if◌then◌else◌, ==-refl,
}
use net_module.Base.IntMap.{lookup, insert, erase}
use net_module.EventLoop.Tasks.{Tasks}
use net_module.Connection.{Connection, Session, Callbacks, SendTask}
use net_module.TcpServer.{
  ServerHandler, close_bound, error_bound, message_bound, complete_bound, UserCall, TcpServer,
  Service, at_index, onmessage, sendcomplete, errorconnection, closeconnection,
}

-- What a connection's callbacks reach besides the connection itself.
pub record Outer (U K : Type 0) : Type 0 where
  pub server : TcpServer K
  pub memory : List (ℕ × Connection ServerHandler)
  pub user : U

module _ {S U K : Type 0} where
  -- The server around the connection at an address, and back. What is outside has no second copy of it.
  abbrev pub as_service : ℕ → Session S (Outer U K) ServerHandler → Service S U K
  as_service address ses = record {
    server = ses.user.server;
    memory = insert address ses.conn ses.user.memory;
    sys = ses.sys;
    user = ses.user.user;
  }

  abbrev pub as_session :
      ℕ → Tasks SendTask → Service S U K → Result (Session S (Outer U K) ServerHandler)
  as_session address tasks v = do
    conn ← at_index (lookup address v.memory)
    ok (record {
      conn = conn;
      sys = v.sys;
      user = record { server = v.server; memory = erase address v.memory; user = v.user };
      tasks = tasks;
    })

  abbrev pub through :
      ℕ
      → (Service S U K → Result (Service S U K))
      → Session S (Outer U K) ServerHandler
      → Result (Session S (Outer U K) ServerHandler)
  through address f ses = f (as_service address ses) >>= as_session address ses.tasks

  module _ (act : K → UserCall → Service S U K → Result (Service S U K)) where
    -- The functions that take a connection, by their names; no other has this type.
    abbrev pub of_connection : ServerHandler → Option (ℕ → Service S U K → Result (Service S U K))
    of_connection close_bound = some (closeconnection act)
    of_connection error_bound = some (errorconnection act)
    of_connection complete_bound = some (sendcomplete act)
    of_connection h = none

    -- The function that takes a connection and a message.
    abbrev pub of_message :
        ServerHandler → Option (ℕ → List ℕ → Service S U K → Result (Service S U K))
    of_message message_bound = some (onmessage act)
    of_message h = none

    abbrev pub call_connection :
        ℕ
        → ServerHandler
        → Session S (Outer U K) ServerHandler
        → Result (Session S (Outer U K) ServerHandler)
    call_connection address h ses = do
      f ← at_index (of_connection h)
      through address (f address) ses

    -- The callbacks of the connection at an address.
    abbrev pub bound_callbacks : ℕ → Callbacks S (Outer U K) ServerHandler
    bound_callbacks address = record {
      on_message = λ h ses m. (do f ← at_index (of_message h); through address (f address m) ses);
      on_close = call_connection address;
      on_error = call_connection address;
      on_send_complete = call_connection address;
    }
