-- ===== src/EchoServer.antt =====
-- example/EchoServer.cpp: a server that sends each message back, in the IO thread or by workers.
pub mod Bound
pub mod Echo
pub mod Program
pub mod Workers
pub mod Tests
use net_module.Base.{ℕ, ◌≡◌, Bool, true, List, [], ◌∷◌, ◌++◌, Result, ok, ◌==◌, if◌then◌else◌}
use net_module.System.{EpollApi, SendApi}
use net_module.Connection.{Session, Callbacks, get_con_statue}
use net_module.Connection.Transmit.{send}

-- What the user of the library keeps here: the messages that are bound into the tasks of the thread
-- pool, oldest first.
abbrev pub Backlog : Type 0
Backlog = List (List ℕ)

module _ {S C : Type 0} where
  -- `HandleClose`, `HandleError` and `HandleSendComplete`: they only print.
  abbrev pub printers : Callbacks S Backlog C
  printers = record {
    on_message = λ c ses m. ok ses;
    on_close = λ c ses. ok ses;
    on_error = λ c ses. ok ses;
    on_send_complete = λ c ses. ok ses;
  }

module _ {S C : Type 0} (epoll : EpollApi S) (sender : SendApi S) where
  -- `OnMessage`, in the loop's thread or in a worker's, with the message at an address.
  unfoldable pub on_message : Bool → ℕ → List ℕ → Session S Backlog C → Result (Session S Backlog C)
  unfolding get_con_statue
  on_message in_loop_thread address message ses =
      if get_con_statue ses.conn
      then ok ses
      else send epoll sender printers in_loop_thread address message ses

  -- `HandleMessage`, with `threadpool_.size()` workers; `std::bind` copies the message.
  unfoldable pub handle_message :
      ℕ → ℕ → List ℕ → Session S Backlog C → Result (Session S Backlog C)
  handle_message workers address message ses =
      if workers == 0
      then on_message true address message ses
      else ok (record ses { user = ses.user ++ message ∷ [] })

  -- The callbacks of each connection. The caller's string stands at `address`.
  abbrev pub callbacks : ℕ → ℕ → Callbacks S Backlog C
  callbacks workers address = record printers {
    on_message = λ c ses m. handle_message workers address m ses;
  }
