-- ===== src/EchoServer/Program.antt =====
-- The class `EchoServer`, the signal handler and `main` of example/EchoServer.cpp.
pub mod Tests
use net_module.Base.{
  ℕ, ◌+◌, ◌%◌, ◌^◌, ◌≡◌, refl, ap, ◌∙◌, suc, ◌<◌, All, map, true, List, [], ◌∷◌, Option, none, some,
  Result, ok, err, undefined, ◌>>=◌, >>=-IfOk, >>=-eq-ok, arith, length,
}
use mathlib.Core.Path.{subst}
use net_module.EventLoop
use net_module.EventLoop.{EventLoop}
use net_module.EventLoop.Tasks.{wakeup}
use net_module.Base.Text.{atoi}
use net_module.System.{EpollApi, MakeApi, TimerApi, SocketApi, InetApi}
use net_module.TcpServer
use net_module.TcpServer.{
  TcpServer, ServerHandler, setnewconnectioncb, setcloseconnectioncb, seterrorconnectioncb,
  setonmessagecb, setsendcompletecb, stop_loops,
}
use net_module.TcpServer.Making.{Ready, make-Ready}

-- The member functions that the constructor binds.
pub data EchoHandler : Type 0 where
  handle_new_connection handle_close handle_error : EchoHandler
  handle_message handle_send_complete : EchoHandler

-- The server, and the number of worker threads in `threadpool_`.
pub record EchoServer : Type 0 where
  pub tcpserver : TcpServer EchoHandler
  pub workers : ℕ

module _ {S : Type 0} (makes : MakeApi S) (epoll : EpollApi S) (timers : TimerApi S)
    (sockets : SocketApi S) (inet : InetApi) where
  -- The constructor. `garbage` is what the address of a refused socket leaves.
  unfoldable pub make : S → ℕ → List ℕ → ℕ → ℕ → ℕ → Result (EchoServer × S)
  make s garbage ip port subthreadnum workthreadnum = do
    (v, t) ← TcpServer.make makes epoll timers sockets inet s garbage ip port subthreadnum
    let v₁ = setnewconnectioncb v handle_new_connection
    let v₂ = setcloseconnectioncb v₁ handle_close
    let v₃ = seterrorconnectioncb v₂ handle_error
    let v₄ = setonmessagecb v₃ handle_message
    let v₅ = setsendcompletecb v₄ handle_send_complete
    ok (record { tcpserver = v₅; workers = workthreadnum }, t)

  -- `main` up to `Start`: the value that it returns, or the server that it starts.
  unfoldable pub boot : List (List ℕ) → S → ℕ → Result (Option EchoServer × S)
  boot (program ∷ ip ∷ port ∷ []) s garbage = do
    number ← atoi port
    (server, t) ← make s garbage ip (number % 2 ^ 16) 3 5
    ok (some server, t)
  boot argv s garbage = ok (none, s)

  -- A server as `main` starts it.
  pub record Booted (e : EchoServer) : Type 0 where
    pub base : Ready makes epoll timers 3 e.tcpserver
    pub five_workers : e.workers ≡ 5
    pub on_new : e.tcpserver.newconnectioncb ≡ some handle_new_connection
    pub on_close : e.tcpserver.closecallback ≡ some handle_close
    pub on_error : e.tcpserver.errorcallback ≡ some handle_error
    pub on_message : e.tcpserver.onmessagecallback ≡ some handle_message
    pub on_complete : e.tcpserver.sendcompletecallback ≡ some handle_send_complete

  make-Booted :
      (s t : S) (garbage port : ℕ) (ip : List ℕ) (e : EchoServer)
      → make s garbage ip port 3 5 ≡ ok (e, t)
      → Booted e
  unfolding make setnewconnectioncb setcloseconnectioncb seterrorconnectioncb setonmessagecb
      setsendcompletecb
  make-Booted s t garbage port ip e h =
      let ((v, u), run, rest) =
        >>=-eq-ok (TcpServer.make makes epoll timers sockets inet s garbage ip port 3) _ h in
      let r = make-Ready makes epoll timers sockets inet s u garbage port 3 ip v refl run in
      record {
        base = record {
          same_number = ground (arith, rest, r.same_number);
          loops = ground (arith, rest, r.loops);
          all_run = ground (arith, rest, r.all_run);
          accepting = ground (arith, rest, r.accepting);
          unused = ground (arith, rest, r.unused);
        };
        five_workers = ground (arith, rest);
        on_new = ground (arith, rest);
        on_close = ground (arith, rest);
        on_error = ground (arith, rest);
        on_message = ground (arith, rest);
        on_complete = ground (arith, rest);
      }

  -- If `main` comes to `Start`, it was given an address and a port, and the server has three loops, one for
  -- each IO thread and each given to the pool once, no connection yet, five workers, and each of its
  -- five member functions as the callback of its name.
  pub boot-Booted :
      (argv : List (List ℕ)) (s t : S) (garbage : ℕ) (e : EchoServer)
      → boot argv s garbage ≡ ok (some e, t)
      → Booted e × (length argv ≡ 3)
  unfolding boot
  boot-Booted [] s t garbage e h = absurd (cc)
  boot-Booted (program ∷ []) s t garbage e h = absurd (cc)
  boot-Booted (program ∷ ip ∷ []) s t garbage e h = absurd (cc)
  boot-Booted (program ∷ ip ∷ port ∷ []) s t garbage e h =
      let (number, read, rest) = >>=-eq-ok (atoi port) _ h in
      let ((server, u), run, same) = >>=-eq-ok (make s garbage ip (number % 2 ^ 16) 3 5) _ rest in
      let server_lem : server ≡ e = ground (arith, same) in
      (subst Booted server_lem (make-Booted s u garbage (number % 2 ^ 16) ip server run), refl)
  boot-Booted (program ∷ ip ∷ port ∷ more ∷ argv) s t garbage e h = absurd (cc)

length-map {ℓ κ} : {A : Type ℓ} {B : Type κ} (f : A → B) (l : List A) → length (map f l) ≡ length l
length-map f [] = refl
length-map f (a ∷ l) = ap suc (length-map f l)

-- `EchoServer::Stop`, what it does to the flags of the loops; the two pools are stopped, the workers first.
unfoldable pub stop : EchoServer → EchoServer
stop e = record e { tcpserver = stop_loops e.tcpserver }

-- The signal handler before it deletes the server and ends the process: `Server` is null until `main` has
-- made it.
unfoldable pub handle_signal : Option EchoServer → Result EchoServer
handle_signal none = err undefined
handle_signal (some e) = ok (stop e)

-- The loop was told to stop, and its eventfd has something to read, so that `epoll_wait` returns.
abbrev pub IsTold : EventLoop ServerHandler ℕ → Type 0
IsTold l = (l.stopped ≡ true) × (0 < l.tasks.counter)

stop-IsTold : (l : EventLoop ServerHandler ℕ) → IsTold (EventLoop.stop l)
unfolding EventLoop.stop wakeup
stop-IsTold l = (refl, ground arith)

map-stop-IsTold : (ls : List (EventLoop ServerHandler ℕ)) → All IsTold (map EventLoop.stop ls)
map-stop-IsTold [] = tt
map-stop-IsTold (l ∷ ls) = (stop-IsTold l, map-stop-IsTold ls)

-- A signal after `main` has made the server reaches every loop, the main loop and all others: each has
-- its flag set and its eventfd readable. A signal before that, from the moment when the handler is
-- installed, finds a null pointer, which is undefined.
pub handle_signal_cases :
    (e : EchoServer)
    → ((f : EchoServer) × (handle_signal (some e) ≡ ok f)
        × All IsTold (f.tcpserver.mainloop ∷ f.tcpserver.subloops)
        × (length f.tcpserver.subloops ≡ length e.tcpserver.subloops))
      × (handle_signal none ≡ err undefined)
unfolding handle_signal stop stop_loops
handle_signal_cases e = (
  (
    stop e,
    refl,
    (stop-IsTold e.tcpserver.mainloop, map-stop-IsTold e.tcpserver.subloops),
    length-map EventLoop.stop e.tcpserver.subloops,
  ),
  refl,
)
