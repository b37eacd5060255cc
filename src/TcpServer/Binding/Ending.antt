-- ===== src/TcpServer/Binding/Ending.antt =====
-- The end of a connection, from its channel to the tables of the server.
use net_module.Base.{
  ℕ, ◌≡◌, refl, sym, ap, ◌∙◌, true, false, Option, none, some, Result, ok, ◌>>=◌, >>=-eq-ok, ◌==◌,
  arith,
}
use net_module.Base.IntMap.{lookup, erase, lookup-insert}
use net_module.System.{EpollApi, EpollLaws, SendApi}
use net_module.Socket.{getfd}
use net_module.Connection.{Session, get_cfd}
use net_module.Connection.Close.{close_callback, error_callback}
use net_module.Connection.Registration.{IsInStep, entry, Disconnected, disconnect-Disconnected}
use net_module.TcpServer.{
  ServerHandler, close_bound, error_bound, UserCall, on_connection, Service, at_index, call_if_set,
  forget, without, closeconnection, errorconnection,
}
use net_module.TcpServer.Leaving.{IsAloof, Left, leaving_cases}
use net_module.TcpServer.Binding.{Outer, as_service, through, bound_callbacks}

module _ {S U K : Type 0} (act : K → UserCall → Service S U K → Result (Service S U K))
    (aloof : IsAloof act) (epoll : EpollApi S) (laws : EpollLaws epoll) (sender : SendApi S)
    (quiet : (cb : K) (c : UserCall) (v w : Service S U K)
      → act cb c v ≡ ok w
      → (ep fd : ℕ) → laws.registered w.sys ep fd ≡ laws.registered v.sys ep fd) where
  call_quiet :
      (o : Option K) (c : UserCall) (v w : Service S U K)
      → call_if_set act o c v ≡ ok w
      → (ep fd : ℕ) → laws.registered w.sys ep fd ≡ laws.registered v.sys ep fd
  call_quiet none c v w h ep fd =
      let same : v ≡ w = cc in ap (λ (x : Service S U K). laws.registered x.sys ep fd) (sym same)
  call_quiet (some cb) c v w h ep fd = quiet cb c v w h ep fd

  forget_quiet : (address : ℕ) (v w : Service S U K) → forget act address v ≡ ok w → w.sys ≡ v.sys
  unfolding forget
  forget_quiet address v w h =
      let (conn, there, e) = >>=-eq-ok (at_index (lookup address v.memory)) _ h in
      let same : without act (get_cfd conn) v ≡ w = cc in
      ap (λ (x : Service S U K). x.sys) (sym same)

  left_quiet :
      (o : Option K) (address : ℕ) (v w : Service S U K)
      → (call_if_set act o (on_connection address) v >>= forget act address) ≡ ok w
      → (ep fd : ℕ) → laws.registered w.sys ep fd ≡ laws.registered v.sys ep fd
  left_quiet o address v w h ep fd =
      let (u, called, forgot) = >>=-eq-ok (call_if_set act o (on_connection address) v) _ h in
      ap (λ (s : S). laws.registered s ep fd) (forget_quiet address u w forgot)
      ∙ call_quiet o (on_connection address) v u called ep fd

  -- What is left of a connection on descriptor `fd` when it has ended.
  pub record Ended (address fd : ℕ) (ses t : Session S (Outer U K) ServerHandler) : Type 0 where
    pub marked : t.conn.dis_connect ≡ true
    pub unregistered : entry epoll laws sender (bound_callbacks act address) t ≡ none
    pub unlisted : lookup fd t.user.server.conns ≡ none
    pub others :
        (j : ℕ) → (fd == j) ≡ false → lookup j t.user.server.conns ≡ lookup j ses.user.server.conns
    pub kept_loops : t.user.server.subloops ≡ ses.user.server.subloops
    pub kept_tasks : t.tasks ≡ ses.tasks

  -- The half of the server: `o` gives the user's function that is called first.
  server_half :
      (o : Service S U K → Option K) (address fd : ℕ) (f : Service S U K → Result (Service S U K))
      (ses m : Session S (Outer U K) ServerHandler)
      → ((v : Service S U K)
          → f v ≡ (call_if_set act (o v) (on_connection address) v >>= forget act address))
      → ((v : Service S U K)
          → lookup address v.memory ≡ some m.conn
          → (w : Service S U K) × (f v ≡ ok w) × Left (get_cfd m.conn) v w)
      → get_cfd m.conn ≡ fd
      → Disconnected epoll laws sender (bound_callbacks act address) ses m
      → (t : Session S (Outer U K) ServerHandler) × (through address f m ≡ ok t)
        × Ended address fd ses t
  server_half o address fd f ses m shape leaves same_fd d =
      let v = as_service address m in
      let there : lookup address v.memory ≡ some m.conn =
        lookup-insert address address m.conn m.user.memory ∙ ground arith in
      let (w, run, left) = leaves v there in
      let still : lookup address w.memory ≡ some m.conn =
        ap (lookup address) left.same_memory ∙ there in
      let quiet_lem = left_quiet (o v) address v w (sym (shape v) ∙ run) in
      (
        record {
          conn = m.conn;
          sys = w.sys;
          user = record { server = w.server; memory = erase address w.memory; user = w.user };
          tasks = m.tasks;
        },
        rw (run, still),
        record {
          marked = d.ended;
          unregistered =
              quiet_lem m.conn.client_channel.epollfd m.conn.client_channel.fd ∙ d.unregistered;
          unlisted = ap (λ i. lookup i w.server.conns) (sym same_fd) ∙ left.gone;
          others = λ j other.
              left.others j (ap (λ i. i == j) same_fd ∙ other)
              ∙ ap (λ (x : Outer U K). lookup j x.server.conns) d.kept_user;
          kept_loops = left.same_loops ∙ ap (λ (x : Outer U K). x.server.subloops) d.kept_user;
          kept_tasks = d.kept_tasks;
        },
      )

  -- A connection with the server's functions as its callbacks, its flag in agreement with the kernel, and
  -- functions of the user that leave the server and epoll alone: the channel's close callback and its
  -- error callback both return, and then the connection is marked as ended, the kernel has forgotten
  -- its descriptor, and the server's table has no entry for it and keeps all others. The tables of the
  -- loops and the queue of its loop are as they were.
  pub ending-Ended :
      (address : ℕ) (ses : Session S (Outer U K) ServerHandler)
      → IsInStep epoll laws sender (bound_callbacks act address) ses
      → ses.conn.closecallback ≡ some close_bound
      → ses.conn.errorcallback ≡ some error_bound
      → ((t : Session S (Outer U K) ServerHandler) × (close_callback epoll
              (bound_callbacks act address)
              ses
            ≡ ok t)
          × Ended address (get_cfd ses.conn) ses t)
        × ((t : Session S (Outer U K) ServerHandler) × (error_callback epoll
                (bound_callbacks act address)
                ses
              ≡ ok t)
            × Ended address (get_cfd ses.conn) ses t)
  unfolding close_callback error_callback get_cfd closeconnection errorconnection
  ending-Ended address ses in_step on_close on_error =
      let (m, run, d) =
        disconnect-Disconnected epoll laws sender (bound_callbacks act address) ses in_step in
      let same_fd : getfd m.conn.client_sock ≡ getfd ses.conn.client_sock =
        ap getfd d.kept_socket in
      let close_lem : m.conn.closecallback ≡ some close_bound = d.kept_close ∙ on_close in
      let error_lem : m.conn.errorcallback ≡ some error_bound = d.kept_error ∙ on_error in
      let (t, closed, t_ended) =
        server_half (λ v. v.server.closecallback) address (get_cfd ses.conn)
          (closeconnection act address) ses m (λ v. refl)
          (λ v there. (leaving_cases act aloof address 0 m.conn v there).0) same_fd d in
      let (u, failed, u_ended) =
        server_half (λ v. v.server.errorcallback) address (get_cfd ses.conn)
          (errorconnection act address) ses m (λ v. refl)
          (λ v there. (leaving_cases act aloof address 0 m.conn v there).1) same_fd d in
      ((t, rw (run, close_lem) closed, t_ended), (u, rw (run, error_lem) failed, u_ended))
