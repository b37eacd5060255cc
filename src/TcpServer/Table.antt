-- ===== src/TcpServer/Table.antt =====
-- The table of connections over any sequence of comings and goings, against a function from
-- descriptors to connections.
pub mod Tests
use net_module.Base.{
  ℕ, ◌≡◌, sym, ap, ◌∙◌, List, [], ◌∷◌, Option, none, some, Result, ok, ◌>>=◌, >>=-eq-ok, ◌==◌,
  ==_iff, if◌then◌else◌, get_elem?, set_at, Bool-cases, inl, inr,
}
use mathlib.Core.Path.{subst}
use net_module.Base.IntMap.{lookup, insert, lookup-insert}
use net_module.System.{EpollApi, ClockApi}
use net_module.Socket.{Socket, getfd}
use net_module.Connection
use net_module.Connection.{
  Connection, get_cfd, set_onmessage_callback, set_close_callback, set_error_callback,
  set_write_callback,
}
use net_module.EventLoop
use net_module.EventLoop.{EventLoop}
use net_module.TcpServer.{
  ServerHandler, UserCall, Service, TcpServer, int_rem, at_index, call_if_set, bound, newconnection,
  ArgumentOrder, descriptor_first, moved_first, closeconnection, errorconnection, removeconn,
}
use net_module.TcpServer.Joining.{make_socket}
use net_module.TcpServer.Leaving.{IsAloof, Left, call_returns, removeconn-Left, leaving_cases}

-- What happens to the table: a connection, by its address, comes on a descriptor, or one goes.
pub data Change : Type 0 where
  came : ℕ → ℕ → Change
  gone : ℕ → Change

-- The table as a function: the newest change of a descriptor counts.
abbrev pub replay : List Change → ℕ → Option ℕ
replay [] j = none
replay (came fd address ∷ older) j =
    let before = replay older j in if fd == j then some address else before
replay (gone fd ∷ older) j = let before = replay older j in if fd == j then none else before

module _ {S U K : Type 0} (act : K → UserCall → Service S U K → Result (Service S U K))
    (epoll : EpollApi S) (clock : ClockApi S) where
  -- The calls that change the table, in any sequence that returns, the newest change first.
  pub data Serves (v : Service S U K) : List Change → Service S U K → Type 0 where
    at_start : Serves v [] v
    accepts :
        {changes : List Change} {w : Service S U K} (order : ArgumentOrder) (x : Service S U K)
        (address channel_address : ℕ) (sock : Socket)
        → Serves v changes w
        → newconnection act order epoll clock address channel_address sock w ≡ ok x
        → Serves v (came (getfd sock) address ∷ changes) x
    closes :
        {changes : List Change} {w : Service S U K} (x : Service S U K) (address : ℕ)
        (conn : Connection ServerHandler)
        → Serves v changes w
        → lookup address w.memory ≡ some conn
        → closeconnection act address w ≡ ok x
        → Serves v (gone (get_cfd conn) ∷ changes) x
    fails :
        {changes : List Change} {w : Service S U K} (x : Service S U K) (address : ℕ)
        (conn : Connection ServerHandler)
        → Serves v changes w
        → lookup address w.memory ≡ some conn
        → errorconnection act address w ≡ ok x
        → Serves v (gone (get_cfd conn) ∷ changes) x
    times_out :
        {changes : List Change} {w : Service S U K} (x : Service S U K) (fd : ℕ)
        → Serves v changes w
        → removeconn act fd w ≡ ok x
        → Serves v (gone fd ∷ changes) x

  module _ (aloof : IsAloof act) where
    call_keeps :
        (o : Option K) (c : UserCall) (v w : Service S U K)
        → call_if_set act o c v ≡ ok w
        → (w.server ≡ v.server) × (w.memory ≡ v.memory)
    call_keeps o c v w h =
        let (u, run, same, memory) = call_returns act aloof o c v in
        let equal : u ≡ w = cc in
        (
          ap (λ (x : Service S U K). x.server) (sym equal) ∙ same,
          ap (λ (x : Service S U K). x.memory) (sym equal) ∙ memory,
        )

    -- What `newconnection` has stored when it returns.
    pub record Stored (address : ℕ) (sock : Socket) (v w : Service S U K) : Type 0 where
      pub index : ℕ
      pub loop : EventLoop ServerHandler ℕ
      pub index_lem : int_rem (getfd sock) v.server.thread_num ≡ ok index
      pub loop_lem : at_index (get_elem? v.server.subloops index) ≡ ok loop
      pub conns_lem : w.server.conns ≡ insert (getfd sock) address v.server.conns
      pub loops_lem :
          w.server.subloops
          ≡ set_at v.server.subloops index (EventLoop.newconnection loop (getfd sock) address)
      pub threads_lem : w.server.thread_num ≡ v.server.thread_num
      pub conn : Connection ServerHandler
      pub socket_lem : get_cfd conn ≡ getfd sock
      pub memory_lem : w.memory ≡ insert address conn v.memory

    pub newconnection-Stored :
        (order : ArgumentOrder) (address channel_address : ℕ) (sock : Socket) (v w : Service S U K)
        → newconnection act order epoll clock address channel_address sock v ≡ ok w
        → Stored address sock v w
    unfolding newconnection get_cfd set_onmessage_callback set_close_callback set_error_callback
        set_write_callback
    newconnection-Stored moved_first address channel_address sock v w h = absurd (cc)
    newconnection-Stored descriptor_first address channel_address sock v w h =
        let (i, index, h₁) = >>=-eq-ok (int_rem (getfd sock) v.server.thread_num) _ h in
        let (l, there, h₂) = >>=-eq-ok (at_index (get_elem? v.server.subloops i)) _ h₁ in
        let ((conn, s), made, h₃) =
          >>=-eq-ok (Connection.make epoll clock v.sys channel_address l.wake_channel.epollfd sock)
            _ h₂ in
        let (j, again, h₄) = >>=-eq-ok (int_rem (get_cfd conn) v.server.thread_num) _ h₃ in
        let (m, here, h₅) = >>=-eq-ok (at_index (get_elem? v.server.subloops j)) _ h₄ in
        let same : conn.client_sock ≡ sock =
          make_socket epoll clock v.sys s channel_address l.wake_channel.epollfd sock conn made in
        let (kept, remembered) = call_keeps v.server.newconnectioncb _ _ w h₅ in
        record {
          index = j;
          loop = m;
          index_lem = ap (λ (k : Socket). int_rem (getfd k) v.server.thread_num) (sym same) ∙ again;
          loop_lem = here;
          conns_lem =
              ap (λ (t : TcpServer K). t.conns) kept
              ∙ ap (λ (k : Socket). insert (getfd k) address v.server.conns) same;
          loops_lem =
              ap (λ (t : TcpServer K). t.subloops) kept
              ∙ ap
                  (λ (k : Socket).
                    set_at v.server.subloops j (EventLoop.newconnection m (getfd k) address))
                  same;
          threads_lem = ap (λ (t : TcpServer K). t.thread_num) kept;
          conn = bound act conn;
          socket_lem = ap getfd same;
          memory_lem = remembered;
        }

    Left-replay :
        (fd : ℕ) (changes : List Change) (w x : Service S U K)
        → Left fd w x
        → ((j : ℕ) → lookup j w.server.conns ≡ replay changes j)
        → (j : ℕ) → lookup j x.server.conns ≡ replay (gone fd ∷ changes) j
    Left-replay fd changes w x left before j = elim (Bool-cases (fd == j)) [
      | inl same ↦
          let e : fd ≡ j = (==_iff fd j).0 same in
          rw same (ap (λ i. lookup i x.server.conns) (sym e) ∙ left.gone)
      | inr other ↦ rw other (left.others j other ∙ before j)
    ]

    pub same_end :
        {fd : ℕ} {w u x : Service S U K} {run : Result (Service S U K)}
        → run ≡ ok u
        → run ≡ ok x
        → Left fd w u
        → Left fd w x
    same_end {fd} {w} {u} {x} e f left = let equal : u ≡ x = cc in subst (Left fd w) equal left

    -- The table of a server refines a function from descriptors to connections: over every sequence of
    -- connections that are accepted, closed, failed or timed out, in any order and with descriptors that
    -- are used again, from an empty table on and for functions of the user that leave the server alone,
    -- a lookup finds the connection that came last on the descriptor, and none if it has gone since.
    pub conns-replay :
        {v : Service S U K}
        → v.server.conns ≡ []
        → {changes : List Change} {w : Service S U K} → Serves v changes w
        → (j : ℕ) → lookup j w.server.conns ≡ replay changes j
    unfolding lookup
    conns-replay fresh at_start j = ap (lookup j) fresh
    conns-replay fresh
          (accepts {changes = changes} {w = w} order x address channel_address sock run h) j =
        ap (lookup j) (newconnection-Stored order address channel_address sock w x h).conns_lem
        ∙ lookup-insert (getfd sock) j address w.server.conns
        ∙ ap (λ o. if getfd sock == j then some address else o) (conns-replay fresh run j)
    conns-replay fresh (closes {changes = changes} {w = w} x address conn run there h) j =
        let (u, closed, left) = (leaving_cases act aloof address 0 conn w there).0 in
        Left-replay (get_cfd conn) changes w x (same_end closed h left) (conns-replay fresh run) j
    conns-replay fresh (fails {changes = changes} {w = w} x address conn run there h) j =
        let (u, failed, left) = (leaving_cases act aloof address 0 conn w there).1 in
        Left-replay (get_cfd conn) changes w x (same_end failed h left) (conns-replay fresh run) j
    conns-replay fresh (times_out {changes = changes} {w = w} x fd run h) j =
        let (u, removed, left) = removeconn-Left act aloof fd w in
        Left-replay fd changes w x (same_end removed h left) (conns-replay fresh run) j
