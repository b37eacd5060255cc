-- ===== src/TcpServer/Leaving.antt =====
-- `closeconnection`, `errorconnection` and `removeconn`: what the end of a connection leaves in the
-- tables.
use net_module.Base.{
  ℕ, ◌≡◌, refl, ap, ◌∙◌, false, Option, none, some, Result, ok, ◌>>=◌, ◌==◌, arith,
}
use net_module.Base.IntMap.{lookup, lookup-erase}
use net_module.Connection.{Connection, get_cfd}
use net_module.TcpServer.{
  ServerHandler, UserCall, on_connection, on_descriptor, TcpServer, Service, call_if_set, without,
  forget, removeconn, errorconnection, closeconnection,
}

-- The functions of the user return, and have no hand in the server and its memory.
abbrev pub IsAloof :
    {S U K : Type 0} → (K → UserCall → Service S U K → Result (Service S U K)) → Type 0
IsAloof {S} {U} {K} act =
    (cb : K) (c : UserCall) (v : Service S U K)
    → (w : Service S U K) × (act cb c v ≡ ok w) × (w.server ≡ v.server) × (w.memory ≡ v.memory)

-- Without descriptor `fd`: the server's table has no entry for it and each other entry, the loops have
-- what they had, entries for the connection too.
pub record Left {S U K : Type 0} (fd : ℕ) (v w : Service S U K) : Type 0 where
  pub gone : lookup fd w.server.conns ≡ none
  pub others : (j : ℕ) → (fd == j) ≡ false → lookup j w.server.conns ≡ lookup j v.server.conns
  pub same_loops : w.server.subloops ≡ v.server.subloops
  pub same_threads : w.server.thread_num ≡ v.server.thread_num
  pub same_memory : w.memory ≡ v.memory

module _ {S U K : Type 0} (act : K → UserCall → Service S U K → Result (Service S U K))
    (aloof : IsAloof act) where
  pub call_returns :
      (o : Option K) (c : UserCall) (v : Service S U K)
      → (w : Service S U K) × (call_if_set act o c v ≡ ok w)
        × (w.server ≡ v.server)
        × (w.memory ≡ v.memory)
  call_returns none c v = (v, refl, refl, refl)
  call_returns (some cb) c v = aloof cb c v

  without-Left :
      (fd : ℕ) (v w : Service S U K)
      → w.server ≡ v.server
      → w.memory ≡ v.memory
      → Left fd v (without act fd w)
  without-Left fd v w same memory = record {
    gone = lookup-erase fd fd w.server.conns ∙ ground arith;
    others = λ j other.
        lookup-erase fd j w.server.conns
        ∙ ground arith
        ∙ ap (λ (s : TcpServer K). lookup j s.conns) same;
    same_loops = ap (λ (s : TcpServer K). s.subloops) same;
    same_threads = ap (λ (s : TcpServer K). s.thread_num) same;
    same_memory = memory;
  }

  called_then_forgotten :
      (o : Option K) (address : ℕ) (conn : Connection ServerHandler) (v : Service S U K)
      → lookup address v.memory ≡ some conn
      → (w : Service S U K) × ((call_if_set act o (on_connection address) v >>= forget act address)
          ≡ ok w)
        × Left (get_cfd conn) v w
  unfolding forget
  called_then_forgotten o address conn v there =
      let (w, run, same, memory) = call_returns o (on_connection address) v in
      let found : lookup address w.memory ≡ some conn = ap (lookup address) memory ∙ there in
      (without act (get_cfd conn) w, rw (run, found), without-Left (get_cfd conn) v w same memory)

  pub removeconn-Left :
      (fd : ℕ) (v : Service S U K)
      → (w : Service S U K) × (removeconn act fd v ≡ ok w) × Left fd v w
  unfolding removeconn
  removeconn-Left fd v =
      let (w, run, same, memory) =
        call_returns v.server.removeconnectioncb (on_descriptor fd) (without act fd v) in
      let l = without-Left fd v v refl refl in
      (
        w,
        run,
        record {
          gone = ap (λ (s : TcpServer K). lookup fd s.conns) same ∙ l.gone;
          others = λ j other. ap (λ (s : TcpServer K). lookup j s.conns) same ∙ l.others j other;
          same_loops = ap (λ (s : TcpServer K). s.subloops) same;
          same_threads = ap (λ (s : TcpServer K). s.thread_num) same;
          same_memory = memory;
        },
      )

  -- After a close, an error or a timeout the server's table has no entry for the descriptor and keeps
  -- all others, whether the user's function is set or not. None of the three touches the table of a
  -- loop: after a close or an error, the loop's own entry for the connection stays.
  pub leaving_cases :
      (address fd : ℕ) (conn : Connection ServerHandler) (v : Service S U K)
      → lookup address v.memory ≡ some conn
      → ((w : Service S U K) × (closeconnection act address v ≡ ok w) × Left (get_cfd conn) v w)
        × ((w : Service S U K) × (errorconnection act address v ≡ ok w) × Left (get_cfd conn) v w)
        × ((w : Service S U K) × (removeconn act fd v ≡ ok w) × Left fd v w)
  unfolding closeconnection errorconnection
  leaving_cases address fd conn v there = (
    called_then_forgotten v.server.closecallback address conn v there,
    called_then_forgotten v.server.errorcallback address conn v there,
    removeconn-Left fd v,
  )
