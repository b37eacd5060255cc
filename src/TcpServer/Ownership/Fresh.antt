-- ===== src/TcpServer/Ownership/Fresh.antt =====
-- Over any life of the connections of a server: what its tables have is kept and open, and a new
-- connection finds its descriptor in none of them.
mod Tests
use net_module.Base.{
  ℕ, ◌≡◌, ◌≢◌, refl, ap, ◌∙◌, ◌⊎◌, true, false, none, some, Result, ok, ◌==◌, ==_iff, ==-refl,
  if◌then◌else◌, get_elem?, ℕ_discrete,
}
use net_module.Base.IntMap.{lookup}
use net_module.System.{EpollApi, ClockApi}
use net_module.EventLoop
use net_module.EventLoop.{EventLoop}
use net_module.Connection.{Connection, get_cfd}
use net_module.TcpServer.{ServerHandler, UserCall, Service, closeconnection, errorconnection}
use net_module.TcpServer.Leaving.{IsAloof, Left, removeconn-Left, leaving_cases}
use net_module.TcpServer.Table.{newconnection-Stored, same_end}
use net_module.TcpServer.Ownership.{
  is_held, drop, erase_in_loop, IsIn, Descriptors, closed, Lives, at_start, accepts, closes, fails,
  times_out,
}
use net_module.TcpServer.Ownership.Accepted.{Stored-Owned}
use net_module.TcpServer.Ownership.TimedOut.{timed_out-Owned}
use net_module.TcpServer.Ownership.Kept.{Owned, nowhere, IsIn-same, IsIn-held, Left-Owned}

module _ {S U K : Type 0} (act : K → UserCall → Service S U K → Result (Service S U K))
    (epoll : EpollApi S) (clock : ClockApi S) (aloof : IsAloof act) where
  -- Over every life of a server's connections, from a server on whose tables agree with the open
  -- descriptors, as empty tables do, and for functions of the user that leave the server alone: whatever is
  -- in a table is kept in the table of the loop that its descriptor names, in memory, and its socket is
  -- open, through every close and every timeout.
  pub Lives-Owned :
      {v : Service S U K} {fds : Descriptors}
      → Owned v fds
      → {w : Service S U K} {now : Descriptors} → Lives act epoll clock v fds w now
      → Owned w now
  Lives-Owned owned at_start = owned
  Lives-Owned owned (accepts {w} {now} order x address channel_address sock life shut unused h) =
      Stored-Owned act epoll clock aloof address sock w x now
        (newconnection-Stored act epoll clock aloof order address channel_address sock w x h) unused
        (Lives-Owned owned life)
  Lives-Owned owned (closes {w} {now} x i address conn life there here h) =
      let (u, closed, left) = (leaving_cases act aloof address 0 conn w there).0 in
      Left-Owned i (get_cfd conn) address w x now (same_end act epoll clock aloof closed h left)
        here (Lives-Owned owned life)
  Lives-Owned owned (fails {w} {now} x i address conn life there here h) =
      let (u, failed, left) = (leaving_cases act aloof address 0 conn w there).1 in
      Left-Owned i (get_cfd conn) address w x now (same_end act epoll clock aloof failed h left)
        here (Lives-Owned owned life)
  Lives-Owned owned (times_out {w} {now} x i fd address l life there entry h) =
      let (u, removed, left) = removeconn-Left act aloof fd (erase_in_loop i l fd w) in
      timed_out-Owned act epoll clock aloof i fd address l w x now there entry
        (same_end act epoll clock aloof removed h left) (Lives-Owned owned life)

  -- So a new connection never takes the place of another: over the same lives, a descriptor that is not
  -- open, as one that `accept` returns, has no entry in the table of the server nor in that of any loop.
  pub accepted_nowhere :
      {v : Service S U K} {fds : Descriptors}
      → Owned v fds
      → {w : Service S U K} {now : Descriptors} → Lives act epoll clock v fds w now
      → (fd : ℕ) → now fd ≡ false
      → (lookup fd w.server.conns ≡ none)
        × ((i : ℕ) (l : EventLoop ServerHandler ℕ)
            → get_elem? w.server.subloops i ≡ some l
            → lookup fd l.conns ≡ none)
  accepted_nowhere owned {w} {now} life fd shut = nowhere w now fd (Lives-Owned owned life) shut

  dropped :
      (address fd : ℕ) (fds : Descriptors) (w : Service S U K)
      → is_held address w ≡ true
      → drop address fd w fds ≡ fds
  unfolding drop
  dropped address fd fds w held = rw held refl

  -- What is left of an ended connection that loop `i` keeps.
  pub record Stays (i : ℕ) (conn : Connection ServerHandler) (address : ℕ) (fds : Descriptors)
      (w : Service S U K) : Type 0 where
    pub unlisted : lookup (get_cfd conn) w.server.conns ≡ none
    pub kept : IsIn i (get_cfd conn) address w
    pub remembered : lookup address w.memory ≡ some conn
    pub same_descriptors : drop address (get_cfd conn) w fds ≡ fds

  -- A connection that is closed while its loop keeps it stays, and its socket stays open: the server's
  -- table has no entry for it any more, but that of its loop has, and nothing is destroyed. The same on an
  -- error.
  pub ended-Stays :
      (i address : ℕ) (conn : Connection ServerHandler) (v : Service S U K) (fds : Descriptors)
      → lookup address v.memory ≡ some conn
      → IsIn i (get_cfd conn) address v
      → ((w : Service S U K) × (closeconnection act address v ≡ ok w) × Stays i conn address fds w)
        × ((w : Service S U K) × (errorconnection act address v ≡ ok w)
            × Stays i conn address fds w)
  ended-Stays i address conn v fds there here =
      let (w, closed, left) = (leaving_cases act aloof address 0 conn v there).0 in
      let (x, failed, left') = (leaving_cases act aloof address 0 conn v there).1 in
      ((w, closed, stays w left), (x, failed, stays x left'))
    where
      stays : (w : Service S U K) → Left (get_cfd conn) v w → Stays i conn address fds w
      stays w left =
          let still = IsIn-same v w left.same_loops i (get_cfd conn) address here in
          record {
            unlisted = left.gone;
            kept = still;
            remembered = ap (lookup address) left.same_memory ∙ there;
            same_descriptors =
                dropped address (get_cfd conn) fds w (IsIn-held i (get_cfd conn) address w still);
          }
