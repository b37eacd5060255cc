-- ===== src/TcpServer/Ownership/TimedOut.antt =====
-- A connection that a loop's timer has taken out of the loop's table, and `removeconn` out of the server's.
use net_module.Base.{
  ℕ, ◌≡◌, sym, ap, ◌∙◌, inl, inr, true, false, some, Result, ok, ◌==◌, ==_iff, get_elem?,
  Bool-cases,
}
use mathlib.Core.Path.{subst}
use net_module.Base.IntMap.{lookup, erase, lookup-erase_same, lookup-erase_other}
use net_module.System.{EpollApi, ClockApi}
use net_module.EventLoop.{EventLoop}
use net_module.Connection.{Connection, get_cfd}
use net_module.TcpServer.{ServerHandler, UserCall, Service, int_rem}
use net_module.TcpServer.Leaving.{IsAloof, Left}
use net_module.TcpServer.Ownership.{is_held, drop, erase_in_loop, IsIn, Descriptors}
use net_module.TcpServer.Ownership.Kept.{Owned, changed-IsIn, IsIn-changed}

module _ {S U K : Type 0} (act : K → UserCall → Service S U K → Result (Service S U K))
    (epoll : EpollApi S) (clock : ClockApi S) (aloof : IsAloof act) where
  -- Only the connection's own descriptor can be closed.
  drop_other :
      (fd fd' address : ℕ) (w : Service S U K) (fds : Descriptors)
      → (fd == fd') ≡ false
      → fds fd' ≡ true
      → drop address fd w fds fd' ≡ true
  unfolding drop
  drop_other fd fd' address w fds other is_open = elim (Bool-cases (is_held address w)) [
    | inl held ↦ rw held is_open
    | inr lost ↦ rw (lost, other) is_open
  ]

  module _ (i fd address : ℕ) (l : EventLoop ServerHandler ℕ) (v w : Service S U K)
      (fds : Descriptors) (there : get_elem? v.server.subloops i ≡ some l)
      (entry : lookup fd l.conns ≡ some address) (left : Left fd (erase_in_loop i l fd v) w)
      (owned : Owned v fds) where
    abbrev k : EventLoop ServerHandler ℕ
    k = record l { conns = erase fd l.conns }

    kept_after :
        (fd' a : ℕ)
        → lookup fd' w.server.conns ≡ some a
        → (j : ℕ) × (int_rem fd' w.server.thread_num ≡ ok j) × IsIn j fd' a w
    unfolding erase_in_loop
    kept_after fd' a found = elim (Bool-cases (fd == fd')) [
      | inl same ↦
          absurd (cc (found, left.gone, ap (λ j. lookup j w.server.conns) ((==_iff fd fd').0 same)))
      | inr other ↦
          let (j, index, here) = owned.kept fd' a (sym (left.others fd' other) ∙ found) in
          (
            j,
            ap (int_rem fd') left.same_threads ∙ index,
            IsIn-changed v w i l k there left.same_loops j fd' a here
                (lookup-erase_other fd fd' l.conns other),
          )
    ]

    before : (j fd' a : ℕ) → IsIn j fd' a w → ((fd == fd') ≡ false) × IsIn j fd' a v
    unfolding erase_in_loop
    before j fd' a here = elim (changed-IsIn v w i l k there left.same_loops j fd' a here) [
      | inl (e, found) ↦ elim (Bool-cases (fd == fd')) [
        | inl same ↦
            let e' = ap (λ n. lookup n (erase fd l.conns)) ((==_iff fd fd').0 same) in
            absurd (cc (found, lookup-erase_same fd l.conns, e'))
        | inr other ↦ (
          other,
          subst (λ n. IsIn n fd' a v) e
              (l, there, sym (lookup-erase_other fd fd' l.conns other) ∙ found),
        )
      ]
      | inr (e, was) ↦ elim (Bool-cases (fd == fd')) [
        | inl same ↦
            let (index, is_open, c) = owned.sound i fd address (l, there, entry) in
            let (index', is_open', c') = owned.sound j fd' a was in
            absurd (
              e (
                cc (
                  index,
                  index',
                  ap (λ n. int_rem n v.server.thread_num) ((==_iff fd fd').0 same),
                )))
        | inr other ↦ (other, was)
      ]
    ]

    sound_after :
        (j fd' a : ℕ)
        → IsIn j fd' a w
        → (int_rem fd' w.server.thread_num ≡ ok j)
          × (drop address fd w fds fd' ≡ true)
          × ((c : Connection ServerHandler) × (lookup a w.memory ≡ some c) × (get_cfd c ≡ fd'))
    unfolding erase_in_loop
    sound_after j fd' a here =
        let (other, was) = before j fd' a here in
        let (index, is_open, (c, stored, socket)) = owned.sound j fd' a was in
        (
          ap (int_rem fd') left.same_threads ∙ index,
          drop_other fd fd' address w fds other is_open,
          (c, ap (lookup a) left.same_memory ∙ stored, socket),
        )

    pub timed_out-Owned : Owned w (drop address fd w fds)
    timed_out-Owned = record { kept = kept_after; sound = sound_after }
