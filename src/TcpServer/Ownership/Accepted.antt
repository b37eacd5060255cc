-- ===== src/TcpServer/Ownership/Accepted.antt =====
-- A connection that `TcpServer::newconnection` has stored, at an address that no table had before.
use net_module.Base.{
  ℕ, ◌≡◌, refl, sym, ap, ◌∙◌, inl, inr, true, false, some, Result, ok, ◌==◌, ==_iff, get_elem?,
  Bool-cases, arith,
}
use mathlib.Core.Path.{subst}
use net_module.Base.IntMap.{lookup, lookup-insert_same, lookup-insert_other}
use net_module.System.{EpollApi, ClockApi}
use net_module.Socket.{Socket, getfd}
use net_module.EventLoop
use net_module.EventLoop.{EventLoop}
use net_module.Connection.{Connection, get_cfd}
use net_module.TcpServer.{ServerHandler, UserCall, Service, int_rem}
use net_module.TcpServer.Leaving.{IsAloof}
use net_module.TcpServer.Table.{Stored}
use net_module.TcpServer.Affinity.{there_is}
use net_module.TcpServer.Ownership.{is_held, IsIn, Descriptors, opened}
use net_module.TcpServer.Ownership.Kept.{Owned, IsIn-held, changed-IsIn, IsIn-changed, loop_changed}

module _ {S U K : Type 0} (act : K → UserCall → Service S U K → Result (Service S U K))
    (epoll : EpollApi S) (clock : ClockApi S) (aloof : IsAloof act) where
  module _ (address : ℕ) (sock : Socket) (v w : Service S U K) (fds : Descriptors)
      (st : Stored act epoll clock aloof address sock v w) (unused : is_held address v ≡ false)
      (owned : Owned v fds) where
    abbrev fd : ℕ
    fd = getfd sock

    there : get_elem? v.server.subloops st.index ≡ some st.loop
    there = there_is (get_elem? v.server.subloops st.index) st.loop st.loop_lem

    abbrev k : EventLoop ServerHandler ℕ
    k = EventLoop.newconnection st.loop fd address

    still : (j fd' a : ℕ) → (fd == fd') ≡ false → IsIn j fd' a v → IsIn j fd' a w
    unfolding EventLoop.newconnection
    still j fd' a other here =
        IsIn-changed v w st.index st.loop k there st.loops_lem j fd' a here
          (lookup-insert_other fd fd' address st.loop.conns other)

    stored_entry : lookup fd w.server.conns ≡ some address
    stored_entry = ap (lookup fd) st.conns_lem ∙ lookup-insert_same fd address v.server.conns

    new_entry :
        (fd' a : ℕ)
        → (fd == fd') ≡ true
        → lookup fd' w.server.conns ≡ some a
        → lookup fd' k.conns ≡ some a
    unfolding EventLoop.newconnection
    new_entry fd' a same entry =
        let e = (==_iff fd fd').0 same in
        ap (λ j. lookup j k.conns) (sym e)
        ∙ lookup-insert_same fd address st.loop.conns
        ∙ sym stored_entry
        ∙ ap (λ j. lookup j w.server.conns) e
        ∙ entry

    kept_after :
        (fd' a : ℕ)
        → lookup fd' w.server.conns ≡ some a
        → (j : ℕ) × (int_rem fd' w.server.thread_num ≡ ok j) × IsIn j fd' a w
    unfolding EventLoop.newconnection
    kept_after fd' a entry = elim (Bool-cases (fd == fd')) [
      | inl same ↦ (
        st.index,
        ap (λ j. int_rem j w.server.thread_num) (sym ((==_iff fd fd').0 same))
            ∙ ap (int_rem fd) st.threads_lem
            ∙ st.index_lem,
        (k, loop_changed v w st.index st.loop k there st.loops_lem, new_entry fd' a same entry),
      )
      | inr other ↦
          let before : lookup fd' v.server.conns ≡ some a =
            rw⁻¹
              (
                lookup-insert_other fd fd' address v.server.conns other,
                ap (lookup fd') st.conns_lem,
              )
              entry in
          let (j, index, here) = owned.kept fd' a before in
          (j, ap (int_rem fd') st.threads_lem ∙ index, still j fd' a other here)
    ]

    abbrev Sound : ℕ → ℕ → ℕ → Type 0
    Sound j fd' a =
        (int_rem fd' w.server.thread_num ≡ ok j)
        × (opened fd fds fd' ≡ true)
        × ((c : Connection ServerHandler) × (lookup a w.memory ≡ some c) × (get_cfd c ≡ fd'))

    old : (j fd' a : ℕ) → IsIn j fd' a v → Sound j fd' a
    old j fd' a here =
        let (index, is_open, (c, stored, socket)) = owned.sound j fd' a here in
        let elsewhere : (address == a) ≡ false = elim (Bool-cases (address == a)) [
          | inl same ↦ absurd (
              cc (
                IsIn-held j fd' a v here,
                unused,
                ap (λ x. is_held x v) ((==_iff address a).0 same),
              ))
          | inr other ↦ other
        ] in
        (
          ap (int_rem fd') st.threads_lem ∙ index,
          ground (arith, is_open),
          (
            c,
            ap (lookup a) st.memory_lem
                ∙ lookup-insert_other address a st.conn v.memory elsewhere
                ∙ stored,
            socket,
          ),
        )

    new : (fd' a : ℕ) → (fd == fd') ≡ true → lookup fd' k.conns ≡ some a → Sound st.index fd' a
    unfolding EventLoop.newconnection
    new fd' a same entry =
        let e = (==_iff fd fd').0 same in
        let inserted = lookup-insert_same fd address st.loop.conns in
        let here : address ≡ a = cc (inserted, entry) in
        (
          ap (λ j. int_rem j w.server.thread_num) (sym e)
              ∙ ap (int_rem fd) st.threads_lem
              ∙ st.index_lem,
          rw same refl,
          (
            st.conn,
            ap (λ x. lookup x w.memory) (sym here)
                ∙ ap (lookup address) st.memory_lem
                ∙ lookup-insert_same address st.conn v.memory,
            st.socket_lem ∙ e,
          ),
        )

    sound_after : (j fd' a : ℕ) → IsIn j fd' a w → Sound j fd' a
    unfolding EventLoop.newconnection
    sound_after j fd' a here =
        elim (changed-IsIn v w st.index st.loop k there st.loops_lem j fd' a here) [
          | inl (e, entry) ↦
              subst (λ i. Sound i fd' a) e
                (elim (Bool-cases (fd == fd')) [
                  | inl same ↦ new fd' a same entry
                  | inr other ↦ old st.index fd' a (
                    st.loop,
                    there,
                    sym (lookup-insert_other fd fd' address st.loop.conns other) ∙ entry,
                  )
                ])
          | inr (e, before) ↦ old j fd' a before
        ]

    pub Stored-Owned : Owned w (opened (getfd sock) fds)
    Stored-Owned = record { kept = kept_after; sound = sound_after }
