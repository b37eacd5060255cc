-- ===== src/PressureTestClient/Descriptors/Main.antt =====
-- Which descriptors the load generator leaves open (example/PressureTestClient.cpp, lines 48 to 139).
use net_module.Base.{
  ℕ, ◌≡◌, refl, sym, ap, ◌∙◌, false, not, List, Option, none, some, ok, ◌==◌, IfOk, ok-IfOk,
  if-IfOk, if◌then◌else◌,
}
use mathlib.Core.Path.{subst}
use net_module.Base.Word.{minus_one}
use net_module.System.{
  SocketApi, InetApi, EpollApi, add, SockaddrIn, SendApi, PeerApi, PollApi, af_inet,
}
use net_module.PressureTestClient.Run.{
  Generator, started, shut, event_loop, watch, main, server_name,
}
use net_module.PressureTestClient.Descriptors.{
  Table, with_open, after_close, Same, one_back, two_back, DescriptorLaws,
}
use net_module.PressureTestClient.Descriptors.Loop.{shut_both, event_loop-Ended}

module _ {S : Type 0} (epoll : EpollApi S) (sender : SendApi S) (peer : PeerApi S)
    (object : S → List ℕ) (sockets : SocketApi S) (inet : InetApi) (poll : PollApi S)
    (laws : DescriptorLaws epoll sender peer sockets poll) where
  -- What is to be shown of a return of `main`.
  abbrev AsBefore : Table → ℕ × Generator S → Type 0
  AsBefore t r = Same (laws.table r.1.sys) t

  -- The socket is closed where the other descriptor has not been opened.
  socket_closed :
      (socket : ℕ) (t : Table) (x : S)
      → t.is_open socket ≡ false
      → laws.table x ≡ with_open socket t
      → AsBefore t (1, started (peer.close x socket))
  socket_closed socket t x new e =
      subst (λ u. Same u t) (sym (laws.close_lem x socket ∙ ap (after_close socket) e))
        (one_back socket t new)

  -- Both are closed.
  both_closed :
      (socket ep : ℕ) (t : Table) (r : ℕ × Generator S)
      → t.is_open socket ≡ false
      → (with_open socket t).is_open ep ≡ false
      → laws.table r.1.sys ≡ after_close ep (after_close socket (with_open ep (with_open socket t)))
      → AsBefore t r
  both_closed socket ep t r new later e =
      subst (λ u. Same u t) (sym e) (two_back socket ep t new later)

  registered :
      (fuel socket ep : ℕ) (t : Table) (y : S) (o : Option S)
      → t.is_open socket ≡ false
      → (with_open socket t).is_open ep ≡ false
      → laws.table y ≡ with_open ep (with_open socket t)
      → ((z : S) → o ≡ some z → laws.table z ≡ laws.table y)
      → IfOk (AsBefore t) (elim o [
        | none ↦ ok (1, shut peer socket ep (started y))
        | some z ↦ event_loop epoll sender peer object poll socket ep fuel (started z)
      ])
  registered fuel socket ep t y none new later both changed = ok-IfOk (AsBefore t) _ (
      both_closed socket ep t (1, shut peer socket ep (started y)) new later
        (shut_both epoll sender peer object sockets poll laws socket ep _ (started y) both))
  registered fuel socket ep t y (some z) new later both changed = λ r run.
      both_closed socket ep t r new later (
        event_loop-Ended epoll sender peer object sockets poll laws socket ep _ fuel (started z)
          (changed z refl ∙ both) r run)

  watch-AsBefore :
      (fuel socket : ℕ) (t : Table) (x : S)
      → t.is_open socket ≡ false
      → laws.table x ≡ with_open socket t
      → IfOk (AsBefore t) (watch epoll sender peer object poll fuel socket x)
  unfolding watch
  watch-AsBefore fuel socket t x new e =
      let ep = (poll.epoll_create1 x).0 in
      let y = (poll.epoll_create1 x).1 in
      if-IfOk (AsBefore t) (ep == minus_one) _ _
        (λ refused.
          ok-IfOk (AsBefore t) _ (socket_closed socket t y new (laws.create_refused x refused ∙ e)))
        λ opened.
          let (fresh, both) = laws.create_lem x opened in
          registered fuel socket ep t y _ new (ap (λ (u : Table). u.is_open ep) (sym e) ∙ fresh)
            (both ∙ ap (with_open ep) e) λ z h. laws.control_lem y z ep socket add _ h

  connected-AsBefore :
      (fuel socket : ℕ) (t : Table) (x : S) (o : Option ℕ)
      → t.is_open socket ≡ false
      → laws.table x ≡ with_open socket t
      → IfOk (AsBefore t) (elim o [
        | none ↦ ok (1, started (peer.close x socket))
        | some a ↦
            let (connected, y) =
              peer.connect x socket
                (record { sin_family = af_inet; sin_port = inet.htons 9090; s_addr = a }) in
            if not connected
            then ok (1, started (peer.close y socket))
            else watch epoll sender peer object poll fuel socket y
      ])
  connected-AsBefore fuel socket t x none new e =
      ok-IfOk (AsBefore t) _ (socket_closed socket t x new e)
  connected-AsBefore fuel socket t x (some a) new e =
      let name : SockaddrIn = record {
        sin_family = af_inet;
        sin_port = inet.htons 9090;
        s_addr = a;
      } in
      let y = (peer.connect x socket name).1 in
      let still : laws.table y ≡ with_open socket t = laws.connect_lem x socket name ∙ e in
      if-IfOk (AsBefore t) (not (peer.connect x socket name).0) _ _
        (λ refused. ok-IfOk (AsBefore t) _ (socket_closed socket t y new still))
        (λ connected. watch-AsBefore fuel socket t y new still)

  -- Whenever `main` of the load generator returns, from the first failed call of its start to the end of its
  -- loop: the same descriptors are open as before, and no call of `close` was on a descriptor that was not
  -- open, so that each one that `main` has opened is closed, and once.
  pub main_closes :
      (fuel status : ℕ) (s : S) (g : Generator S)
      → main epoll sender peer object sockets inet poll fuel s ≡ ok (status, g)
      → Same (laws.table g.sys) (laws.table s)
  unfolding main
  main_closes fuel status s g run =
      let t = laws.table s in
      let (socket, x) = sockets.socket s in
      if-IfOk (AsBefore t) (socket == minus_one) _ _
        (λ refused. ok-IfOk (AsBefore t) _ (
          subst (λ u. Same u t) (sym (laws.socket_refused s refused))
            (record { open_lem = λ j. refl; strays_lem = refl })))
        (λ there.
          let (new, e) = laws.socket_lem s there in
          connected-AsBefore fuel socket t x (poll.inet_pton server_name) new e)
        (status, g) run
