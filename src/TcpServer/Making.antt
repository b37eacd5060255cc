-- ===== src/TcpServer/Making.antt =====
-- `TcpServer::TcpServer`: a loop for each thread.
use net_module.Base.{
  ℕ, zero, suc, ◌≡◌, true, false, List, [], ◌∷◌, ok, IfOk, >>=-IfOk, some, if◌then◌else◌, length,
  arith,
}
use net_module.Base.Word.{is_negative}
use net_module.System.{EpollApi, MakeApi, TimerApi, SocketApi, InetApi}
use net_module.EventLoop.{EventLoop}
use net_module.TcpServer.{
  ServerHandler, TcpServer, new_loop, new_subloops, make, newconnection_bound,
}
use net_module.Acceptor
use net_module.Acceptor.{Acceptor, set_new_conn_cb}

module _ {S : Type 0} (makes : MakeApi S) (epoll : EpollApi S) (timers : TimerApi S) where
  -- The numbers from `i` on, `n` of them.
  abbrev pub numbers : ℕ → ℕ → List ℕ
  numbers zero i = []
  numbers (suc n) i = i ∷ numbers n (suc i)

  abbrev Made : ℕ → ℕ → List (EventLoop ServerHandler ℕ) × List ℕ × S → Type 0
  Made n i r = (length r.0 ≡ n) × (r.1 ≡ numbers n i)

  new_subloops-Made : (n i : ℕ) (s : S) → IfOk (Made n i) (new_subloops makes epoll timers n i s)
  unfolding new_subloops
  new_subloops-Made zero i s = λ r h. (ground (arith, h), ground (arith, h))
  new_subloops-Made (suc n) i s =
      >>=-IfOk (Made (suc n) i) (new_loop makes epoll timers s false 5 10) _ λ (l, s₁) made_loop.
        >>=-IfOk (Made (suc n) i) (new_subloops makes epoll timers n (suc i) s₁) _ λ t made r e.
          let m = new_subloops-Made n (suc i) s₁ t made in
          (ground (arith, e, m.0), ground (arith, e, m.1))

  -- A server as it should be before it starts.
  pub record Ready {K : Type 0} (threadnum : ℕ) (v : TcpServer K) : Type 0 where
    pub same_number : v.thread_num ≡ threadnum
    pub loops : length v.subloops ≡ threadnum
    pub all_run : v.to_run ≡ numbers threadnum 0
    pub accepting : v.acceptor.new_conn_cb ≡ some newconnection_bound
    pub unused : v.conns ≡ []

  count : (n : ℕ) → is_negative n ≡ false → (if is_negative n then 0 else n) ≡ n
  count n whole = rw whole

  -- If the constructor returns, then there is a loop for each thread, which is given to the thread
  -- pool once, new connections go to `newconnection`, and there are none yet.
  pub make-Ready :
      {K : Type 0} (sockets : SocketApi S) (inet : InetApi) (s t : S) (garbage port threadnum : ℕ)
      (ip : List ℕ) (v : TcpServer K)
      → is_negative threadnum ≡ false
      → make makes epoll timers sockets inet s garbage ip port threadnum ≡ ok (v, t)
      → Ready threadnum v
  unfolding make set_new_conn_cb
  make-Ready {K} sockets inet s t garbage port threadnum ip v whole =
      >>=-IfOk P (new_loop makes epoll timers s true 10 20) _
        (λ (mainloop, s₁) made.
          >>=-IfOk P
            (Acceptor.make {K = ServerHandler} sockets inet epoll (makes.new s₁).1 garbage
              (makes.new s₁).0 mainloop.wake_channel.epollfd ip port)
            _
            λ (acceptor, s₃) up.
              >>=-IfOk P
                (new_subloops makes epoll timers (if is_negative threadnum then 0 else threadnum) 0
                  s₃)
                _
                λ loops those r e.
                  let m =
                    new_subloops-Made (if is_negative threadnum then 0 else threadnum) 0 s₃ loops
                      those in
                  record {
                    same_number = ground (arith, e);
                    loops = ground (arith, e, m.0, count threadnum whole);
                    all_run = ground (arith, e, m.1, count threadnum whole);
                    accepting = ground (arith, e);
                    unused = ground (arith, e);
                  })
        (v, t)
    where
      P : TcpServer K × S → Type 0
      P r = Ready threadnum r.0
