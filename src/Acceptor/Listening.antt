-- ===== src/Acceptor/Listening.antt =====
-- The acceptor's constructor: it listens where it was told to, or the process ends.
use net_module.Base.{
  ℕ, ◌<◌, ◌^◌, ◌≡◌, refl, sym, ap, ◌∙◌, inl, inr, true, false, List, none, some, arith, OkOrExit,
  >>=-OkOrExit, Bool-cases, Option-cases,
}
use net_module.Base.Word.{is_negative}
use net_module.Base.Bits.{bit}
use net_module.System.{EpollApi, InetApi, InetLaws, SocketApi, SocketLaws, add}
use net_module.InetAddress
use net_module.InetAddress.{of_ip_port, get_addr}
use net_module.Channel
use net_module.Socket
use net_module.Socket.{Socket, getfd, set_ip_port, create_nonblocking, bind, listen}
use net_module.Channel.{Channel, setread_callback, setinepoll, with_reading}
use net_module.Channel.Interest.{interest_calls}
use net_module.Epoller.{enable_reading, update_channel, event_of}
use net_module.Acceptor.{AcceptHandler, new_connection_bound, Acceptor, make, set_options, backlog}

module _ {S : Type 0} (api : SocketApi S) (inet : InetApi) (epoll : EpollApi S)
    (kernel : SocketLaws api epoll) where
  -- An acceptor that is up: the kernel has its socket bound to the address that was asked for, and
  -- accepts connections on it; its socket knows the address, and its channel is registered and watched for
  -- reading, and runs `newConnection`.
  pub record Listening {K : Type 0} (ip : List ℕ) (port : ℕ) (a : Acceptor K) (t : S) : Type 0 where
    pub bound : kernel.bound_to t a.serv_sock.fd ≡ some (get_addr (of_ip_port inet ip port))
    pub listening : kernel.is_listening t a.serv_sock.fd ≡ true
    pub address : a.serv_sock.ip ≡ inet.inet_ntoa (inet.inet_addr ip)
    pub same_port : a.serv_sock.port ≡ port
    pub same_fd : a.accept_channel.fd ≡ a.serv_sock.fd
    pub registered : a.accept_channel.inepoll ≡ true
    pub watched : bit 0 a.accept_channel.events ≡ 1
    pub callback : a.accept_channel.read_callback ≡ some new_connection_bound

module _ {S : Type 0} (api : SocketApi S) (inet : InetApi) (laws : InetLaws inet)
    (epoll : EpollApi S) (kernel : SocketLaws api epoll) where
  create_nonblocking-OkOrExit :
      (s : S) → OkOrExit (λ (r : ℕ × S). Unit {0}) (create_nonblocking api s)
  unfolding create_nonblocking
  create_nonblocking-OkOrExit s = elim (Bool-cases (is_negative (api.socket s).0)) [
    | inl bad ↦ inl (rw bad)
    | inr good ↦ inr (api.socket s, rw good, tt)
  ]

  bind-OkOrExit :
      (s : S) (sock : Socket) (ip : List ℕ) (port : ℕ)
      → port < 2 ^ 16
      → OkOrExit
          (λ (r : Socket × S).
            (r.0 ≡ record sock { ip = inet.inet_ntoa (inet.inet_addr ip); port = port })
            × (kernel.bound_to r.1 sock.fd ≡ some (get_addr (of_ip_port inet ip port))))
          (bind api inet s sock (of_ip_port inet ip port))
  unfolding bind set_ip_port of_ip_port get_addr InetAddress.get_ip InetAddress.get_port
  bind-OkOrExit s sock ip port small =
      elim (Bool-cases (api.bind s sock.fd (get_addr (of_ip_port inet ip port))).0) [
        | inl bound ↦ inr (
          (
            record sock {
              ip = inet.inet_ntoa (inet.inet_addr ip);
              port = inet.ntohs (inet.htons port);
            },
            (api.bind s sock.fd (get_addr (of_ip_port inet ip port))).1,
          ),
          rw bound,
          (
            rw (laws.ntohs-htons port small),
            kernel.bind_lem s sock.fd (get_addr (of_ip_port inet ip port)) bound,
          ),
        )
        | inr refused ↦ inl (rw refused)
      ]

  listen-OkOrExit :
      (s : S) (sock : Socket) (n : ℕ)
      → OkOrExit
          (λ (t : S).
            (kernel.is_listening t sock.fd ≡ true)
            × (kernel.bound_to t sock.fd ≡ kernel.bound_to s sock.fd))
          (listen api s sock n)
  unfolding listen
  listen-OkOrExit s sock n = elim (Bool-cases (api.listen s sock.fd n).0) [
    | inl listening ↦
        inr ((api.listen s sock.fd n).1, rw listening, kernel.listen_lem s sock.fd n listening)
    | inr refused ↦ inl (rw refused)
  ]

  enable_reading-OkOrExit :
      {H : Type 0} (s : S) (ch : Channel H)
      → ch.inepoll ≡ false
      → OkOrExit
          (λ (r : Channel H × S).
            (r.0 ≡ setinepoll (with_reading ch) true)
            × ((j : ℕ)
                → (kernel.is_listening r.1 j ≡ kernel.is_listening s j)
                  × (kernel.bound_to r.1 j ≡ kernel.bound_to s j)))
          (enable_reading epoll s ch)
  unfolding enable_reading update_channel with_reading
  enable_reading-OkOrExit s ch new =
      elim (Option-cases (epoll.ctl s ch.epollfd add ch.fd (event_of epoll (with_reading ch)))) [
        | inl refused ↦ inl (rw (new, refused))
        | inr (t, registered) ↦ inr (
          (setinepoll (with_reading ch) true, t),
          rw (new, registered),
          (refl, λ j. kernel.control_lem s t ch.epollfd ch.fd j add _ registered),
        )
      ]

module _ {S K : Type 0} (api : SocketApi S) (inet : InetApi) (laws : InetLaws inet)
    (epoll : EpollApi S) (kernel : SocketLaws api epoll) where
  -- The constructor either ends the process, at a refused `socket`, `bind`, `listen` or registration,
  -- or leaves an acceptor that listens: the kernel has its socket bound to the address and the port it
  -- was given and accepts connections on it, and its channel, registered and watched for reading, runs
  -- `newConnection`.
  pub make_cases :
      (s : S) (garbage address epollfd : ℕ) (ip : List ℕ) (port : ℕ)
      → port < 2 ^ 16
      → OkOrExit
          (λ (r : Acceptor K × S). Listening api inet epoll kernel ip port r.0 r.1)
          (make api inet epoll s garbage address epollfd ip port)
  unfolding make getfd setread_callback setinepoll with_reading
  make_cases s garbage address epollfd ip port small =
      >>=-OkOrExit _ _ (create_nonblocking api s) _
        (create_nonblocking-OkOrExit api inet laws epoll kernel s)
        λ (fd, s₁) _.
          let sock = Socket.make garbage fd in
          let channel = setread_callback (Channel.make address epollfd fd) new_connection_bound in
          >>=-OkOrExit _ _ (bind api inet (set_options api s₁ sock) sock (of_ip_port inet ip port))
            _
            (bind-OkOrExit api inet laws epoll kernel (set_options api s₁ sock) sock ip port small)
            λ (sock', s₂) (same, bound).
              >>=-OkOrExit _ _ (listen api s₂ sock' backlog) _
                (listen-OkOrExit api inet laws epoll kernel s₂ sock' backlog)
                λ s₃ (listening, bound_still).
                  >>=-OkOrExit _ _ (enable_reading epoll s₃ channel) _
                    (enable_reading-OkOrExit api inet laws epoll kernel s₃ channel refl)
                    λ (channel', s₄) (on, left). inr (
                      (
                        record { serv_sock = sock'; accept_channel = channel'; new_conn_cb = none },
                        s₄,
                      ),
                      refl,
                      record {
                        bound =
                            (left sock'.fd).1
                            ∙ bound_still
                            ∙ ap (λ (k : Socket). kernel.bound_to s₂ k.fd) same
                            ∙ bound;
                        listening = (left sock'.fd).0 ∙ listening;
                        address = ap (λ (k : Socket). k.ip) same;
                        same_port = ap (λ (k : Socket). k.port) same;
                        same_fd =
                            ap (λ (c : Channel AcceptHandler). c.fd) on
                            ∙ sym (ap (λ (k : Socket). k.fd) same);
                        registered = ap (λ (c : Channel AcceptHandler). c.inepoll) on;
                        watched =
                            ap (λ (c : Channel AcceptHandler). bit 0 c.events) on
                            ∙ (interest_calls channel 0 (omega arith)).0;
                        callback = ap (λ (c : Channel AcceptHandler). c.read_callback) on;
                      },
                    )
