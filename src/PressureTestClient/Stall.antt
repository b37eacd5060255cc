-- ===== src/PressureTestClient/Stall.antt =====
-- What the write event of the load generator sends, and what its read event makes of an answer.
use net_module.Base.{
  ℕ, ◌^◌, ◌≤◌, ◌<◌, ◌≡◌, refl, ap, ◌∙◌, false, List, [], ◌∷◌, ◌++◌, some, ok, length, append_assoc,
  drop, take, arith,
}
use net_module.Base.Word.{is_negative}
use net_module.Base.Text.{zeros, overwrite}
use net_module.System.{
  EpollApi, EpollLaws, EpollEvent, modify, epollin, SendApi, SendLaws, PeerApi, received,
}
use net_module.Buffer.{make, append, pick_message}
use net_module.Buffer.Erase.{frame}
use net_module.Buffer.Pick.{IsByte, pick_message-cut}
use net_module.PressureTestClient.{recv_message}
use net_module.PressureTestClient.Packing.{sent_one, frame_unread}
use net_module.PressureTestClient.Run.{Generator, running, write_event, read_event}

-- What the server's buffer makes of the byte 36.
one_byte :
    (stale : ℕ → ℕ) (ss : List ℕ)
    → ((i : ℕ) → IsByte (stale i))
    → pick_message stale (append (make 1) (36 ∷ [])) ss
      ≡ ok (record { found = false; buffer = append (make 1) (36 ∷ []); message = ss })
unfolding append
one_byte stale ss bytes =
    pick_message-cut stale (append (make 1) (36 ∷ [])) ss (zeros 36) (36 ∷ [])
      (0 ∷ 0 ∷ 0 ∷ zeros 36) refl bytes (omega arith) (record { whole = refl; lacks = omega arith })
      refl

module _ {S : Type 0} (epoll : EpollApi S) (laws : EpollLaws epoll) (sender : SendApi S)
    (wires : SendLaws sender) (peer : PeerApi S) (object : S → List ℕ)
    (send_keeps : (s : S) (fd : ℕ) (m : List ℕ) (ep j : ℕ)
      → laws.registered (sender.send s fd m).1 ep j ≡ laws.registered s ep j)
    (whole : (s : S) (fd : ℕ) (m : List ℕ) → length m < 2 ^ 31 → (sender.send s fd m).0 ≡ length m)
    (ctl_keeps : (s t : S) (ep fd j : ℕ) (e : EpollEvent)
      → epoll.ctl s ep modify fd e ≡ some t
      → wires.wire t j ≡ wires.wire s j) where
  one_sent :
      (fd : ℕ) (s : S) → wires.wire (sender.send s fd (36 ∷ [])).1 fd ≡ wires.wire s fd ++ 36 ∷ []
  one_sent fd s =
      let all : (sender.send s fd (36 ∷ [])).0 ≡ 1 = whole s fd (36 ∷ []) (omega arith) in
      let fine : is_negative (sender.send s fd (36 ∷ [])).0 ≡ false = rw all in
      wires.sent_lem s fd (36 ∷ []) fine ∙ ap (λ n. wires.wire s fd ++ take n (36 ∷ [])) all

  -- The write event of the load generator, on a socket that is registered, with sends that are taken
  -- whole and at least 36 bytes of memory from the string object on: it puts one byte on the wire, 36,
  -- and then has epoll watch for reading only. A server's
  -- buffer with this byte alone holds no message, whatever stands in the memory behind its text.
  pub write_event-stalls :
      (client_socket epoll_fd : ℕ) (g : Generator S) (e : EpollEvent) (stale : ℕ → ℕ) (ss : List ℕ)
      → laws.registered g.sys epoll_fd client_socket ≡ some e
      → 36 ≤ length (object g.sys)
      → ((i : ℕ) → IsByte (stale i))
      → (t : S) × (write_event epoll sender peer object client_socket epoll_fd g
          ≡ ok (running (record g { sys = t })))
        × (wires.wire t client_socket ≡ wires.wire g.sys client_socket ++ 36 ∷ [])
        × (laws.registered t epoll_fd client_socket
            ≡ some (record { events = epollin; ptr = client_socket }))
        × (pick_message stale (append (make 1) (36 ∷ [])) ss
            ≡ ok (record { found = false; buffer = append (make 1) (36 ∷ []); message = ss }))
  unfolding write_event
  write_event-stalls client_socket epoll_fd g e stale ss there memory bytes =
      let s₁ = (sender.send g.sys client_socket (36 ∷ [])).1 in
      let all : (sender.send g.sys client_socket (36 ∷ [])).0 ≡ 1 =
        whole g.sys client_socket (36 ∷ []) (omega arith) in
      let still : laws.registered s₁ epoll_fd client_socket ≡ some e =
        send_keeps g.sys client_socket (36 ∷ []) epoll_fd client_socket ∙ there in
      let (t, changed) =
        laws.modify_works s₁ epoll_fd client_socket
          (record { events = epollin; ptr = client_socket }) e still in
      (
        t,
        rw (sent_one (object g.sys) 36 (omega arith) (omega arith) memory, all, changed),
        ctl_keeps s₁ t epoll_fd client_socket client_socket _ changed
            ∙ one_sent client_socket g.sys,
        laws.modify_lem s₁ t epoll_fd client_socket _ changed epoll_fd client_socket ∙ ground arith,
        one_byte stale ss bytes,
      )

module _ {S : Type 0} (epoll : EpollApi S) (sender : SendApi S) (peer : PeerApi S)
    (object : S → List ℕ) where
  -- An answer of a server, below 2 ^ 24 bytes and with anything behind it, leads to nothing: the load
  -- generator prints no message for it and waits for the next event, whatever its receive buffer held.
  pub answer_unread :
      (client_socket epoll_fd : ℕ) (g : Generator S) (m behind : List ℕ)
      → length m < 2 ^ 24
      → (peer.recv g.sys client_socket 1024).0 ≡ received (frame m ++ behind)
      → read_event epoll sender peer object client_socket epoll_fd g
        ≡ ok (
            running (record {
              recv_buffer = overwrite (frame m ++ behind) g.recv_buffer;
              printed = g.printed;
              sys = (peer.recv g.sys client_socket 1024).1;
            }))
  unfolding read_event
  answer_unread client_socket epoll_fd g m behind short came =
      let later = drop (length (frame m ++ behind)) g.recv_buffer in
      let unread : recv_message (overwrite (frame m ++ behind) g.recv_buffer) [] ≡ ok (false, []) =
        ap (λ l. recv_message l []) (append_assoc (frame m) behind later)
        ∙ frame_unread m (behind ++ later) [] short in
      rw (came, unread)
