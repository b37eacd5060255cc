-- ===== src/Client/Wire.antt =====
-- What the client has sent when its loop ends, and what the echo server makes of it.
use net_module.Base.{
  ℕ, zero, suc, ◌+◌, ◌^◌, ◌≤◌, ◌<◌, ◌≡◌, sym, ap, ◌∙◌, false, List, ◌++◌, Option, none, some,
  Result, ok, >>=-eq-ok, map_ok-eq-ok, length, take, take_of_length-le, append-nil, append_assoc,
  arith,
}
use net_module.Base.Word.{size_of_int, is_negative}
use net_module.System.{SendApi, SendLaws, PeerApi}
use net_module.Buffer.Erase.{frame}
use net_module.Buffer.Framing.{frames}
use net_module.Client.{text, length_read, receive, collect, round, rounds}
use net_module.Client.Rounds.{length-text, round-sends}
use net_module.Client.Answers.{texts}

module _ {S : Type 0} (sender : SendApi S) (peer : PeerApi S) (stale : S → ℕ)
    (laws : SendLaws sender)
    (recv_keeps : (s : S) (fd n j : ℕ) → laws.wire (peer.recv s fd n).1 j ≡ laws.wire s j)
    (close_keeps : (s : S) (fd j : ℕ) → laws.wire (peer.close s fd) j ≡ laws.wire s j)
    (whole : (s : S) (fd : ℕ) (m : List ℕ)
      → length m < 2 ^ 31
      → (sender.send s fd m).0 ≡ length m) where
  receive-wire :
      (sockfd : ℕ) (s t : S) (played : Option (List ℕ))
      → receive sender peer stale sockfd s ≡ ok (played, t)
      → laws.wire t sockfd ≡ laws.wire s sockfd
  unfolding receive
  receive-wire sockfd s t played h =
      let len = length_read (stale s) (peer.recv s sockfd 4).0 in
      let s₁ = (peer.recv s sockfd 4).1 in
      let s₂ = (peer.recv s₁ sockfd (size_of_int len)).1 in
      ground (
        arith,
        h,
        recv_keeps s sockfd 4 sockfd,
        close_keeps s₁ sockfd sockfd,
        recv_keeps s₁ sockfd (size_of_int len) sockfd,
      )

  sent-wire :
      (sockfd ii : ℕ) (s : S)
      → laws.wire (sender.send s sockfd (frame (text ii))).1 sockfd
        ≡ laws.wire s sockfd ++ frame (text ii)
  sent-wire sockfd ii s =
      let m = frame (text ii) in
      let all : (sender.send s sockfd m).0 ≡ length m =
        whole s sockfd m (omega (arith, length-text ii)) in
      let fine : is_negative (sender.send s sockfd m).0 ≡ false =
        ground (arith, all, length-text ii) in
      laws.sent_lem s sockfd m fine
      ∙ ap (λ l. laws.wire s sockfd ++ l)
          (ap (λ n. take n m) all ∙ take_of_length-le (length m) m (omega arith))

  round-wire :
      (sockfd ii : ℕ) (s t : S) (played : Option (List ℕ))
      → round sender peer stale sockfd ii s ≡ ok (played, t)
      → laws.wire t sockfd ≡ laws.wire s sockfd ++ frame (text ii)
  round-wire sockfd ii s t played h =
      receive-wire sockfd (sender.send s sockfd (frame (text ii))).1 t played
        (sym (round-sends sender peer stale sockfd ii s) ∙ h)
      ∙ sent-wire sockfd ii s

  -- After a loop that read `answers` answers: the frames of the first texts, one of which may have had
  -- no answer.
  pub record Sent (n ii answers : ℕ) (before after : List ℕ) : Type 0 where
    pub count : ℕ
    pub all_answered : answers ≤ count
    pub one_more : count ≤ answers + 1
    pub in_loop : count ≤ n
    pub stream : after ≡ before ++ frames (texts count ii)

  Sent-suc :
      (n ii answers : ℕ) (before middle after : List ℕ) {all : ℕ} {finally : List ℕ}
      → middle ≡ before ++ frame (text ii)
      → Sent n (suc ii) answers middle after
      → suc answers ≡ all
      → after ≡ finally
      → Sent (suc n) ii all before finally
  Sent-suc n ii answers before middle after e sent same_all same_end = record {
    count = suc sent.count;
    all_answered = omega (arith, sent.all_answered);
    one_more = omega (arith, sent.one_more);
    in_loop = omega (arith, sent.in_loop);
    stream =
        sym same_end
        ∙ sent.stream
        ∙ ap (λ l. l ++ frames (texts sent.count (suc ii))) e
        ∙ append_assoc before (frame (text ii)) (frames (texts sent.count (suc ii)));
  }

  -- The loop after one round, by what holds of the rest of the loop.
  collect-Sent :
      (sockfd n ii : ℕ) (s s₁ t : S) (bufs : List (List ℕ)) (rest : Result (List (List ℕ) × S))
      (played : Option (List ℕ))
      → laws.wire s₁ sockfd ≡ laws.wire s sockfd ++ frame (text ii)
      → ((later : List (List ℕ)) (u : S)
          → rest ≡ ok (later, u)
          → Sent n (suc ii) (length later) (laws.wire s₁ sockfd) (laws.wire u sockfd))
      → collect s₁ rest played ≡ ok (bufs, t)
      → Sent (suc n) ii (length bufs) (laws.wire s sockfd) (laws.wire t sockfd)
  collect-Sent sockfd n ii s s₁ t bufs rest none e later h = record {
    count = 1;
    all_answered = ground (arith, h);
    one_more = omega arith;
    in_loop = omega arith;
    stream = ground (arith, h, e, append-nil (frame (text ii)));
  }
  collect-Sent sockfd n ii s s₁ t bufs rest (some buf) e later h =
      let ((front, u), run, same) = map_ok-eq-ok _ rest h in
      Sent-suc n ii (length front) (laws.wire s sockfd) (laws.wire s₁ sockfd) (laws.wire u sockfd) e
        (later front u run) (ap (λ r. length r.0) same) (ap (λ r. laws.wire r.1 sockfd) same)

  -- However its loop ends, at a `break` or after `n` rounds, and whatever the answers were: what the
  -- client has put on the wire is what `appendSep` makes of the texts of the first rounds, in order; at
  -- most one of these had no answer.
  pub rounds-Sent :
      (sockfd n ii : ℕ) (s t : S) (bufs : List (List ℕ))
      → rounds sender peer stale sockfd n ii s ≡ ok (bufs, t)
      → Sent n ii (length bufs) (laws.wire s sockfd) (laws.wire t sockfd)
  unfolding rounds
  rounds-Sent sockfd zero ii s t bufs h = record {
    count = 0;
    all_answered = ground (arith, h);
    one_more = omega arith;
    in_loop = omega arith;
    stream = ground (arith, h, append-nil (laws.wire s sockfd));
  }
  rounds-Sent sockfd (suc n) ii s t bufs h =
      let ((played, s₁), run, rest) = >>=-eq-ok (round sender peer stale sockfd ii s) _ h in
      collect-Sent sockfd n ii s s₁ t bufs (rounds sender peer stale sockfd n (suc ii) s₁) played
        (round-wire sockfd ii s s₁ played run)
        (λ later u e. rounds-Sent sockfd n (suc ii) s₁ u later e) rest
