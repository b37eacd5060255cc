-- ===== src/Connection/Receive/Ends.antt =====
-- How `onmessageCallback` ends otherwise: with the stream, and not at all.
use net_module.Base.{
  ℕ, zero, suc, ◌+◌, ◌^◌, ◌<◌, ◌≡◌, refl, ap, ◌∙◌, List, [], ◌∷◌, ◌++◌, some, ok, err, waiting,
  arith, length, append_assoc, append-nil,
}
use net_module.System.{EpollApi, ClockApi}
use net_module.Buffer.{append}
use net_module.Buffer.Malformed.{pick_message_negative}
use net_module.Connection.{Session, Callbacks, ReadAnswer, bytes, failed, eintr, other}
use net_module.Connection.Close.{close_callback}
use net_module.Connection.Receive.{with_input, handle_message, deliver, onmessage_callback}
use net_module.Connection.Receive.Deliver.{holding, IsBlind, handle_message-with_input}

-- The answers of `read` during an event in which the peer's end of the stream is seen, and the
-- bytes before it.
pub data LastBurst : List ReadAnswer → List ℕ → Type 0 where
  at_end : {rest : List ReadAnswer} → LastBurst (bytes [] ∷ rest) []
  more :
      {x : ℕ} {xs bs : List ℕ} {rest : List ReadAnswer}
      → LastBurst rest bs
      → LastBurst (bytes (x ∷ xs) ∷ rest) (x ∷ (xs ++ bs))
  interrupted :
      {bs : List ℕ} {rest : List ReadAnswer}
      → LastBurst rest bs
      → LastBurst (failed eintr ∷ rest) bs
  read_past :
      {bs : List ℕ} {rest : List ReadAnswer}
      → LastBurst rest bs
      → LastBurst (failed other ∷ rest) bs

module _ {S U C : Type 0} (epoll : EpollApi S) (clock : ClockApi S) (cbs : Callbacks S U C)
    (stale : S → ℕ → ℕ) where
  -- When the end of the stream is seen in the same event as the last bytes, the connection is closed
  -- at once: whatever messages those bytes complete, none is handled, and they stay in the buffer.
  pub close_drops_messages :
      (fuel : ℕ) {answers : List ReadAnswer} {bs : List ℕ}
      → LastBurst answers bs
      → (front : List ℕ) (ses : Session S U C)
      → onmessage_callback epoll clock cbs stale fuel answers (with_input (holding front) ses)
        ≡ close_callback epoll cbs (with_input (holding (front ++ bs)) ses)
  unfolding onmessage_callback append
  close_drops_messages fuel at_end front ses = rw (append-nil front)
  close_drops_messages fuel (more {x} {xs} {bs} b) front ses =
      close_drops_messages fuel b (front ++ x ∷ xs) ses
      ∙ ap (λ l. close_callback epoll cbs (with_input (holding l) ses))
          (append_assoc front (x ∷ xs) bs)
  close_drops_messages fuel (interrupted b) front ses = close_drops_messages fuel b front ses
  close_drops_messages fuel (read_past b) front ses = close_drops_messages fuel b front ses

module _ {S U C : Type 0} (clock : ClockApi S) (cbs : Callbacks S U C) (stale : S → ℕ → ℕ)
    (blind : IsBlind clock cbs) where
  -- With the header 0xFFFFFFFC at the front of the buffer, and a user's function that always returns,
  -- stays in place and does not reach the buffer, the inner loop runs out of any fuel: it never ends.
  pub deliver_endless :
      (answers : (ses : Session S U C) (m : List ℕ) (c : C)
        → ses.conn.onmessagecallback ≡ some c
        → (t : Session S U C) × (handle_message clock cbs ses m ≡ ok t)
          × (t.conn.onmessagecallback ≡ some c))
      → (fuel : ℕ) (ss r : List ℕ) (ses : Session S U C) (c : C)
      → ses.conn.onmessagecallback ≡ some c
      → length r + 4 < 2 ^ 63
      → deliver clock cbs stale fuel ss (with_input (holding (252 ∷ 255 ∷ 255 ∷ 255 ∷ r)) ses)
        ≡ err waiting
  unfolding deliver
  deliver_endless answers zero ss r ses c set fits = refl
  deliver_endless answers (suc fuel) ss r ses c set fits =
      let full = holding (252 ∷ 255 ∷ 255 ∷ 255 ∷ r) in
      let (t, run, set') = answers ses r c set in
      rw
        (
          pick_message_negative (stale ses.sys) full ss 252 255 255 255 0 r refl refl (omega arith)
              (omega arith) (omega arith),
          handle_message-with_input clock cbs blind ses r full,
          run,
        )
        (deliver_endless answers fuel r r t c set' fits)
