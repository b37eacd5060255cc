-- ===== src/Connection/Transmit/Write.antt =====
-- `Connection::writeCallback`: what becomes of the output buffer when the kernel takes bytes, and when
-- it takes none.
use net_module.Base.{
  ℕ, zero, suc, ◌^◌, ◌<◌, ◌≡◌, refl, sym, ap, ◌∙◌, true, false, List, [], ◌++◌, Result, ok, ◌>>=◌,
  arith, length, append_assoc, append-nil, take_of_length-le, ==_ne,
}
use net_module.Base.Word.{is_negative, size_of_int}
use net_module.System.{EpollApi, SendApi, SendLaws}
use net_module.Buffer.{contents}
use net_module.Buffer.Erase.{erase_all}
use net_module.Connection.{Session, Callbacks, get_cfd}
use net_module.Connection.Transmit.{with_output, after_send, finish_sending, write_callback}

module _ {S U C : Type 0} (epoll : EpollApi S) (sender : SendApi S) (cbs : Callbacks S U C) where
  -- What `::send` gives a session.
  abbrev pub answer : Session S U C → ℕ × S
  answer ses = sender.send ses.sys (get_cfd ses.conn) (contents ses.conn.output_buffer)

  after_send_taken :
      (n : ℕ) (ses : Session S U C)
      → is_negative n ≡ false
      → after_send epoll sender cbs n ses ≡ ok ses
  unfolding after_send
  after_send_taken n ses h = rw h

  -- The count becomes a `size_t` above 2 ^ 63, so all of the buffer goes.
  after_send_failed :
      (n : ℕ) (ses : Session S U C)
      → is_negative n ≡ true
      → length ses.conn.output_buffer.buf < 2 ^ 63
      → after_send epoll sender cbs n ses
        ≡ ok (with_output (record (ses.conn.output_buffer) { buf = [] }) ses)
  unfolding after_send
  after_send_failed n ses h fits =
      rw (erase_all ses.conn.output_buffer (size_of_int n) (ground arith), h)

  -- After a send that took bytes, all of them or some, the buffer still holds all of them, write
  -- events stay on, and no completion is reported.
  pub write_callback_keeps :
      (ses : Session S U C)
      → 0 < length ses.conn.output_buffer.buf
      → is_negative (answer ses).0 ≡ false
      → write_callback epoll sender cbs ses ≡ ok (record ses { sys = (answer ses).1 })
  unfolding write_callback
  write_callback_keeps ses some_bytes taken = rw (
    after_send_taken (answer ses).0 (record ses { sys = (answer ses).1 }) taken,
    ==_ne (length ses.conn.output_buffer.buf) 0 (omega arith),
  )

  -- After a send that failed, with fewer than 2 ^ 63 bytes pending, these are gone, and completion is
  -- reported.
  pub write_callback_drops :
      (ses : Session S U C)
      → length ses.conn.output_buffer.buf < 2 ^ 63
      → is_negative (answer ses).0 ≡ true
      → write_callback epoll sender cbs ses
        ≡ finish_sending epoll sender cbs (
            with_output
              (record (ses.conn.output_buffer) { buf = [] })
              (record ses { sys = (answer ses).1 }))
  unfolding write_callback
  write_callback_drops ses fits fails =
      rw (after_send_failed (answer ses).0 (record ses { sys = (answer ses).1 }) fails fits)

-- `n` copies of a list.
abbrev pub copies : ℕ → List ℕ → List ℕ
copies zero bytes = []
copies (suc n) bytes = bytes ++ copies n bytes

module _ {S U C : Type 0} (epoll : EpollApi S) (sender : SendApi S) (laws : SendLaws sender)
    (cbs : Callbacks S U C) where
  module _
      (whole : (s : S) (fd : ℕ) (message : List ℕ)
        → length message < 2 ^ 31
        → (sender.send s fd message).0 ≡ length message) where
    -- A write event that sends the whole buffer, which stays.
    pub write_callback_whole :
        (ses : Session S U C)
        → 0 < length ses.conn.output_buffer.buf
        → length ses.conn.output_buffer.buf < 2 ^ 31
        → (write_callback epoll sender cbs ses
            ≡ ok (record ses { sys = (answer epoll sender cbs ses).1 }))
          × (laws.wire (answer epoll sender cbs ses).1 (get_cfd ses.conn)
              ≡ laws.wire ses.sys (get_cfd ses.conn) ++ ses.conn.output_buffer.buf)
    unfolding contents
    write_callback_whole ses some_bytes fits =
        let buf = ses.conn.output_buffer.buf in
        let all = whole ses.sys (get_cfd ses.conn) buf fits in
        let taken : is_negative (answer epoll sender cbs ses).0 ≡ false = rw all (ground arith) in
        (
          write_callback_keeps epoll sender cbs ses some_bytes taken,
          laws.sent_lem ses.sys (get_cfd ses.conn) buf taken
              ∙ ap (◌++◌ (laws.wire ses.sys (get_cfd ses.conn)))
                  (take_of_length-le (answer epoll sender cbs ses).0 buf (omega (arith, all))),
        )

  -- One write event after the other.
  abbrev pub write_events : ℕ → Session S U C → Result (Session S U C)
  write_events zero ses = ok ses
  write_events (suc n) ses = write_callback epoll sender cbs ses >>= write_events n

  -- With pending bytes, fewer than 2 ^ 31, and a kernel that takes every such send whole, each write
  -- event sends the whole buffer once more: after `n` events the peer has `n` copies of it, and the
  -- buffer still holds it.
  pub write_events_repeat :
      (n : ℕ) (ses : Session S U C)
      → 0 < length ses.conn.output_buffer.buf
      → length ses.conn.output_buffer.buf < 2 ^ 31
      → ((s : S) (fd : ℕ) (message : List ℕ)
          → length message < 2 ^ 31
          → (sender.send s fd message).0 ≡ length message)
      → (s : S) × (write_events n ses ≡ ok (record ses { sys = s }))
        × (laws.wire s (get_cfd ses.conn)
            ≡ laws.wire ses.sys (get_cfd ses.conn) ++ copies n ses.conn.output_buffer.buf)
  write_events_repeat zero ses some_bytes fits whole =
      (ses.sys, refl, sym (append-nil (laws.wire ses.sys (get_cfd ses.conn))))
  write_events_repeat (suc n) ses some_bytes fits whole =
      let (once, grown) = write_callback_whole whole ses some_bytes fits in
      let (s, run, sent) =
        write_events_repeat n (record ses { sys = (answer epoll sender cbs ses).1 }) some_bytes fits
          whole in
      let buf = ses.conn.output_buffer.buf in
      (
        s,
        rw once run,
        sent
            ∙ ap (λ l. l ++ copies n buf) grown
            ∙ append_assoc (laws.wire ses.sys (get_cfd ses.conn)) buf (copies n buf),
      )
