-- ===== src/Connection/Receive/Deliver.antt =====
-- The inner loop of `onmessageCallback`: the complete messages of the buffer, each handled once and
-- in order, and the rest kept.
use net_module.Base.{
  ℕ, zero, suc, ◌<◌, ◌≡◌, refl, sym, ◌∙◌, List, [], ◌∷◌, ◌++◌, Option, none, some, Result, ok,
  ◌>>=◌, map_ok, >>=-map_ok, >>=_assoc, >>=_congr, arith, All, length, append_assoc,
}
use net_module.System.{ClockApi}
use net_module.Channel.{call}
use net_module.Buffer.{Buffer, pick_message}
use net_module.Buffer.Erase.{frame}
use net_module.Buffer.Pick.{IsByte, IsFramable, pick_message-frame, pick_message-cut, refused}
use net_module.Buffer.Framing.{frames, IsPending, at_seam, inside}
use net_module.Connection.{Session, Callbacks}
use net_module.Connection.Receive.{with_input, touch, handle_message, deliver}

abbrev pub holding : List ℕ → Buffer
holding bytes = record { buf = bytes; sep = 1 }

-- Nothing that waits is taken for a message.
pub pending_refused :
    (stale : ℕ → ℕ) (ss part : List ℕ) (later : List (List ℕ))
    → ((i : ℕ) → IsByte (stale i))
    → All IsFramable later
    → IsPending part later
    → pick_message stale (holding part) ss ≡ refused (holding part) ss
unfolding pick_message
pending_refused stale ss part later st fit (at_seam e) = rw e
pending_refused stale ss part later st fit (inside m ms missing e cut) =
    pick_message-cut stale (holding part) ss m part missing refl st (framable later fit e) cut refl
  where
    framable : (l : List (List ℕ)) → All IsFramable l → l ≡ m ∷ ms → IsFramable m
    framable [] f e = cc
    framable (n ∷ ns) f e = ground (arith, f)

module _ {S U C : Type 0} (clock : ClockApi S) (cbs : Callbacks S U C) where
  -- `inputBuffer_` is private, and the user's function for messages does not reach it: it acts the
  -- same whatever the buffer holds, and leaves it.
  abbrev pub IsBlind : Type 0
  IsBlind =
      (c : C) (ses : Session S U C) (m : List ℕ) (b : Buffer)
      → cbs.on_message c (with_input b ses) m ≡ map_ok (with_input b) (cbs.on_message c ses m)

  -- Handling messages one after the other, with no buffer in sight.
  abbrev pub serve : List (List ℕ) → Session S U C → Result (Session S U C)
  serve [] ses = ok ses
  serve (m ∷ ms) ses = handle_message clock cbs ses m >>= serve ms

  pub handle_message-with_input :
      IsBlind
      → (ses : Session S U C) (m : List ℕ) (b : Buffer)
      → handle_message clock cbs (with_input b ses) m
        ≡ map_ok (with_input b) (handle_message clock cbs ses m)
  unfolding handle_message
  handle_message-with_input blind ses m b = called ses.conn.onmessagecallback
    where
      called :
          (o : Option C)
          → (call o >>= λ c. cbs.on_message c (touch clock cbs (with_input b ses)) m)
            ≡ map_ok (with_input b) (call o >>= λ c. cbs.on_message c (touch clock cbs ses) m)
      called none = refl
      called (some c) = blind c (touch clock cbs ses) m b

  pub serve-with_input :
      IsBlind
      → (ms : List (List ℕ)) (ses : Session S U C) (b : Buffer)
      → serve ms (with_input b ses) ≡ map_ok (with_input b) (serve ms ses)
  serve-with_input blind [] ses b = refl
  serve-with_input blind (m ∷ ms) ses b = rw (handle_message-with_input blind ses m b) (
      >>=-map_ok (handle_message clock cbs ses m) (with_input b) (serve ms) (serve ms)
        (with_input b) (λ t. serve-with_input blind ms t b))

  pub serve-append :
      (ms ns : List (List ℕ)) (ses : Session S U C)
      → serve (ms ++ ns) ses ≡ (serve ms ses >>= serve ns)
  serve-append [] ns ses = refl
  serve-append (m ∷ ms) ns ses =
      >>=_congr (handle_message clock cbs ses m) _ _ (λ t. serve-append ms ns t)
      ∙ sym (>>=_assoc (handle_message clock cbs ses m) (serve ms) (serve ns))

module _ {S U C : Type 0} (clock : ClockApi S) (cbs : Callbacks S U C) (stale : S → ℕ → ℕ)
    (bytes : (s : S) (i : ℕ) → IsByte (stale s i)) (blind : IsBlind clock cbs) where
  -- With fuel for one round more than there are messages, messages below 2 ^ 31 - 4 bytes, and a user's
  -- function that does not reach the buffer, the loop handles the complete messages of the buffer in
  -- order and stops with what waits behind them.
  pub deliver-serve :
      (ms later : List (List ℕ)) (part : List ℕ) (fuel : ℕ) (ss : List ℕ) (ses : Session S U C)
      → length ms < fuel
      → All IsFramable ms
      → All IsFramable later
      → IsPending part later
      → deliver clock cbs stale fuel ss (with_input (holding (frames ms ++ part)) ses)
        ≡ map_ok (with_input (holding part)) (serve clock cbs ms ses)
  unfolding deliver
  deliver-serve ms later part zero ss ses f fit fits p = absurd (omega arith)
  deliver-serve [] later part (suc fuel) ss ses f fit fits p =
      rw (pending_refused (stale ses.sys) ss part later (bytes ses.sys) fits p)
  deliver-serve (m ∷ ms) later part (suc fuel) ss ses f fit fits p =
      rw
        (
          pick_message-frame (stale ses.sys) (holding (frames (m ∷ ms) ++ part)) ss m
              (frames ms ++ part) refl fit.0 (append_assoc (frame m) (frames ms) part),
          handle_message-with_input clock cbs blind ses m (holding (frames ms ++ part)),
        )
        (>>=-map_ok (handle_message clock cbs ses m) (with_input (holding (frames ms ++ part)))
          (deliver clock cbs stale fuel m) (serve clock cbs ms) (with_input (holding part))
          (λ t. deliver-serve ms later part fuel m t (omega arith) fit.1 fits p))
