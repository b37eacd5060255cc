-- ===== src/Connection/Events/Masks.antt =====
-- Delivering messages does not look at the mask of the event.
use net_module.Base.{
  ℕ, zero, suc, ◌≡◌, refl, sym, ◌∙◌, Bool, true, false, List, Option, none, some, ok, ◌>>=◌,
  >>=_congr, map_ok, map_ok->>=, >>=-map_ok,
}
use net_module.System.{ClockApi}
use net_module.Buffer.{Picked, pick_message}
use net_module.Channel.{call}
use net_module.Connection.{Session, Callbacks}
use net_module.Connection.Receive.{with_input, touch, handle_message, deliver}
use net_module.Connection.Events.{with_revents}

module _ {S U C : Type 0} (clock : ClockApi S) (cbs : Callbacks S U C) (stale : S → ℕ → ℕ) where
  -- The user's function for messages does not look at the mask, and leaves it.
  abbrev pub IsMaskBlind : Type 0
  IsMaskBlind =
      (c : C) (ses : Session S U C) (m : List ℕ) (mask : ℕ)
      → cbs.on_message c (with_revents mask ses) m
        ≡ map_ok (with_revents mask) (cbs.on_message c ses m)

  module _ (blind : IsMaskBlind) where
    handle_message-with_revents :
        (ses : Session S U C) (m : List ℕ) (mask : ℕ)
        → handle_message clock cbs (with_revents mask ses) m
          ≡ map_ok (with_revents mask) (handle_message clock cbs ses m)
    unfolding handle_message touch
    handle_message-with_revents ses m mask = called ses.conn.onmessagecallback
      where
        called :
            (o : Option C)
            → (call o >>= λ c. cbs.on_message c (touch clock cbs (with_revents mask ses)) m)
              ≡ map_ok
                  (with_revents mask)
                  (call o >>= λ c. cbs.on_message c (touch clock cbs ses) m)
        called none = refl
        called (some c) = blind c (touch clock cbs ses) m mask

    pub deliver-with_revents :
        (fuel : ℕ) (ss : List ℕ) (ses : Session S U C) (mask : ℕ)
        → deliver clock cbs stale fuel ss (with_revents mask ses)
          ≡ map_ok (with_revents mask) (deliver clock cbs stale fuel ss ses)
    unfolding deliver
    deliver-with_revents zero ss ses mask = refl
    deliver-with_revents (suc fuel) ss ses mask =
        >>=_congr (pick_message (stale ses.sys) ses.conn.input_buffer ss) _ _
          (λ p. picked p (λ t. deliver-with_revents fuel p.message t mask) p.found)
        ∙ sym (
            map_ok->>= (pick_message (stale ses.sys) ses.conn.input_buffer ss) _
              (with_revents mask))
      where
        picked :
            (p : Picked)
            → ((t : Session S U C)
                → deliver clock cbs stale fuel p.message (with_revents mask t)
                  ≡ map_ok (with_revents mask) (deliver clock cbs stale fuel p.message t))
            → (found : Bool)
            → elim found [
              | true ↦ (do
                ses' ←
                    handle_message clock cbs (with_input p.buffer (with_revents mask ses)) p.message
                deliver clock cbs stale fuel p.message ses')
              | false ↦ ok (with_input p.buffer (with_revents mask ses))
            ]
              ≡ map_ok (with_revents mask) (elim found [
                | true ↦ (do
                  ses' ← handle_message clock cbs (with_input p.buffer ses) p.message
                  deliver clock cbs stale fuel p.message ses')
                | false ↦ ok (with_input p.buffer ses)
              ])
        picked p rest true =
            rw (handle_message-with_revents (with_input p.buffer ses) p.message mask) (
              >>=-map_ok (handle_message clock cbs (with_input p.buffer ses) p.message)
                (with_revents mask) (deliver clock cbs stale fuel p.message)
                (deliver clock cbs stale fuel p.message) (with_revents mask) rest)
        picked p rest false = refl
