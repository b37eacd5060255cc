-- ===== src/Channel/Dispatch.antt =====
-- `Channel::handleEvent`: which callback runs, for every mask; and the interest that a channel has.
use net_module.Base.{◌+◌, ◌≡◌, ◌≢◌, arith}
use net_module.Base.Bits.{bit, bit_and-pow, bit_and_three}
use net_module.Channel.{Channel, call, handle_event}

module _ {H : Type 0} where
  -- `handleEvent` runs one callback, the first that fits in the order close, read, write; a mask
  -- with none of RDHUP (digit 13), IN (0), PRI (1) and OUT (2) is an error.
  pub handle_event_cases :
      (ch : Channel H)
      → (bit 13 ch.revents ≡ 1 → handle_event ch ≡ call ch.close_callback)
        × (bit 13 ch.revents ≡ 0
            → bit 0 ch.revents + bit 1 ch.revents ≢ 0
            → handle_event ch ≡ call ch.read_callback)
        × (bit 13 ch.revents ≡ 0
            → bit 0 ch.revents + bit 1 ch.revents ≡ 0
            → bit 2 ch.revents ≡ 1
            → handle_event ch ≡ call ch.write_callback)
        × (bit 13 ch.revents ≡ 0
            → bit 0 ch.revents + bit 1 ch.revents ≡ 0
            → bit 2 ch.revents ≡ 0
            → handle_event ch ≡ call ch.error_callback)
  unfolding handle_event
  handle_event_cases ch =
      rw (bit_and-pow 13 ch.revents, bit_and_three ch.revents, bit_and-pow 2 ch.revents)
        (λ p. ground arith, λ p q. ground arith, λ p q r. ground arith, λ p q r. ground arith)
