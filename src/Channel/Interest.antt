-- ===== src/Channel/Interest.antt =====
-- The interest mask of a channel under the calls of Channel.cpp, lines 49 to 71, as a set of digits:
-- 0 is EPOLLIN, 2 EPOLLOUT, 13 EPOLLRDHUP and 31 EPOLLET.
use net_module.Base.{ℕ, ◌<◌, ◌≡◌, refl, ◌⊎◌, List, [], ◌∷◌, arith, ◌==◌, if◌then◌else◌}
use net_module.Base.Bits.{bit, bit-le, bit-bit_and, bit-bit_or, all_below, bit_table}
use net_module.System.{epollin, epollout, epollet}
use net_module.Channel.{
  Channel, call, complement, setrevents, handle_event, with_reading, without_reading, with_writing,
  without_writing, without_all, usset,
}
use net_module.Channel.Dispatch.{handle_event_cases}

bit-epollin : (k : ℕ) → k < 32 → bit k epollin ≡ (if k == 0 then 1 else 0)
unfolding all_below bit
bit-epollin = bit_table epollin (λ k. if k == 0 then 1 else 0) refl

bit-epollout : (k : ℕ) → k < 32 → bit k epollout ≡ (if k == 2 then 1 else 0)
unfolding all_below bit
bit-epollout = bit_table epollout (λ k. if k == 2 then 1 else 0) refl

bit-epollet : (k : ℕ) → k < 32 → bit k epollet ≡ (if k == 31 then 1 else 0)
unfolding all_below bit
bit-epollet = bit_table epollet (λ k. if k == 31 then 1 else 0) refl

bit-not_epollin : (k : ℕ) → k < 32 → bit k (complement epollin) ≡ (if k == 0 then 0 else 1)
unfolding all_below bit
bit-not_epollin = bit_table (complement epollin) (λ k. if k == 0 then 0 else 1) refl

bit-not_epollout : (k : ℕ) → k < 32 → bit k (complement epollout) ≡ (if k == 2 then 0 else 1)
unfolding all_below bit
bit-not_epollout = bit_table (complement epollout) (λ k. if k == 2 then 0 else 1) refl

module _ {H : Type 0} where
  -- Each call sets or clears its own digit of the mask and leaves every other digit alone.
  pub interest_calls :
      (ch : Channel H) (k : ℕ)
      → k < 32
      → (bit k (with_reading ch).events ≡ (if k == 0 then 1 else bit k ch.events))
        × (bit k (without_reading ch).events ≡ (if k == 0 then 0 else bit k ch.events))
        × (bit k (with_writing ch).events ≡ (if k == 2 then 1 else bit k ch.events))
        × (bit k (without_writing ch).events ≡ (if k == 2 then 0 else bit k ch.events))
        × (bit k (usset ch).events ≡ (if k == 31 then 1 else bit k ch.events))
  unfolding with_reading without_reading with_writing without_writing usset
  interest_calls ch k h = (
    ground (arith, bit-bit_or k ch.events epollin, bit-epollin k, bit-le k ch.events),
    ground (
      arith,
      bit-bit_and k ch.events (complement epollin),
      bit-not_epollin k,
      bit-le k ch.events,
    ),
    ground (arith, bit-bit_or k ch.events epollout, bit-epollout k, bit-le k ch.events),
    ground (
      arith,
      bit-bit_and k ch.events (complement epollout),
      bit-not_epollout k,
      bit-le k ch.events,
    ),
    ground (arith, bit-bit_or k ch.events epollet, bit-epollet k, bit-le k ch.events),
  )

-- The calls that change the interest.
pub data InterestCall : Type 0 where
  reading_on reading_off writing_on writing_off all_off edge : InterestCall

module _ {H : Type 0} where
  abbrev pub change : Channel H → InterestCall → Channel H
  change ch reading_on = with_reading ch
  change ch reading_off = without_reading ch
  change ch writing_on = with_writing ch
  change ch writing_off = without_writing ch
  change ch all_off = without_all ch
  change ch edge = usset ch

  abbrev pub change_all : Channel H → List InterestCall → Channel H
  change_all ch [] = ch
  change_all ch (c ∷ cs) = change_all (change ch c) cs

  -- Neither EPOLLPRI nor EPOLLRDHUP is asked for.
  abbrev pub IsPlain : Channel H → Type 0
  IsPlain ch = (bit 1 ch.events ≡ 0) × (bit 13 ch.events ≡ 0)

  pub change-IsPlain : (ch : Channel H) (c : InterestCall) → IsPlain ch → IsPlain (change ch c)
  unfolding without_all bit
  change-IsPlain ch reading_on p =
      ground (arith, interest_calls ch 1 (omega arith), interest_calls ch 13 (omega arith))
  change-IsPlain ch reading_off p =
      ground (arith, interest_calls ch 1 (omega arith), interest_calls ch 13 (omega arith))
  change-IsPlain ch writing_on p =
      ground (arith, interest_calls ch 1 (omega arith), interest_calls ch 13 (omega arith))
  change-IsPlain ch writing_off p =
      ground (arith, interest_calls ch 1 (omega arith), interest_calls ch 13 (omega arith))
  change-IsPlain ch all_off p = (refl, refl)
  change-IsPlain ch edge p =
      ground (arith, interest_calls ch 1 (omega arith), interest_calls ch 13 (omega arith))

  change_all-IsPlain :
      (ch : Channel H) (cs : List InterestCall) → IsPlain ch → IsPlain (change_all ch cs)
  change_all-IsPlain ch [] p = p
  change_all-IsPlain ch (c ∷ cs) p = change_all-IsPlain (change ch c) cs (change-IsPlain ch c p)

-- epoll_ctl(2): a mask that is reported has digits of the interest, EPOLLERR (3) and EPOLLHUP (4).
abbrev pub IsReportable : ℕ → ℕ → Type 0
IsReportable interest mask = (k : ℕ) → bit k mask ≡ 1 → (bit k interest ≡ 1) ⊎ ((k ≡ 3) ⊎ (k ≡ 4))

module _ {H : Type 0} where
  -- On a channel that asks for neither, a mask that the kernel can report never runs the close
  -- callback: EPOLLIN runs the read callback, else EPOLLOUT the write callback, else the error callback
  -- runs, on a hangup too.
  pub plain_event :
      (ch : Channel H) (mask : ℕ)
      → IsPlain ch
      → IsReportable ch.events mask
      → let woken = setrevents ch mask in
        handle_event woken ≡ (
          if bit 0 mask == 1
          then call woken.read_callback
          else if bit 2 mask == 1
          then call woken.write_callback
          else call woken.error_callback)
  unfolding setrevents bit
  plain_event ch mask plain possible = ground (
    arith,
    plain,
    possible 1,
    possible 13,
    bit-le 0 mask,
    bit-le 1 mask,
    bit-le 2 mask,
    bit-le 13 mask,
    handle_event_cases (setrevents ch mask),
  )

  -- After any calls on a channel that started with no interest, a mask that the kernel can report
  -- never runs the close callback: EPOLLIN runs the read callback, else EPOLLOUT the write callback,
  -- else the error callback runs, on a hangup too.
  pub close_callback_unused :
      (ch : Channel H) (cs : List InterestCall) (mask : ℕ)
      → ch.events ≡ 0
      → IsReportable (change_all ch cs).events mask
      → let woken = setrevents (change_all ch cs) mask in
        handle_event woken ≡ (
          if bit 0 mask == 1
          then call woken.read_callback
          else if bit 2 mask == 1
          then call woken.write_callback
          else call woken.error_callback)
  unfolding bit
  close_callback_unused ch cs mask fresh possible =
      plain_event (change_all ch cs) mask (change_all-IsPlain ch cs (rw fresh (refl, refl)))
        possible
