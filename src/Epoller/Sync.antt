-- ===== src/Epoller/Sync.antt =====
-- The flag `inepoll_` and the kernel's interest list: they agree, and stay so.
use net_module.Base.{
  ℕ, ◌≡◌, refl, ◌⊎◌, inl, inr, Bool, true, false, none, some, arith, Result, ok, err, exit_process,
  if◌then◌else◌, ◌==◌, ◌&&◌, Bool-cases, Option-cases,
}
use net_module.System.{EpollApi, EpollLaws, EpollEvent, add}
use net_module.Channel.{
  Channel, setinepoll, with_reading, without_reading, with_writing, without_writing, without_all,
}
use net_module.Epoller.{
  event_of, update_channel, remove_channel, enable_reading, disable_reading, enable_writing,
  disable_writing, disable_all,
}

module _ {S H : Type 0} (api : EpollApi S) (laws : EpollLaws api) where
  open laws use {registered}

  -- The kernel has the channel with its present mask exactly when the flag says so.
  abbrev pub InSync : S → Channel H → Type 0
  InSync s ch =
      registered s ch.epollfd ch.fd ≡ (if ch.inepoll then some (event_of api ch) else none)

  -- The same but for the mask, as between a change of `events_` and the update.
  abbrev pub IsKnown : S → Channel H → Type 0
  IsKnown s ch =
      (ch.inepoll ≡ false → registered s ch.epollfd ch.fd ≡ none)
      × (ch.inepoll ≡ true → (e : EpollEvent) × (registered s ch.epollfd ch.fd ≡ some e))

  InSync-IsKnown : (s : S) (ch : Channel H) → InSync s ch → IsKnown s ch
  InSync-IsKnown s ch h = (λ off. ground arith, λ on. (event_of api ch, ground arith))

  -- What an update or a removal leaves: the channel in step with the kernel, and every other entry
  -- of every instance as it was.
  pub record Settled (s : S) (ch : Channel H) (flag : Bool) (ch' : Channel H) (t : S) : Type 0 where
    pub flagged : ch' ≡ setinepoll ch flag
    pub in_sync : InSync t ch'
    pub others :
        (ep fd : ℕ)
        → (ch.epollfd == ep && ch.fd == fd) ≡ false
        → registered t ep fd ≡ registered s ep fd

  update_known :
      (s : S) (ch : Channel H)
      → ch.inepoll ≡ true
      → IsKnown s ch
      → (t : S) × (update_channel api s ch ≡ ok (ch, t)) × Settled s ch true ch t
  unfolding update_channel setinepoll
  update_known s ch on known =
      let (e, here) = known.1 on in
      let (t, run) = laws.modify_works s ch.epollfd ch.fd (event_of api ch) e here in
      let after = laws.modify_lem s t ch.epollfd ch.fd (event_of api ch) run in
      (
        t,
        ground arith,
        record {
          flagged = ground arith;
          in_sync = ground (arith, after ch.epollfd ch.fd);
          others = λ ep fd other. ground (arith, after ep fd);
        },
      )

  update_new :
      (s t : S) (ch : Channel H)
      → ch.inepoll ≡ false
      → api.ctl s ch.epollfd add ch.fd (event_of api ch) ≡ some t
      → (update_channel api s ch ≡ ok (setinepoll ch true, t))
        × Settled s ch true (setinepoll ch true) t
  unfolding update_channel setinepoll
  update_new s t ch off run =
      let after = laws.add_lem s t ch.epollfd ch.fd (event_of api ch) run in
      (
        ground arith,
        record {
          flagged = refl;
          in_sync = ground (arith, after ch.epollfd ch.fd);
          others = λ ep fd other. ground (arith, after ep fd);
        },
      )

  update_refused :
      (s : S) (ch : Channel H)
      → ch.inepoll ≡ false
      → api.ctl s ch.epollfd add ch.fd (event_of api ch) ≡ none
      → update_channel api s ch ≡ err exit_process
  unfolding update_channel
  update_refused s ch off run = ground arith

  -- The two ends of an update: settled, or the process ends because the kernel refused to add a
  -- channel that it did not have.
  abbrev pub Updates : S → Channel H → Result (Channel H × S) → Type 0
  Updates s ch r =
      ((ch.inepoll ≡ false) × (r ≡ err exit_process))
      ⊎ ((ch' : Channel H) × (t : S) × (r ≡ ok (ch', t)) × Settled s ch true ch' t)

  pub update_channel-Updates :
      (s : S) (ch : Channel H) → IsKnown s ch → Updates s ch (update_channel api s ch)
  update_channel-Updates s ch known = elim (Bool-cases ch.inepoll) [
    | inl on ↦ let (t, run, settled) = update_known s ch on known in inr (ch, t, run, settled)
    | inr off ↦ elim (Option-cases (api.ctl s ch.epollfd add ch.fd (event_of api ch))) [
      | inl fails ↦ inl (off, update_refused s ch off fails)
      | inr (t, works) ↦
          let (run, settled) = update_new s t ch off works in
          inr (setinepoll ch true, t, run, settled)
    ]
  ]

  -- On a channel whose flag agrees with the kernel, each of the five calls that change the interest
  -- either leaves flag, mask and kernel in step and every other registration alone, or ends the process,
  -- and that only on a first registration.
  pub interest-Updates :
      (s : S) (ch : Channel H)
      → InSync s ch
      → Updates s (with_reading ch) (enable_reading api s ch)
        × Updates s (without_reading ch) (disable_reading api s ch)
        × Updates s (with_writing ch) (enable_writing api s ch)
        × Updates s (without_writing ch) (disable_writing api s ch)
        × Updates s (without_all ch) (disable_all api s ch)
  unfolding enable_reading disable_reading enable_writing disable_writing disable_all with_reading
      without_reading with_writing without_writing without_all
  interest-Updates s ch h =
      let known = InSync-IsKnown s ch h in
      (
        update_channel-Updates s (with_reading ch) known,
        update_channel-Updates s (without_reading ch) known,
        update_channel-Updates s (with_writing ch) known,
        update_channel-Updates s (without_writing ch) known,
        update_channel-Updates s (without_all ch) known,
      )

  -- On a channel whose flag agrees with the kernel, removal never fails: the kernel loses the entry if it had one, and nothing else changes.
  pub remove_channel-Settled :
      (s : S) (ch : Channel H)
      → InSync s ch
      → (ch' : Channel H) × (t : S) × (remove_channel api s ch ≡ ok (ch', t))
        × Settled s ch false ch' t
  unfolding remove_channel setinepoll
  remove_channel-Settled s ch h = elim (Bool-cases ch.inepoll) [
    | inl on ↦
        let nothing : EpollEvent = record { events = 0; ptr = 0 } in
        let (t, run) =
          laws.delete_works s ch.epollfd ch.fd nothing (event_of api ch) (ground arith) in
        let after = laws.delete_lem s t ch.epollfd ch.fd nothing run in
        (
          setinepoll ch false,
          t,
          ground arith,
          record {
            flagged = refl;
            in_sync = ground (arith, after ch.epollfd ch.fd);
            others = λ ep fd other. ground (arith, after ep fd);
          },
        )
    | inr off ↦ (
      ch,
      s,
      ground arith,
      record { flagged = ground arith; in_sync = h; others = λ ep fd other. refl },
    )
  ]

  -- A channel that forgets that it is registered ends the process on its next update, and so does
  -- one that believes so wrongly.
  pub out_of_step_exits :
      (s : S) (ch : Channel H)
      → ((e : EpollEvent)
          → ch.inepoll ≡ false
          → registered s ch.epollfd ch.fd ≡ some e
          → update_channel api s ch ≡ err exit_process)
        × (ch.inepoll ≡ true
            → registered s ch.epollfd ch.fd ≡ none
            → update_channel api s ch ≡ err exit_process)
  unfolding update_channel
  out_of_step_exits s ch = (
    λ e off there. ground (arith, laws.add_again s ch.epollfd ch.fd (event_of api ch) e there),
    λ on missing. ground (arith, laws.modify_missing s ch.epollfd ch.fd (event_of api ch) missing),
  )
