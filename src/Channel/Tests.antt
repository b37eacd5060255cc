-- ===== src/Channel/Tests.antt =====
-- Runs of a channel, and instances of its theorems.
use net_module.Base.{ℕ, zero, suc, ◌≡◌, refl, inr, [], ◌∷◌, some, ok, arith, bad_function_call, err}
use net_module.Base.Bits.{bit, bit-zero}
use net_module.Channel.{Channel, make, handle_event, with_reading, with_writing, usset}
use net_module.Channel.Interest.{reading_on, edge, change_all, IsReportable}

-- The callbacks by number: 1 reads, 2 writes, 3 closes, 4 is for errors.
abbrev bound : ℕ → Channel ℕ
bound mask = record (make 5 9 7) {
  revents = mask;
  read_callback = some 1;
  write_callback = some 2;
  close_callback = some 3;
  error_callback = some 4;
}

dispatched :
    (handle_event (bound 0x2001) ≡ ok 3)
    × (handle_event (bound 0x005) ≡ ok 1)
    × (handle_event (bound 0x004) ≡ ok 2)
    × (handle_event (bound 0x018) ≡ ok 4)
unfolding handle_event
dispatched = (refl, refl, refl, refl)

unset_callback : handle_event (make {H = ℕ} 5 9 7) ≡ err bad_function_call
unfolding handle_event
unset_callback = refl

interest_of_a_client : (with_writing (with_reading (usset (bound 0)))).events ≡ 0x8000_0005
unfolding with_writing with_reading usset
interest_of_a_client = refl

-- A hangup (0x010) on a channel that is watched for reading.
hangup-IsReportable : IsReportable (change_all (bound 0) (edge ∷ reading_on ∷ [])).events 0x010
unfolding bit with_reading usset
hangup-IsReportable zero h = absurd (omega arith)
hangup-IsReportable (suc zero) h = absurd (omega arith)
hangup-IsReportable (suc (suc zero)) h = absurd (omega arith)
hangup-IsReportable (suc (suc (suc zero))) h = absurd (omega arith)
hangup-IsReportable (suc (suc (suc (suc zero)))) h = inr (inr refl)
hangup-IsReportable (suc (suc (suc (suc (suc k))))) h = absurd (omega (arith, bit-zero k))
