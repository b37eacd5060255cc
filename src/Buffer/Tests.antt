-- ===== src/Buffer/Tests.antt =====
-- Runs of the buffer, and instances of its theorems.
use net_module.Base.{
  ℕ, ◌≡◌, refl, List, [], ◌∷◌, ◌++◌, ◌^◌, ◌+◌, take, drop, arith, true, ok, out_of_range, err,
}
use net_module.Buffer.{Buffer, make, append_sep, erase, pick_message, pick_frame}
use net_module.Buffer.Erase.{frame}
use net_module.Buffer.Sound.{pick_message_sound}
use net_module.Buffer.Pick.{refused, pick_message-frame, pick_message-cut}
use net_module.Base.Text.{zeros, length-zeros}
use net_module.Buffer.Overflow.{append_sep_overflow}

abbrev no_stale : ℕ → ℕ
no_stale i = 0

abbrev hello : List ℕ
hello = 104 ∷ 105 ∷ []

abbrev holding : List ℕ → Buffer
holding bytes = record { buf = bytes; sep = 1 }

one_message : append_sep (make 1) hello ≡ holding (2 ∷ 0 ∷ 0 ∷ 0 ∷ 104 ∷ 105 ∷ [])
unfolding append_sep
one_message = refl

picked_back :
    pick_message no_stale (append_sep (make 1) hello) []
    ≡ ok (record { found = true; buffer = make 1; message = hello })
unfolding append_sep pick_message pick_frame
picked_back = refl

half_a_header :
    pick_message no_stale (holding (2 ∷ 0 ∷ [])) hello ≡ refused (holding (2 ∷ 0 ∷ [])) hello
unfolding pick_message pick_frame
half_a_header = refl

erase_past_the_end : erase (holding hello) 3 1 ≡ err out_of_range
unfolding erase
erase_past_the_end = refl

pick_message-frame_example :
    pick_message no_stale (holding (frame hello ++ 7 ∷ [])) []
    ≡ ok (record { found = true; buffer = holding (7 ∷ []); message = hello })
pick_message-frame_example =
    pick_message-frame no_stale (holding (frame hello ++ 7 ∷ [])) [] hello (7 ∷ []) refl
      (omega arith) refl

pick_message-cut_example :
    pick_message no_stale (holding (2 ∷ 0 ∷ 0 ∷ 0 ∷ 104 ∷ [])) []
    ≡ refused (holding (2 ∷ 0 ∷ 0 ∷ 0 ∷ 104 ∷ [])) []
pick_message-cut_example =
    pick_message-cut no_stale (holding (2 ∷ 0 ∷ 0 ∷ 0 ∷ 104 ∷ [])) [] hello
      (2 ∷ 0 ∷ 0 ∷ 0 ∷ 104 ∷ []) (105 ∷ []) refl (λ i. omega arith) (omega arith)
      (record { whole = refl; lacks = omega arith }) refl

pick_message_sound_example : frame hello ++ 7 ∷ [] ≡ frame hello ++ 7 ∷ []
pick_message_sound_example =
    pick_message_sound no_stale (holding (frame hello ++ 7 ∷ [])) []
      (record { found = true; buffer = holding (7 ∷ []); message = hello }) refl (omega arith)
      (omega arith)
      (pick_message-frame no_stale (holding (frame hello ++ 7 ∷ [])) [] hello (7 ∷ []) refl
        (omega arith) refl)
      refl

append_sep_overflow_example :
    pick_message no_stale (append_sep (make 1) (zeros (2 ^ 32 + 2))) []
    ≡ ok (record {
      found = true;
      buffer = record { buf = drop 2 (zeros (2 ^ 32 + 2)); sep = 1 };
      message = take 2 (zeros (2 ^ 32 + 2));
    })
append_sep_overflow_example =
    append_sep_overflow no_stale [] (zeros (2 ^ 32 + 2)) 2 (length-zeros (2 ^ 32 + 2)) (omega arith)
