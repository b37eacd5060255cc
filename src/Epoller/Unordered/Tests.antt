-- ===== src/Epoller/Unordered/Tests.antt =====
-- Two channels are reported in both orders.
use net_module.Base.{ℕ, ◌≡◌, refl, List, [], ◌∷◌, ok}
use mathlib.Core.Quot
use mathlib.Core.Quot.{Quot}
use net_module.Base.IntMap.{lookup}
use net_module.System.{EpollEvent}
use net_module.Channel.{Channel, make}
use net_module.Epoller.{occurred, loop}
use net_module.Epoller.Unordered.{swapped, Report, loop_same_report}

abbrev readable : EpollEvent
readable = record { events = 1; ptr = 5 }

abbrev writable : EpollEvent
writable = record { events = 4; ptr = 6 }

abbrev both : List (ℕ × Channel ℕ)
both = (5, make 5 9 7) ∷ (6, make 6 9 8) ∷ []

either_order :
    ◌≡◌ {A = Report} (Quot.mk (readable ∷ writable ∷ [])) (Quot.mk (writable ∷ readable ∷ []))
either_order = Quot.sound (swapped [] [] readable writable refl)

same_masks :
    (a b : List (ℕ × Channel ℕ)) × (loop (occurred (readable ∷ writable ∷ [])) both
      ≡ ok (5 ∷ 6 ∷ [], a))
    × (loop (occurred (writable ∷ readable ∷ [])) both ≡ ok (6 ∷ 5 ∷ [], b))
    × ((k : ℕ) → lookup k a ≡ lookup k b)
unfolding lookup
same_masks =
    loop_same_report (hlevel) (readable ∷ writable ∷ []) (writable ∷ readable ∷ []) both
      either_order ((_, refl), ((_, refl), tt)) ((_, refl), ((_, refl), tt))
