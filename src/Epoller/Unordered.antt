-- ===== src/Epoller/Unordered.antt =====
-- The events of one `epoll_wait` without their order: the kernel reports each channel at most once.
mod Tests
use net_module.Base.{
  ℕ, ◌≡◌, refl, sym, ap, ◌∙◌, true, false, Bool, List, [], ◌∷◌, ◌++◌, Option, none, some, ok, ◌==◌,
  if◌then◌else◌, ==_iff, Bool-cases, inl, inr, map,
}
use mathlib.Core.Quot
use mathlib.Core.Quot.{Quot}
use net_module.Base.IntMap.{lookup}
use net_module.System.{EpollEvent}
use net_module.Channel.{Channel}
use net_module.Epoller.{occurred, loop}
use net_module.Epoller.Wait.{IsLive, mark, marked, loop_cases}

-- Two neighbours, for different channels, in the other order.
pub data Swapped : List EpollEvent → List EpollEvent → Type 0 where
  swapped :
      (front back : List EpollEvent) (e f : EpollEvent)
      → (e.ptr == f.ptr) ≡ false
      → Swapped (front ++ e ∷ f ∷ back) (front ++ f ∷ e ∷ back)

-- What `epoll_wait` reports, whatever the order.
abbrev pub Report : Type 0
Report = Quot Swapped

module _ {H : Type 0} (isset : IsSet H) where
  Channel-set : IsSet (Option (Channel H))
  Channel-set = hlevel

  marked-append :
      (k : ℕ) (es fs : List EpollEvent) (o : Option (Channel H))
      → marked k (es ++ fs) o ≡ marked k fs (marked k es o)
  marked-append k [] fs o = refl
  marked-append k (e ∷ es) fs o = marked-append k es fs (mark k e o)

  mark_comm :
      (k : ℕ) (e f : EpollEvent) (o : Option (Channel H))
      → (e.ptr == f.ptr) ≡ false
      → mark k f (mark k e o) ≡ mark k e (mark k f o)
  mark_comm k e f none other = refl
  mark_comm k e f (some ch) other = elim (Bool-cases (e.ptr == k)) [
    | inl same ↦
        let not_f : (f.ptr == k) ≡ false = elim (Bool-cases (f.ptr == k)) [
          | inl too ↦
              let e_f : e.ptr ≡ f.ptr = (==_iff e.ptr k).0 same ∙ sym ((==_iff f.ptr k).0 too) in
              absurd (cc ((==_iff e.ptr f.ptr).1 e_f, other))
          | inr not ↦ not
        ] in
        rw (same, not_f, same) refl
    | inr not_e ↦ second not_e (f.ptr == k) refl
  ]
    where
      second :
          (e.ptr == k) ≡ false
          → (b : Bool) → (f.ptr == k) ≡ b
          → mark k f (mark k e (some ch)) ≡ mark k e (mark k f (some ch))
      second not_e true is_f = rw (not_e, is_f, not_e) refl
      second not_e false not_f = rw (not_e, not_f, not_e) refl

  marked-Swapped :
      (k : ℕ) (o : Option (Channel H)) (es fs : List EpollEvent)
      → Swapped es fs
      → marked k es o ≡ marked k fs o
  marked-Swapped k o _ _ (swapped front back e f other) =
      marked-append k front (e ∷ f ∷ back) o
      ∙ ap (marked k back) (mark_comm k e f (marked k front o) other)
      ∙ sym (marked-append k front (f ∷ e ∷ back) o)

  -- What stands at an address after a report.
  pub marks : ℕ → Option (Channel H) → Report → Option (Channel H)
  marks k o = Quot.lift Channel-set (λ es. marked k es o) (marked-Swapped k o)

  -- After `Epoller::loop` each channel stands as its report says, for events that lead to channels.
  loop-marks :
      (es : List EpollEvent) (channels : List (ℕ × Channel H))
      → IsLive channels es
      → (after : List (ℕ × Channel H)) × (loop (occurred es) channels
          ≡ ok (map (λ (e : EpollEvent). e.ptr) es, after))
        × ((k : ℕ) → lookup k after ≡ marks k (lookup k channels) (Quot.mk es))
  unfolding marks
  loop-marks es channels live = (loop_cases es channels).0 live

  -- The order in which `epoll_wait` reports does not matter to the channels: two lists of events that are
  -- the same but for their order, with at most one event for each channel that is moved, and that lead to
  -- channels in memory, make `Epoller::loop` return, and leave each channel with the same mask.
  pub loop_same_report :
      (es fs : List EpollEvent) (channels : List (ℕ × Channel H))
      → ◌≡◌ {A = Report} (Quot.mk es) (Quot.mk fs)
      → IsLive channels es
      → IsLive channels fs
      → (a b : List (ℕ × Channel H)) × (loop (occurred es) channels
          ≡ ok (map (λ (e : EpollEvent). e.ptr) es, a))
        × (loop (occurred fs) channels ≡ ok (map (λ (e : EpollEvent). e.ptr) fs, b))
        × ((k : ℕ) → lookup k a ≡ lookup k b)
  loop_same_report es fs channels same live live' =
      let (a, run, at) = loop-marks es channels live in
      let (b, run', at') = loop-marks fs channels live' in
      (a, b, run, run', λ k. at k ∙ ap (marks k (lookup k channels)) same ∙ sym (at' k))
