-- ===== src/Epoller/Wait.antt =====
-- `Epoller::loop`: which channels come out, and with which masks.
use net_module.Base.{
  ℕ, ◌≡◌, refl, sym, ap, ◌∙◌, true, false, Bool, List, [], ◌∷◌, ◌++◌, Option, none, some, ok, err,
  exit_process, undefined, ◌>>=◌, ◌==◌, if◌then◌else◌, All, map, ==_iff, Bool-cases, inl, inr,
}
use net_module.Base.IntMap.{lookup, insert, lookup-insert}
use net_module.System.{EpollEvent}
use net_module.Channel.{Channel, setrevents}
use net_module.Epoller.{occurred, failed, mark_events, loop}

module _ {H : Type 0} where
  -- Every event points to a channel in memory.
  abbrev pub IsLive : List (ℕ × Channel H) → List EpollEvent → Type 0
  IsLive channels es =
      All (λ (e : EpollEvent). (ch : Channel H) × (lookup e.ptr channels ≡ some ch)) es

  -- What stands at an address after one event.
  abbrev pub mark : ℕ → EpollEvent → Option (Channel H) → Option (Channel H)
  mark k e none = none
  mark k e (some ch) = if e.ptr == k then some (setrevents ch e.events) else some ch

  -- After all events: the mask of the last event for the address, if there is one.
  abbrev pub marked : ℕ → List EpollEvent → Option (Channel H) → Option (Channel H)
  marked k [] o = o
  marked k (e ∷ es) o = marked k es (mark k e o)

  insert-mark :
      (k : ℕ) (e : EpollEvent) (ch : Channel H) (channels : List (ℕ × Channel H))
      → lookup e.ptr channels ≡ some ch
      → lookup k (insert e.ptr (setrevents ch e.events) channels) ≡ mark k e (lookup k channels)
  insert-mark k e ch channels here =
      lookup-insert e.ptr k (setrevents ch e.events) channels ∙ elim (Bool-cases (e.ptr == k)) [
        | inl same ↦
            let there : lookup k channels ≡ some ch =
              ap (λ (j : ℕ). lookup j channels) (sym ((==_iff e.ptr k).0 same)) ∙ here in
            rw (there, same)
        | inr other ↦ rw other (kept other (lookup k channels))
      ]
    where
      kept : (e.ptr == k) ≡ false → (o : Option (Channel H)) → o ≡ mark k e o
      kept other none = refl
      kept other (some c) = rw other

  still-IsLive :
      (e : EpollEvent) (ch : Channel H) (channels : List (ℕ × Channel H)) (es : List EpollEvent)
      → lookup e.ptr channels ≡ some ch
      → IsLive channels es
      → IsLive (insert e.ptr (setrevents ch e.events) channels) es
  still-IsLive e ch channels [] here live = tt
  still-IsLive e ch channels (f ∷ es) here ((c, there), live) =
      (alive, still-IsLive e ch channels es here live)
    where
      marked_there :
          (b : Bool) → (e.ptr == f.ptr) ≡ b → (d : Channel H) × (mark f.ptr e (some c) ≡ some d)
      marked_there true same = (setrevents c e.events, rw same)
      marked_there false other = (c, rw other)

      alive :
          (d : Channel H) × (lookup f.ptr (insert e.ptr (setrevents ch e.events) channels) ≡ some d)
      alive =
          let (d, at) = marked_there (e.ptr == f.ptr) refl in
          (d, insert-mark f.ptr e ch channels here ∙ ap (mark f.ptr e) there ∙ at)

  mark_events_one :
      (e : EpollEvent) (es : List EpollEvent) (ch : Channel H) (channels : List (ℕ × Channel H))
      → lookup e.ptr channels ≡ some ch
      → mark_events (e ∷ es) channels ≡ (
          mark_events es (insert e.ptr (setrevents ch e.events) channels) >>= λ (ptrs, after).
          ok (e.ptr ∷ ptrs, after))
  unfolding mark_events
  mark_events_one e es ch channels here = rw (here, mark_events) refl

  mark_events_live :
      (es : List EpollEvent) (channels : List (ℕ × Channel H))
      → IsLive channels es
      → (after : List (ℕ × Channel H)) × (mark_events es channels
          ≡ ok (map (λ (e : EpollEvent). e.ptr) es, after))
        × ((k : ℕ) → lookup k after ≡ marked k es (lookup k channels))
  unfolding mark_events
  mark_events_live [] channels live = (channels, refl, λ k. refl)
  mark_events_live (e ∷ es) channels ((ch, here), live) =
      let (after, run, marks) =
        mark_events_live es (insert e.ptr (setrevents ch e.events) channels)
          (still-IsLive e ch channels es here live) in
      (
        after,
        mark_events_one e es ch channels here ∙ rw run,
        λ k. marks k ∙ ap (marked k es) (insert-mark k e ch channels here),
      )

  -- The events of `epoll_wait` lead to their channels in order, each of which gets the mask of its
  -- event, and every other channel is as it was; an event for a channel that is gone, behind any
  -- number of live ones, is undefined; and an error of `epoll_wait` ends the process.
  pub loop_cases :
      (es : List EpollEvent) (channels : List (ℕ × Channel H))
      → (IsLive channels es
          → (after : List (ℕ × Channel H)) × (loop (occurred es) channels
              ≡ ok (map (λ (e : EpollEvent). e.ptr) es, after))
            × ((k : ℕ) → lookup k after ≡ marked k es (lookup k channels)))
        × ((dead : EpollEvent) (rest : List EpollEvent)
            → IsLive channels es
            → lookup dead.ptr channels ≡ none
            → loop (occurred (es ++ dead ∷ rest)) channels ≡ err undefined)
        × (loop failed channels ≡ err exit_process)
  unfolding loop mark_events
  loop_cases es channels = (
    mark_events_live es channels,
    λ dead rest live gone. mark_events_dead es channels dead rest live gone,
    refl,
  )
    where
      mark_events_dead :
          (fs : List EpollEvent) (chs : List (ℕ × Channel H)) (dead : EpollEvent)
          (rest : List EpollEvent)
          → IsLive chs fs
          → lookup dead.ptr chs ≡ none
          → mark_events (fs ++ dead ∷ rest) chs ≡ err undefined
      mark_events_dead [] chs dead rest live gone = rw (gone, mark_events) refl
      mark_events_dead (e ∷ fs) chs dead rest ((ch, here), live) gone =
          let after = insert e.ptr (setrevents ch e.events) chs in
          let still_gone : lookup dead.ptr after ≡ none =
            insert-mark dead.ptr e ch chs here ∙ ap (mark dead.ptr e) gone in
          mark_events_one e (fs ++ dead ∷ rest) ch chs here
          ∙ rw (mark_events_dead fs after dead rest (still-IsLive e ch chs fs here live) still_gone)
