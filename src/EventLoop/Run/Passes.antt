-- ===== src/EventLoop/Run/Passes.antt =====
-- What `EventLoop::run` (src/EventLoop.cpp, lines 77 to 91) does in each of its passes.
use net_module.Base.{
  ℕ, ◌≡◌, refl, sym, ap, ◌∙◌, Bool, true, false, List, [], ◌∷◌, Option, none, some, Result, ok, err,
  undefined, waiting, ◌>>=◌, >>=-eq-ok, >>=_congr, >>=_congr_ok, >>=_assoc, All-map, ◌==◌,
  if◌then◌else◌, All, map, ==_iff, ==-refl, Bool-cases, arith, ◌⊎◌, inl, inr,
}
use net_module.Base.IntMap.{lookup}
use net_module.System.{EpollEvent}
use net_module.Channel.{Channel, setrevents, handle_event}
use net_module.Epoller.{WaitAnswer, occurred, loop}
use net_module.Epoller.Wait.{IsLive, mark, marked, loop_cases}
use net_module.EventLoop.Run.{Running, handle_at, handle_all, pass, run}

-- No two events for one channel, as epoll_wait(2) reports them.
abbrev pub IsDistinct : List EpollEvent → Type 0
IsDistinct [] = Unit
IsDistinct (e ∷ es) = All (λ (f : EpollEvent). (e.ptr == f.ptr) ≡ false) es × IsDistinct es

module _ {H : Type 0} where
  -- A channel that shows the mask of an event.
  abbrev pub Shows : Option (Channel H) → ℕ → Type 0
  Shows o mask = (ch : Channel H) × (o ≡ some ch) × (ch.revents ≡ mask)

  mark_other :
      (k : ℕ) (e : EpollEvent) (o : Option (Channel H)) → (e.ptr == k) ≡ false → mark k e o ≡ o
  mark_other k e none other = refl
  mark_other k e (some ch) other = rw other

  marked_other :
      (k : ℕ) (es : List EpollEvent) (o : Option (Channel H))
      → All (λ (f : EpollEvent). (k == f.ptr) ≡ false) es
      → marked k es o ≡ o
  marked_other k [] o others = refl
  marked_other k (f ∷ es) o (other, others) =
      ap (marked k es) (mark_other k f o (turned (Bool-cases (f.ptr == k))))
      ∙ marked_other k es o others
    where
      turned : ((f.ptr == k) ≡ true) ⊎ ((f.ptr == k) ≡ false) → (f.ptr == k) ≡ false
      turned (inl same) = absurd (cc ((==_iff k f.ptr).1 (sym ((==_iff f.ptr k).0 same)), other))
      turned (inr not) = not

  -- Each event's channel shows its mask once all masks are set.
  marked-Shows :
      (es : List EpollEvent) (channels : List (ℕ × Channel H))
      → IsDistinct es
      → IsLive channels es
      → All (λ (e : EpollEvent). Shows (marked e.ptr es (lookup e.ptr channels)) e.events) es
  unfolding setrevents
  marked-Shows [] channels distinct live = tt
  marked-Shows (e ∷ es) channels (others, distinct) ((ch, here), live) = (
    (
      setrevents ch e.events,
      marked_other e.ptr es (mark e.ptr e (lookup e.ptr channels)) others
          ∙ rw (here, ==-refl e.ptr),
      refl,
    ),
    later es others (marked-Shows es channels distinct live),
  )
    where
      later :
          (fs : List EpollEvent)
          → All (λ (f : EpollEvent). (e.ptr == f.ptr) ≡ false) fs
          → All (λ (f : EpollEvent). Shows (marked f.ptr es (lookup f.ptr channels)) f.events) fs
          → All
              (λ (f : EpollEvent). Shows (marked f.ptr (e ∷ es) (lookup f.ptr channels)) f.events)
              fs
      later [] apart shown = tt
      later (f ∷ fs) (other, apart) ((c, there, mask), shown) = (
        (c, ap (marked f.ptr es) (mark_other f.ptr e (lookup f.ptr channels) other) ∙ there, mask),
        later fs apart shown,
      )

module _ {H K X : Type 0} (handle : H → Running H K X → Result (Running H K X))
    (on_timeout : K → Running H K X → Result (Running H K X)) where
  -- No callback frees a channel that is there or sets its `revents_`.
  abbrev pub KeepsChannels : Type 0
  KeepsChannels =
      (h : H) (r s : Running H K X)
      → handle h r ≡ ok s
      → (k mask : ℕ) → Shows (lookup k r.channels) mask
      → Shows (lookup k s.channels) mask

  -- The callback that fits the mask of the event, on the channel of the event.
  unfoldable pub respond : List EpollEvent → Running H K X → Result (Running H K X)
  respond [] r = ok r
  respond (e ∷ es) r = elim (lookup e.ptr r.channels) [
    | none ↦ err undefined
    | some ch ↦ (do h ← handle_event (setrevents ch e.events); s ← handle h r; respond es s)
  ]

  abbrev Showing : List EpollEvent → Running H K X → Type 0
  Showing es r = All (λ (e : EpollEvent). Shows (lookup e.ptr r.channels) e.events) es

  pub handle_at_there :
      (k : ℕ) (ch : Channel H) (r : Running H K X)
      → lookup k r.channels ≡ some ch
      → handle_at handle on_timeout k r ≡ (handle_event ch >>= λ h. handle h r)
  unfolding handle_at
  handle_at_there k ch r here = rw (here, handle_at) refl

  respond_there :
      (e : EpollEvent) (es : List EpollEvent) (ch : Channel H) (r : Running H K X)
      → lookup e.ptr r.channels ≡ some ch
      → respond (e ∷ es) r
        ≡ (handle_event (setrevents ch e.events) >>= λ h. handle h r >>= respond es)
  unfolding respond
  respond_there e es ch r here = rw (here, respond) refl

  handle_all-respond :
      (es : List EpollEvent) (r : Running H K X)
      → KeepsChannels
      → Showing es r
      → handle_all handle on_timeout (map (λ (e : EpollEvent). e.ptr) es) r ≡ respond es r
  unfolding handle_all respond setrevents
  handle_all-respond [] r keeps shown = refl
  handle_all-respond (e ∷ es) r keeps ((ch, here, mask), shown) =
      ap (λ m. m >>= handle_all handle on_timeout (map (λ (f : EpollEvent). f.ptr) es))
        (handle_at_there e.ptr ch r here)
      ∙ >>=_assoc (handle_event ch) (λ h. handle h r)
          (handle_all handle on_timeout (map (λ (f : EpollEvent). f.ptr) es))
      ∙ ap
          (λ m. handle_event (setrevents ch m) >>= λ h.
            handle h r >>= handle_all handle on_timeout (map (λ (f : EpollEvent). f.ptr) es))
          mask
      ∙ >>=_congr (handle_event (setrevents ch e.events)) _ _ (λ h.
        >>=_congr_ok (handle h r) _ (respond es) (λ s ran.
          handle_all-respond es s keeps
            (All-map _ _ es (λ f. keeps h r s ran f.ptr f.events) shown)))
      ∙ sym (respond_there e es ch r here)

  if_twice :
      {A : Type 0} (b : Bool) (x y : A)
      → (if b then x else y) ≡ (if b then x else if b then x else y)
  if_twice true x y = refl
  if_twice false x y = refl

  -- `run` returns only after it has seen `stop_` set.
  pub run_told :
      (answers : List WaitAnswer) (r s : Running H K X)
      → run handle on_timeout answers r ≡ ok s
      → s.stopped ≡ true
  unfolding run
  run_told [] r s h = ground (arith, h)
  run_told (answer ∷ answers) r s h = seen r.stopped refl h (λ u. run_told answers u s)
    where
      seen :
          (b : Bool)
          → r.stopped ≡ b
          → (if b
              then ok r
              else (loop answer r.channels >>= λ (active, channels).
                  pass handle on_timeout active (record r { channels = channels })
                  >>= run handle on_timeout answers))
            ≡ ok s
          → ((u : Running H K X) → run handle on_timeout answers u ≡ ok s → s.stopped ≡ true)
          → s.stopped ≡ true
      seen true on k later =
          let same : r ≡ s = cc in ap (λ (x : Running H K X). x.stopped) (sym same) ∙ on
      seen false off k later =
          let ((active, channels), waited, k₁) = >>=-eq-ok (loop answer r.channels) _ k in
          let (u, passed, k₂) =
            >>=-eq-ok (pass handle on_timeout active (record r { channels = channels })) _ k₁ in
          later u k₂

  -- Once `stop_` is set, `run` returns whatever `epoll_wait` would say next.
  run_stopped :
      (answers : List WaitAnswer) (r : Running H K X)
      → run handle on_timeout answers r
        ≡ (if r.stopped then ok r else run handle on_timeout answers r)
  unfolding run
  run_stopped [] r = if_twice r.stopped (ok r) (err waiting)
  run_stopped (answer ∷ answers) r = if_twice r.stopped (ok r) _

  if_false : {A : Type 0} (b : Bool) (x y : A) → b ≡ false → (if b then x else y) ≡ y
  if_false b x y off = rw off

  pub run_going :
      (answer : WaitAnswer) (answers : List WaitAnswer) (r : Running H K X)
      → r.stopped ≡ false
      → run handle on_timeout (answer ∷ answers) r ≡ (
          loop answer r.channels >>= λ (active, channels).
          pass handle on_timeout active (record r { channels = channels })
          >>= run handle on_timeout answers)
  unfolding run
  run_going answer answers r going = if_false r.stopped (ok r) _ going

  -- A pass of a loop that was not told to stop, with events, each for another channel in memory, and where no
  -- callback frees a channel or sets its `revents_`: every channel of an event first gets its mask, and
  -- no other does; then, in the order of the events, the callback runs for each that fits the mask of
  -- just this event; and if one of them told the loop to stop, `run` returns after the last one, and
  -- else it goes on with the next pass.
  pub run_pass :
      (e : EpollEvent) (es : List EpollEvent) (answers : List WaitAnswer) (r : Running H K X)
      → r.stopped ≡ false
      → KeepsChannels
      → IsDistinct (e ∷ es)
      → IsLive r.channels (e ∷ es)
      → (shown : List (ℕ × Channel H)) × ((k : ℕ)
          → lookup k shown ≡ marked k (e ∷ es) (lookup k r.channels))
        × (run handle on_timeout (occurred (e ∷ es) ∷ answers) r ≡ (
            respond (e ∷ es) (record r { channels = shown }) >>= λ s.
            if s.stopped then ok s else run handle on_timeout answers s))
  unfolding pass
  run_pass e es answers r going keeps distinct live =
      let (shown, waited, marks) = (loop_cases (e ∷ es) r.channels).0 live in
      let all_shown =
        All-map _ (λ (f : EpollEvent). Shows (lookup f.ptr shown) f.events) (e ∷ es)
          (λ f (ch, there, mask). (ch, marks f.ptr ∙ there, mask))
          (marked-Shows (e ∷ es) r.channels distinct live) in
      (
        shown,
        marks,
        run_going (occurred (e ∷ es)) answers r going
            ∙ ap
                (λ (m : Result (List ℕ × List (ℕ × Channel H))). m >>= λ (active, channels).
                  pass handle on_timeout active (record r { channels = channels })
                  >>= run handle on_timeout answers)
                waited
            ∙ ap (λ m. m >>= run handle on_timeout answers)
                (handle_all-respond (e ∷ es) (record r { channels = shown }) keeps all_shown)
            ∙ >>=_congr (respond (e ∷ es) (record r { channels = shown })) _ _
                (run_stopped answers),
      )
