-- ===== src/Simulation.antt =====
-- A small operating system in which the hypotheses about the real one hold; for examples only. Its
-- descriptors never run out, its clock advances with each reading, and its senders take all bytes or
-- none.
pub mod Pipe
use net_module.Base.{
  ℕ, ◌*◌, ◌/◌, ◌%◌, ◌+◌, ◌^◌, ◌<◌, ◌≡◌, refl, sym, ap, Bool, true, false, List, [], ◌∷◌, ◌++◌,
  Option, none, some, arith, ltb, ◌==◌, if◌then◌else◌, length, take, take_of_length-le, ok,
}
use mathlib.Core.Option.{some-injective}
use native.Mathlib.Nat.{le_refl}
use net_module.Base.Word.{is_negative, minus_one}
use net_module.System.{
  PollApi, PeerApi, received, MakeApi, TimerApi, SocketApi, SocketLaws, SockaddrIn, InetApi,
  InetLaws,
}
use net_module.System.{
  EpollEvent, ControlOp, add, modify, delete, EpollApi, EpollLaws, SendApi, SendLaws, ClockApi,
  updated,
}
use net_module.Connection.{Session, Callbacks}

pub record World : Type 0 where
  pub interests : ℕ → ℕ → Option EpollEvent
  pub wire : ℕ → List ℕ
  pub clock : ℕ
  pub names : ℕ → Option SockaddrIn
  pub listeners : ℕ → Bool

abbrev pub quiet_world : World
quiet_world = record {
  interests = λ ep fd. none;
  wire = λ fd. [];
  clock = 1_700_000_000_000_000_000;
  names = λ fd. none;
  listeners = λ fd. false;
}

abbrev pub enter : World → ℕ → ℕ → Option EpollEvent → World
enter w ep fd e = record w { interests = updated w.interests ep fd e }

abbrev pub control : World → ℕ → ControlOp → ℕ → EpollEvent → Option EpollEvent → Option World
control w ep add fd e none = some (enter w ep fd (some e))
control w ep add fd e (some f) = none
control w ep modify fd e none = none
control w ep modify fd e (some f) = some (enter w ep fd (some e))
control w ep delete fd e none = none
control w ep delete fd e (some f) = some (enter w ep fd none)

abbrev pub epoll : EpollApi World
epoll = record { ctl = λ w ep op fd e. control w ep op fd e (w.interests ep fd) }

pub added :
    (w v : World) (ep fd : ℕ) (e : EpollEvent) (o : Option EpollEvent)
    → control w ep add fd e o ≡ some v
    → (ep' fd' : ℕ) → v.interests ep' fd' ≡ updated w.interests ep fd (some e) ep' fd'
added w v ep fd e none h ep' fd' =
    ap (λ (u : World). u.interests ep' fd') (sym (some-injective _ v h))
added w v ep fd e (some f) h ep' fd' = cc

pub modified :
    (w v : World) (ep fd : ℕ) (e : EpollEvent) (o : Option EpollEvent)
    → control w ep modify fd e o ≡ some v
    → (ep' fd' : ℕ) → v.interests ep' fd' ≡ updated w.interests ep fd (some e) ep' fd'
modified w v ep fd e none h ep' fd' = cc
modified w v ep fd e (some f) h ep' fd' =
    ap (λ (u : World). u.interests ep' fd') (sym (some-injective _ v h))

pub deleted :
    (w v : World) (ep fd : ℕ) (e : EpollEvent) (o : Option EpollEvent)
    → control w ep delete fd e o ≡ some v
    → (ep' fd' : ℕ) → v.interests ep' fd' ≡ updated w.interests ep fd none ep' fd'
deleted w v ep fd e none h ep' fd' = cc
deleted w v ep fd e (some f) h ep' fd' =
    ap (λ (u : World). u.interests ep' fd') (sym (some-injective _ v h))

abbrev pub epoll_laws : EpollLaws epoll
epoll_laws = record {
  registered = λ w. w.interests;
  add_lem = λ w v ep fd e h. added w v ep fd e (w.interests ep fd) h;
  add_again = λ w ep fd e f h. ap (control w ep add fd e) h;
  modify_lem = λ w v ep fd e h. modified w v ep fd e (w.interests ep fd) h;
  modify_works = λ w ep fd e f h. (enter w ep fd (some e), ap (control w ep modify fd e) h);
  modify_missing = λ w ep fd e h. ap (control w ep modify fd e) h;
  delete_lem = λ w v ep fd e h. deleted w v ep fd e (w.interests ep fd) h;
  delete_works = λ w ep fd e f h. (enter w ep fd none, ap (control w ep delete fd e) h);
}

abbrev pub clock_api : ClockApi World
clock_api = record { now = λ w. (w.clock, record w { clock = w.clock + 1 }) }

-- Takes everything that an `int` can count.
abbrev pub take_bytes : Bool → World → ℕ → List ℕ → ℕ × World
take_bytes true w fd message =
    (length message, record w { wire = λ j. if fd == j then w.wire j ++ message else w.wire j })
take_bytes false w fd message = (minus_one, w)

abbrev pub open_sender : SendApi World
open_sender = record {
  send = λ w fd message. take_bytes (ltb (length message) (2 ^ 31)) w fd message;
}

-- Takes nothing.
abbrev pub full_sender : SendApi World
full_sender = record { send = λ w fd message. (minus_one, w) }

pub sent :
    (b : Bool) (w : World) (fd : ℕ) (message : List ℕ)
    → is_negative (take_bytes b w fd message).0 ≡ false
    → (take_bytes b w fd message).1.wire fd
      ≡ w.wire fd ++ take (take_bytes b w fd message).0 message
sent true w fd message h =
    rw (take_of_length-le (length message) message (le_refl _)) (ground arith)
sent false w fd message h = cc

pub unsent :
    (b : Bool) (w : World) (fd : ℕ) (message : List ℕ)
    → ltb (length message) (2 ^ 31) ≡ b
    → is_negative (take_bytes b w fd message).0 ≡ true
    → (take_bytes b w fd message).1.wire fd ≡ w.wire fd
unsent true w fd message small h = absurd (ground arith)
unsent false w fd message small h = refl

abbrev pub open_laws : SendLaws open_sender
open_laws = record {
  wire = λ w fd. w.wire fd;
  sent_lem = λ w fd message h. sent (ltb (length message) (2 ^ 31)) w fd message h;
  failed_lem = λ w fd message h. unsent (ltb (length message) (2 ^ 31)) w fd message refl h;
}

pub open_sender-whole :
    (w : World) (fd : ℕ) (message : List ℕ)
    → length message < 2 ^ 31
    → (open_sender.send w fd message).0 ≡ length message
open_sender-whole w fd message h = ground arith

-- A user that keeps every message it is given; the name of a callback is of no account.
abbrev pub Log : Type 0
Log = List (List ℕ)

abbrev pub Logged : Type 0
Logged = Session World Log ℕ

abbrev pub recorder : Callbacks World Log ℕ
recorder = record {
  on_message = λ c ses m. ok (record ses { user = ses.user ++ m ∷ [] });
  on_close = λ c ses. ok ses;
  on_error = λ c ses. ok ses;
  on_send_complete = λ c ses. ok ses;
}

-- Sockets of which the next descriptor is given; each call but `accept4` succeeds.
abbrev pub sockets : {S : Type 0} → ℕ → SocketApi S
sockets next = record {
  socket = λ w. (next, w);
  setsockopt = λ w fd option on. w;
  bind = λ w fd address. (true, w);
  listen = λ w fd n. (true, w);
  accept4 = λ w fd. ((minus_one, record { sin_family = 0; sin_port = 0; s_addr = 0 }), w);
}

-- A little-endian machine; an address is its own text.
abbrev pub inet : InetApi
inet = record {
  htons = λ p. p % 256 * 256 + p / 256;
  ntohs = λ p. p % 256 * 256 + p / 256;
  inet_addr = length;
  inet_ntoa = λ n. n ∷ [];
}

abbrev pub inet_laws : InetLaws inet
inet_laws = record { ntohs-htons = λ port h. omega arith }

-- Descriptors and addresses are numbered from the reading of the clock on.
abbrev pub fresh : World → ℕ × World
fresh w = (w.clock, record w { clock = w.clock + 1 })

abbrev pub makes : MakeApi World
makes = record { new = fresh; epoll_create = fresh }

abbrev pub timers : TimerApi World
timers = record {
  eventfd = fresh;
  timerfd_create = fresh;
  timerfd_settime = λ w fd sec. w;
  time = λ w. (w.clock / 1_000_000_000, w);
}

-- In the small operating system, a peer that says nothing.
abbrev pub silent_peer : PeerApi World
silent_peer = record {
  connect = λ w fd address. (true, w);
  recv = λ w fd n. (received [], w);
  close = λ w fd. w;
}

-- The calls on epoll leave the wire alone, and sends leave epoll alone.
pub control_quiet :
    (w v : World) (ep fd j : ℕ) (op : ControlOp) (e : EpollEvent)
    → control w ep op fd e (w.interests ep fd) ≡ some v
    → v.wire j ≡ w.wire j
control_quiet w v ep fd j op e h = quiet op (w.interests ep fd) h
  where
    quiet :
        (op : ControlOp) (o : Option EpollEvent)
        → control w ep op fd e o ≡ some v
        → v.wire j ≡ w.wire j
    quiet add none h = ap (λ (u : World). u.wire j) (sym (some-injective _ v h))
    quiet add (some f) h = absurd (cc)
    quiet modify none h = absurd (cc)
    quiet modify (some f) h = ap (λ (u : World). u.wire j) (sym (some-injective _ v h))
    quiet delete none h = absurd (cc)
    quiet delete (some f) h = ap (λ (u : World). u.wire j) (sym (some-injective _ v h))

pub take_bytes-interests :
    (b : Bool) (w : World) (fd : ℕ) (message : List ℕ) (ep j : ℕ)
    → (take_bytes b w fd message).1.interests ep j ≡ w.interests ep j
take_bytes-interests true w fd message ep j = refl
take_bytes-interests false w fd message ep j = refl

-- Each address can be read, and epoll_wait fails.
abbrev pub polls : PollApi World
polls = record {
  inet_pton = λ name. some 1;
  epoll_create1 = fresh;
  epoll_wait = λ w ep n. (none, w);
}

-- Sockets that are bound and listen; new ones have the given number.
abbrev pub listening_sockets : ℕ → SocketApi World
listening_sockets next = record {
  socket = λ w. (next, w);
  setsockopt = λ w fd option on. w;
  bind =
      λ w fd address. (true, record w { names = λ j. if fd == j then some address else w.names j });
  listen = λ w fd n. (true, record w { listeners = λ j. if fd == j then true else w.listeners j });
  accept4 = λ w fd. ((minus_one, record { sin_family = 0; sin_port = 0; s_addr = 0 }), w);
}

pub control_leaves :
    (w v : World) (ep fd j : ℕ) (op : ControlOp) (e : EpollEvent)
    → control w ep op fd e (w.interests ep fd) ≡ some v
    → (v.listeners j ≡ w.listeners j) × (v.names j ≡ w.names j)
control_leaves w v ep fd j op e h = leaves op (w.interests ep fd) h
  where
    same : (u : World) → some u ≡ some v → (v.listeners j ≡ u.listeners j) × (v.names j ≡ u.names j)
    same u f = (
      ap (λ (x : World). x.listeners j) (sym (some-injective _ v f)),
      ap (λ (x : World). x.names j) (sym (some-injective _ v f)),
    )

    leaves :
        (op : ControlOp) (o : Option EpollEvent)
        → control w ep op fd e o ≡ some v
        → (v.listeners j ≡ w.listeners j) × (v.names j ≡ w.names j)
    leaves add none f = same _ f
    leaves add (some g) f = absurd (cc)
    leaves modify none f = absurd (cc)
    leaves modify (some g) f = same _ f
    leaves delete none f = absurd (cc)
    leaves delete (some g) f = same _ f

abbrev pub kernel_laws : (next : ℕ) → SocketLaws (listening_sockets next) epoll
kernel_laws next = record {
  bound_to = λ w. w.names;
  is_listening = λ w. w.listeners;
  bind_lem = λ w fd address h. ground arith;
  listen_lem = λ w fd n h. (ground arith, refl);
  control_lem = λ w v ep fd j op e h. control_leaves w v ep fd j op e h;
}
