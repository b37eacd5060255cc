-- ===== src/Channel.antt =====
-- include/Channel.h and src/Channel.cpp: the record of one descriptor, its interest, the events that
-- were reported, and what is called for them. `H` names the bound functions; an empty
-- `std::function` is `none`. Registration goes through the event loop: Epoller.antt.
pub mod Dispatch
pub mod Interest
mod Tests
use net_module.Base.{
  ℕ, ◌-◌, ◌≡◌, Bool, false, not, Option, none, some, Result, ok, err, bad_function_call, ◌==◌,
  if◌then◌else◌,
}
use Prim.Native.Nat.{bit_and, bit_or}
use net_module.System.{epollin, epollpri, epollout, epollrdhup, epollet}

-- `self` is the object's address; `epollfd` stands for `loop_`, whose epoll instance is fixed.
pub record Channel (H : Type 0) : Type 0 where
  pub self : ℕ
  pub fd : ℕ
  pub epollfd : ℕ
  pub inepoll : Bool
  pub events : ℕ
  pub revents : ℕ
  pub read_callback : Option H
  pub write_callback : Option H
  pub close_callback : Option H
  pub error_callback : Option H

-- `~mask` as a `uint32_t`.
abbrev pub complement : ℕ → ℕ
complement mask = 0xffff_ffff - mask

module _ {H : Type 0} where
  -- The constructor `Channel(loop, fd)` at an address.
  abbrev pub make : ℕ → ℕ → ℕ → Channel H
  make self epollfd fd = record {
    self = self;
    fd = fd;
    epollfd = epollfd;
    inepoll = false;
    events = 0;
    revents = 0;
    read_callback = none;
    write_callback = none;
    close_callback = none;
    error_callback = none;
  }

  unfoldable pub getevents : Channel H → ℕ
  getevents ch = ch.events

  unfoldable pub getrevents : Channel H → ℕ
  getrevents ch = ch.revents

  unfoldable pub getinepoll : Channel H → Bool
  getinepoll ch = ch.inepoll

  unfoldable pub getfd : Channel H → ℕ
  getfd ch = ch.fd

  unfoldable pub setinepoll : Channel H → Bool → Channel H
  setinepoll ch inepoll = record ch { inepoll = inepoll }

  unfoldable pub setrevents : Channel H → ℕ → Channel H
  setrevents ch ev = record ch { revents = ev }

  unfoldable pub setread_callback : Channel H → H → Channel H
  setread_callback ch cb = record ch { read_callback = some cb }

  unfoldable pub setwrite_callback : Channel H → H → Channel H
  setwrite_callback ch cb = record ch { write_callback = some cb }

  unfoldable pub setclose_callback : Channel H → H → Channel H
  setclose_callback ch cb = record ch { close_callback = some cb }

  unfoldable pub seterror_callback : Channel H → H → Channel H
  seterror_callback ch cb = record ch { error_callback = some cb }

  -- Edge triggering; noted here only, it reaches the kernel with the next update.
  unfoldable pub usset : Channel H → Channel H
  usset ch = record ch { events = bit_or ch.events epollet }

  -- The interest that `enableReading` and its kin set before they update the loop.
  unfoldable pub with_reading : Channel H → Channel H
  with_reading ch = record ch { events = bit_or ch.events epollin }

  unfoldable pub without_reading : Channel H → Channel H
  without_reading ch = record ch { events = bit_and ch.events (complement epollin) }

  unfoldable pub with_writing : Channel H → Channel H
  with_writing ch = record ch { events = bit_or ch.events epollout }

  unfoldable pub without_writing : Channel H → Channel H
  without_writing ch = record ch { events = bit_and ch.events (complement epollout) }

  unfoldable pub without_all : Channel H → Channel H
  without_all ch = record ch { events = 0 }

  -- Calling a `std::function`.
  abbrev pub call : Option H → Result H
  call none = err bad_function_call
  call (some h) = ok h

  -- The function that `handleEvent` calls.
  unfoldable pub handle_event : Channel H → Result H
  handle_event ch =
      if not (bit_and ch.revents epollrdhup == 0)
      then call ch.close_callback
      else if not (bit_and ch.revents (bit_or epollin epollpri) == 0)
      then call ch.read_callback
      else if not (bit_and ch.revents epollout == 0)
      then call ch.write_callback
      else call ch.error_callback
