-- ===== src/Channel.antt =====
-- Channel.h and Channel.cc: the events that a descriptor is watched for and the callbacks that
-- they lead to. A mask of `EPOLL…` bits is a record of flags. The state that the callbacks work on
-- is a parameter.
pub mod Dispatch
mod Tests
use conex.Prelude.{ℕ, Bool, true, false, not, ◌&&◌, ◌||◌, Option, none, some, if◌then◌else◌, assert}

pub record Mask : Type 0 where
  pub epollin : Bool
  pub epollpri : Bool
  pub epollout : Bool
  pub epollerr : Bool
  pub epollhup : Bool
  pub epollrdhup : Bool

abbrev pub none_event : Mask
none_event = record {
  epollin = false;
  epollpri = false;
  epollout = false;
  epollerr = false;
  epollhup = false;
  epollrdhup = false;
}

abbrev pub read_event : Mask
read_event = record none_event { epollin = true; epollpri = true }

abbrev pub write_event : Mask
write_event = record none_event { epollout = true }

-- `a | b`, `a & ~b`, `a & b` as a test, and `a == kNoneEvent`.
abbrev pub mask_or : Mask → Mask → Mask
mask_or a b = record {
  epollin = a.epollin || b.epollin;
  epollpri = a.epollpri || b.epollpri;
  epollout = a.epollout || b.epollout;
  epollerr = a.epollerr || b.epollerr;
  epollhup = a.epollhup || b.epollhup;
  epollrdhup = a.epollrdhup || b.epollrdhup;
}

abbrev pub mask_without : Mask → Mask → Mask
mask_without a b = record {
  epollin = a.epollin && not b.epollin;
  epollpri = a.epollpri && not b.epollpri;
  epollout = a.epollout && not b.epollout;
  epollerr = a.epollerr && not b.epollerr;
  epollhup = a.epollhup && not b.epollhup;
  epollrdhup = a.epollrdhup && not b.epollrdhup;
}

abbrev pub mask_meets : Mask → Mask → Bool
mask_meets a b =
    a.epollin && b.epollin
    || (a.epollpri && b.epollpri
        || (a.epollout && b.epollout
            || (a.epollerr && b.epollerr
                || (a.epollhup && b.epollhup || a.epollrdhup && b.epollrdhup))))

abbrev pub mask_is_none : Mask → Bool
mask_is_none a =
    not (a.epollin || (a.epollpri || (a.epollout || (a.epollerr || (a.epollhup || a.epollrdhup)))))

-- `tie_` is only asked whether the object is still there: `some b` is a tie, with that answer.
pub record Channel : Type 0 where
  pub fd : ℕ
  pub events : Mask
  pub revents : Mask
  pub pooling : Bool
  pub handling_events : Bool
  pub tied : Bool
  pub tie_alive : Bool

-- The constructor.
abbrev pub make_channel : ℕ → Channel
make_channel fd = record {
  fd = fd;
  events = none_event;
  revents = none_event;
  pooling = false;
  handling_events = false;
  tied = false;
  tie_alive = false;
}

-- The destructor's assert.
abbrev pub destroy : Channel → Option (Unit {0})
destroy c = assert (not c.handling_events)

abbrev pub tie : Channel → Channel
tie c = record c { tied = true; tie_alive = true }

abbrev pub set_revents : Mask → Channel → Channel
set_revents m c = record c { revents = m }

abbrev pub is_none_event : Channel → Bool
is_none_event c = mask_is_none c.events

abbrev pub is_writing : Channel → Bool
is_writing c = mask_meets c.events write_event

abbrev pub is_reading : Channel → Bool
is_reading c = mask_meets c.events read_event

-- The change of `events_` in each of the five functions; each calls `update()` next, which is
-- `update_channel` of the poller.
pub data Change : Type 0 where
  enable_reading disable_reading enable_writing disable_writing disable_all : Change

unfoldable pub change_events : Change → Channel → Channel
change_events enable_reading c = record c { events = mask_or c.events read_event }
change_events disable_reading c = record c { events = mask_without c.events read_event }
change_events enable_writing c = record c { events = mask_or c.events write_event }
change_events disable_writing c = record c { events = mask_without c.events write_event }
change_events disable_all c = record c { events = none_event }

module _ {S : Type 0} where
  -- A callback that is not set is skipped.
  abbrev pub call_back : Option (S → S) → S → S
  call_back none s = s
  call_back (some f) s = f s

-- The four callbacks of a channel.
pub record Callbacks (S : Type 0) : Type 0 where
  pub read_callback : Option (ℕ → S → S)
  pub write_callback : Option (S → S)
  pub close_callback : Option (S → S)
  pub error_callback : Option (S → S)

module _ {S : Type 0} where
  abbrev pub call_read : Option (ℕ → S → S) → ℕ → S → S
  call_read none time s = s
  call_read (some f) time s = f time s

  -- The order of the tests is that of the calls.
  unfoldable pub handle_event_with_guard : Callbacks S → Mask → ℕ → S → S
  handle_event_with_guard cb revents time s =
      let closed =
        if revents.epollhup && not revents.epollin then call_back cb.close_callback s else s in
      let failed = if revents.epollerr then call_back cb.error_callback closed else closed in
      let read =
        if revents.epollin || (revents.epollpri || revents.epollrdhup)
        then call_read cb.read_callback time failed
        else failed in
      if revents.epollout then call_back cb.write_callback read else read

  -- With a tie to an object that is gone nothing is called. Where the callbacks return,
  -- `handlingEvents_` is false again.
  unfoldable pub handle_events : Callbacks S → Channel → ℕ → S → Channel × S
  handle_events cb c time s =
      if c.tied && not c.tie_alive
      then (c, s)
      else (record c { handling_events = false }, handle_event_with_guard cb c.revents time s)
