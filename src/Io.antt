-- ===== src/Io.antt =====
-- src/io/IOHandler.h and src/io/IOHandler.cpp: how a uThread waits for a file descriptor, and how a
-- notification of the poller finds it. src/io/EpollIOHandler.cpp: the flags of an event.
-- The results of `epoll_ctl` and `epoll_wait` are arguments. A loop around a compare-and-exchange is
-- a function for the load and one for the exchange of a round.
mod Run
mod Sides
mod Blocks
mod Kept
mod Waits
pub mod Closing
mod Polls
mod Poller
mod Cache
pub mod Wait
mod Tests
use u_threads.Base.{
  ℕ, ◌+◌, ◌≤◌, Bool, true, false, not, ◌&&◌, ◌||◌, List, [], ◌∷◌, ◌++◌, Option, none, some, ltb,
  ◌==◌, if◌then◌else◌, update,
}

-- `POLL_READY` and `POLL_WAIT`; every uThread lies above them.
abbrev pub poll_ready : ℕ
poll_ready = 1

abbrev pub poll_wait : ℕ
poll_wait = 2

pub record PollData : Type 0 where
  pub rut : ℕ
  pub wut : ℕ
  pub closing : Bool
  pub opened : Bool
  pub is_blocking_on_read : Bool
  pub fd : ℕ

-- `isRead ? &pd.rut : &pd.wut`, read and written.
abbrev pub slot : Bool → PollData → ℕ
slot true pd = pd.rut
slot false pd = pd.wut

abbrev pub set_slot : Bool → ℕ → PollData → PollData
set_slot true v pd = record pd { rut = v }
set_slot false v pd = record pd { wut = v }

-- `reset`; a descriptor of -1 is 0 here, which `_Open` and `_Close` are never called with.
unfoldable pub reset : PollData → PollData
reset pd = record pd { fd = 0; rut = 0; wut = 0; closing = false; opened = false }

-- `open`, for the result of `_Open`; `none` is `exit`.
unfoldable pub open_fd : Bool → PollData → Option PollData
open_fd ok pd =
    if pd.opened then some pd else if ok then some (record pd { opened = true }) else none

-- `block` behind the `open`: whether the caller suspends.
unfoldable pub block : Bool → PollData → PollData × Bool
block is_read pd =
    if slot is_read pd == poll_ready
    then (set_slot is_read 0 pd, false)
    else (record pd { is_blocking_on_read = is_read }, true)

-- What a step of `postSwitchFunc` ends in: the uThread is left suspended and nobody knows of it, it is
-- resumed, the compare-and-exchange comes next, the uThread is in its slot, or the loop goes round again.
pub data Posted : Type 0 where
  dropped : Posted
  resumed : Posted
  loaded : Posted
  parked : Posted
  again : Posted

-- The load of `*utp` in a round of the loop.
unfoldable pub post_load : PollData → PollData × Posted
post_load pd =
    if slot pd.is_blocking_on_read pd == poll_ready
    then (set_slot pd.is_blocking_on_read 0 pd, resumed)
    else (pd, loaded)

-- The first round, behind the test of `closing`.
unfoldable pub post_first : PollData → PollData × Posted
unfolding post_load
post_first pd = if pd.closing then (pd, dropped) else post_load pd

-- The compare-and-exchange of a round.
unfoldable pub post_exchange : ℕ → PollData → PollData × Posted
post_exchange ut pd =
    if slot pd.is_blocking_on_read pd == 0
    then (set_slot pd.is_blocking_on_read ut pd, parked)
    else (pd, again)

unfoldable pub then_exchange : ℕ → PollData × Posted → PollData × Posted
unfolding post_exchange
then_exchange ut (pd, loaded) = post_exchange ut pd
then_exchange ut (pd, dropped) = (pd, dropped)
then_exchange ut (pd, resumed) = (pd, resumed)
then_exchange ut (pd, parked) = (pd, parked)
then_exchange ut (pd, again) = (pd, again)

-- The first round with nobody in between.
unfoldable pub post_switch : ℕ → PollData → PollData × Posted
unfolding post_first then_exchange
post_switch ut pd = then_exchange ut (post_first pd)

-- The compare-and-exchange of `unblock`, for the value `old` that was read: the uThread that it
-- resumes, `none` when the loop ends without one, and whether the loop ends.
unfoldable pub unblock_try : Bool → ℕ → PollData → PollData × Option ℕ × Bool
unblock_try is_read old pd =
    if slot is_read pd == old
    then (
      set_slot is_read (if (old == 0) || (old == poll_wait) then poll_ready else 0) pd,
      if ltb poll_wait old then some old else none,
      true,
    )
    else (pd, none, false)

-- `unblock` with nobody in between.
unfoldable pub unblock : Bool → PollData → PollData × Option ℕ
unfolding unblock_try
unblock is_read pd = if pd.closing || (slot is_read pd == poll_ready) then (pd, none) else (
  (unblock_try is_read (slot is_read pd) pd).0,
  (unblock_try is_read (slot is_read pd) pd).1,
)

abbrev pub to_list : Option ℕ → List ℕ
to_list none = []
to_list (some ut) = ut ∷ []

-- What `close` leaves: the uThreads that it resumes, those that it adds to the bulk queues, whether
-- it is the call that closes, and the data.
pub record Closed : Type 0 where
  pub resumed : List ℕ
  pub bulk : List ℕ
  pub closes : Bool
  pub pd : PollData

-- `close`, for whether `NPOLLBULKPUSH` is defined, as by Scheduler_04.h: without it, `unblock` only
-- prepares a bulk push.
-- The second test of the source ends in a semicolon, so that the call below it is always made.
unfoldable pub close : Bool → PollData → Closed
unfolding unblock reset
close npollbulkpush pd =
    let first = if ltb poll_wait pd.rut then unblock true pd else (pd, none) in
    let second = unblock true first.0 in
    let woken = to_list first.1 ++ to_list second.1 in
    record {
      resumed = if npollbulkpush then woken else [];
      bulk = if npollbulkpush then [] else woken;
      closes = not second.0.closing;
      pd = if second.0.closing then second.0 else reset second.0;
    }

-- The flags of an `epoll_event` that `_Poll` reads.
pub record Events : Type 0 where
  pub epollin : Bool
  pub epollout : Bool
  pub epollrdhup : Bool
  pub epollhup : Bool
  pub epollerr : Bool

abbrev pub reads : Events → Bool
reads ev = ev.epollin || ev.epollrdhup || ev.epollhup || ev.epollerr

abbrev pub writes : Events → Bool
writes ev = ev.epollout || ev.epollhup || ev.epollerr

-- The handler: its data by address, the uThreads ready for the bulk push, and `unblockCounter`.
pub record Handler : Type 0 where
  pub pds : ℕ → PollData
  pub bulk : List ℕ
  pub unblock_counter : ℕ

abbrev pub counted : Option ℕ → ℕ → ℕ
counted none n = n
counted (some ut) n = n + 1

-- `PollReady` for one of its flags.
unfoldable pub poll_flag : Bool → Bool → ℕ → Handler → Handler
poll_flag flag is_read p h =
    if flag
    then record {
      pds = update h.pds p (unblock is_read (h.pds p)).0;
      bulk = h.bulk ++ to_list (unblock is_read (h.pds p)).1;
      unblock_counter = counted (unblock is_read (h.pds p)).1 h.unblock_counter;
    }
    else h

unfoldable pub poll_event : ℕ → Events → Handler → Handler
unfolding poll_flag
poll_event p ev h = poll_flag (writes ev) false p (poll_flag (reads ev) true p h)

-- The loop of `_Poll` over what `epoll_wait` gave.
unfoldable pub poll_events : List (ℕ × Events) → Handler → Handler
unfolding poll_event
poll_events [] h = h
poll_events ((p, ev) ∷ evs) h = poll_events evs (poll_event p ev h)

-- `poll`, for the events (none on a timeout and on `EINTR`) or the error of `epoll_wait`: its result, `none` for -1, and what it gives to
-- the bulk push.
unfoldable pub poll : Option (List (ℕ × Events)) → Handler → Option ℕ × List ℕ × Handler
unfolding poll_events
poll none h = (none, [], record h { unblock_counter = 0 })
poll (some evs) h =
    let h' = poll_events evs (record h { unblock_counter = 0 }) in
    if ltb 0 h'.unblock_counter
    then (some h'.unblock_counter, h'.bulk, record h' { bulk = [] })
    else (some h'.unblock_counter, [], h')
