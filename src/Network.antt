-- ===== src/Network.antt =====
-- src/io/Network.h and src/io/Network.cpp: the class `Connection`. What the system calls return is a
-- list of results, the next call's first; a descriptor of -1 is 0, and the descriptor 0 does not
-- occur, as the assertions say.
pub mod Calls
mod Setup
mod Synced
mod Tests
use u_threads.Base.{
  ℕ, Bool, true, false, List, [], ◌∷◌, Option, none, some, ◌>>=◌, ltb, ◌==◌, if◌then◌else◌,
}
use u_threads.Io.{PollData}
use u_threads.Io

-- A value of at least 0, -1 with `EAGAIN` or `EWOULDBLOCK`, or -1 with another error.
pub data Result : Type 0 where
  success : ℕ → Result
  would_block : Result
  failure : ℕ → Result

pub data Op : Type 0 where
  accept : Op
  recv : Op
  recvfrom : Op
  recvmsg : Op
  recvmmsg : Op
  send : Op
  sendto : Op
  sendmsg : Op
  sendmmsg : Op
  read : Op
  write : Op

-- Whether the operation waits for input; it waits for output otherwise.
unfoldable pub waits_to_read : Op → Bool
waits_to_read accept = true
waits_to_read recv = true
waits_to_read recvfrom = true
waits_to_read recvmsg = true
waits_to_read recvmmsg = true
waits_to_read send = false
waits_to_read sendto = false
waits_to_read sendmsg = false
waits_to_read sendmmsg = false
waits_to_read read = true
waits_to_read write = false

-- The loop that the operations share: the result, the calls of `IOHandler::wait` by their directions,
-- and the results that are left; `none` while the uThread still waits.
pub io_call : Op → List Result → Option (Result × List Bool × List Result)
unfolding waits_to_read
io_call op [] = none
io_call op (would_block ∷ rs) = do
  (r, waits, rest) ← io_call op rs
  some (r, waits_to_read op ∷ waits, rest)
io_call op (success n ∷ rs) = some (success n, [], rs)
io_call op (failure e ∷ rs) = some (failure e, [], rs)

pub record Connection : Type 0 where
  pub fd : ℕ
  pub pd : PollData

-- `init` with the data that `getPollData` gives, and `setFD`.
unfoldable pub init : ℕ → PollData → Connection
init fd pd = record { fd = fd; pd = record pd { fd = fd } }

unfoldable pub set_fd : ℕ → Connection → Connection
set_fd fd c = record { fd = fd; pd = record c.pd { fd = fd } }

-- `socket`, for the result of the system call; `none` is -1.
unfoldable pub socket : Result → Connection → Option ℕ × Connection
unfolding set_fd
socket r c =
    if c.fd == 0
    then elim r [
      | success n ↦ (some n, set_fd n c)
      | would_block ↦ (none, c)
      | failure e ↦ (none, c)
    ]
    else (none, c)

-- What `accept(conn, …)` does with its result, and `accept(…)`, which makes a connection.
unfoldable pub accept_into : Result → Connection → Connection
unfolding set_fd
accept_into (success n) conn = if ltb 0 n then set_fd n conn else conn
accept_into would_block conn = conn
accept_into (failure e) conn = conn

unfoldable pub accept_new : Result → PollData → Option Connection
unfolding init
accept_new (success n) pd = if ltb 0 n then some (init n pd) else none
accept_new would_block pd = none
accept_new (failure e) pd = none

-- What `::connect` returns: 0, -1 with `EINPROGRESS`, or -1 with another error.
pub data Connected : Type 0 where
  done : Connected
  in_progress : Connected
  refused : ℕ → Connected

-- `connect`, for that and for `SO_ERROR`: `none` is 0, `some` is -1 with that `errno`; and whether it
-- waited for output.
unfoldable pub connect : Connected → ℕ → Option ℕ × List Bool
connect done optval = (none, [])
connect in_progress optval = (if optval == 0 then none else some optval, false ∷ [])
connect (refused e) optval = (some e, [])

-- `close`, for whether `NPOLLBULKPUSH` is defined: the uThreads that the handler resumes and those that
-- it adds to the bulk queues.
unfoldable pub close : Bool → Connection → List ℕ × List ℕ × Connection
close npollbulkpush c =
    let closed = Io.close npollbulkpush c.pd in
    (closed.resumed, closed.bulk, record c { pd = closed.pd })
