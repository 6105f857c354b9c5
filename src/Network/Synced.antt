-- ===== src/Network/Synced.antt =====
-- A connection and its poll data name the same descriptor.
use u_threads.Base.{Bool, ℕ, ◌≡◌, ◌≢◌, refl, false, List, [], ◌∷◌, none, arith}
use u_threads.Io.{PollData}
use u_threads.Io.Closing.{close-resets}
use u_threads.Network.{
  Result, success, would_block, failure, Connection, init, set_fd, socket, accept_into, close,
}

pub data Call : Type 0 where
  socket_call : Result → Call
  accept_call : Result → Call

pub run : List Call → Connection → Connection
run [] c = c
run (socket_call r ∷ cs) c = run cs (socket r c).1
run (accept_call r ∷ cs) c = run cs (accept_into r c)

socket-fd_kept :
    (r : Result) (c : Connection) → c.pd.fd ≡ c.fd → (socket r c).1.pd.fd ≡ (socket r c).1.fd
unfolding socket set_fd
socket-fd_kept (success n) c e = ground arith
socket-fd_kept would_block c e = ground arith
socket-fd_kept (failure k) c e = ground arith

accept-fd_kept :
    (r : Result) (c : Connection) → c.pd.fd ≡ c.fd → (accept_into r c).pd.fd ≡ (accept_into r c).fd
unfolding accept_into set_fd
accept-fd_kept (success n) c e = ground arith
accept-fd_kept would_block c e = e
accept-fd_kept (failure k) c e = e

calls-fd_kept :
    (cs : List Call) (c : Connection) → c.pd.fd ≡ c.fd → (run cs c).pd.fd ≡ (run cs c).fd
unfolding run
calls-fd_kept [] c e = e
calls-fd_kept (socket_call r ∷ cs) c e = calls-fd_kept cs (socket r c).1 (socket-fd_kept r c e)
calls-fd_kept (accept_call r ∷ cs) c e = calls-fd_kept cs (accept_into r c) (accept-fd_kept r c e)

-- From its constructor on, through any calls of `socket` and `accept` with any results.
pub run-fd :
    (fd : ℕ) (pd : PollData) (cs : List Call)
    → (run cs (init fd pd)).pd.fd ≡ (run cs (init fd pd)).fd
unfolding init
run-fd fd pd cs = calls-fd_kept cs (init fd pd) refl

-- `close` leaves the descriptor in the connection and resets the poll data, which then belongs to the
-- cache; `socket` on that connection fails whatever the system would return.
pub close-stale :
    (npollbulkpush : Bool) (c : Connection) (r : Result)
    → c.fd ≢ 0
    → c.pd.closing ≡ false
    → ((close npollbulkpush c).2.fd ≡ c.fd)
      × ((close npollbulkpush c).2.pd.fd ≡ 0)
      × ((socket r (close npollbulkpush c).2).0 ≡ none)
unfolding close socket
close-stale npollbulkpush c r ne o = (refl, close-resets npollbulkpush c.pd o, ground arith)
