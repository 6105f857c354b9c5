-- ===== src/Network/Tests.antt =====
-- A connection that is made, accepted into, and closed.
use u_threads.Base.{true, ◌≡◌, refl, true, false, List, [], ◌∷◌, none, some, arith}
use u_threads.Io.{PollData, unblock}
use u_threads.Network.{
  success, would_block, failure, recv, io_call, waits_to_read, Connection, init, socket, close,
}
use u_threads.Network.Setup.{serve, serve-listens, block_on, block_on-event}
use u_threads.Network.Calls.{repeat, io_call-first}
use u_threads.Network.Synced.{Call, socket_call, accept_call, run, run-fd, close-stale}

abbrev pd : PollData
pd = record {
  rut = 0;
  wut = 0;
  closing = false;
  opened = false;
  is_blocking_on_read = false;
  fd = 0;
}

io_call-first_case :
    io_call recv (would_block ∷ would_block ∷ success 20 ∷ [])
    ≡ some (success 20, repeat 2 (waits_to_read recv), [])
io_call-first_case = io_call-first recv 2 (success 20) [] (ground arith)

abbrev calls : List Call
calls = socket_call (failure 24) ∷ socket_call (success 5) ∷ accept_call (success 6) ∷ []

kept : (run calls (init 0 pd)).pd.fd ≡ (run calls (init 0 pd)).fd
kept = run-fd 0 pd calls

abbrev active : Connection
active = record { fd = 5; pd = record pd { fd = 5 } }

close-stale_case :
    ((close true active).2.fd ≡ 5)
    × ((close true active).2.pd.fd ≡ 0)
    × ((socket (success 7) (close true active).2).0 ≡ none)
close-stale_case = close-stale true active (success 7) (omega arith) refl

served : serve (success 7) (success 0) pd ≡ some (success 0)
served = serve-listens (success 7) (success 0) pd

event_first :
    block_on true true (record active { pd = (unblock true active.pd).0 })
    ≡ some (record active { pd = record active.pd { opened = true } }, false)
event_first = block_on-event true active (omega arith) refl refl
