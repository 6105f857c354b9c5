-- ===== src/CWrapper/Tests.antt =====
-- A C program that receives 20 bytes, and one that reads them.
use u_threads.Base.{List, ◌++◌, ◌≢◌, true, ◌≡◌, [], ◌∷◌, none, some, arith}
use u_threads.Network.{
  Result, Op, recvfrom, recvmsg, recvmmsg, would_block, success, recv, waits_to_read,
}
use u_threads.Network.Calls.{repeat}
use u_threads.CWrapper.{connection_call, connection_call-first}

abbrev results : List Result
results = repeat 1 would_block ++ success 20 ∷ []

connection_call-first_example :
    (connection_call recv results ≡ some (none, repeat 1 true, []))
    × (connection_call recvfrom results ≡ some (none, repeat 1 true, []))
    × (connection_call recvmsg results ≡ some (none, repeat 1 true, []))
    × (connection_call recvmmsg results ≡ some (none, repeat 1 true, []))
    × ((op : Op)
        → op ≢ recv
        → op ≢ recvfrom
        → op ≢ recvmsg
        → op ≢ recvmmsg
        → connection_call op results ≡ some (some (success 20), repeat 1 (waits_to_read op), []))
connection_call-first_example = connection_call-first 1 (success 20) [] (ground arith)
