-- ===== src/CWrapper.antt =====
-- src/cwrapper.cpp: the functions for C that read from and write to a connection. Each calls the
-- operation of its name and some of them do not return what that returns.
mod Tests
use u_threads.Base.{
  ℕ, ◌≡◌, ◌≢◌, refl, Bool, true, false, List, [], ◌∷◌, ◌++◌, Option, none, some, ◌>>=◌,
  if◌then◌else◌,
}
use u_threads.Network.{
  Result, success, would_block, failure, Op, accept, recv, recvfrom, recvmsg, recvmmsg, send,
  sendto, sendmsg, sendmmsg, read, write, waits_to_read, io_call,
}
use u_threads.Network.Calls.{repeat, io_call-first}

-- Whether the call stands behind a `return`.
unfoldable pub has_return : Op → Bool
has_return accept = true
has_return recv = false
has_return recvfrom = false
has_return recvmsg = false
has_return recvmmsg = false
has_return send = true
has_return sendto = true
has_return sendmsg = true
has_return sendmmsg = true
has_return read = true
has_return write = true

-- `connection_recv` and the others: none inside is a value that the function leaves undefined.
unfoldable pub connection_call : Op → List Result → Option (Option Result × List Bool × List Result)
unfolding has_return
connection_call op rs = do
  (r, waits, rest) ← io_call op rs
  some (if has_return op then some r else none, waits, rest)

pub returns :
    (op : Op) → op ≢ recv → op ≢ recvfrom → op ≢ recvmsg → op ≢ recvmmsg → has_return op ≡ true
unfolding has_return
returns accept a b c d = refl
returns recv a b c d = absurd (a refl)
returns recvfrom a b c d = absurd (b refl)
returns recvmsg a b c d = absurd (c refl)
returns recvmmsg a b c d = absurd (d refl)
returns send a b c d = refl
returns sendto a b c d = refl
returns sendmsg a b c d = refl
returns sendmmsg a b c d = refl
returns read a b c d = refl
returns write a b c d = refl

-- A C program that reads with `recv`, `recvfrom`, `recvmsg` or `recvmmsg` never gets the number of bytes
-- or the error, though the call waits and reads like that of the class; with every other operation it
-- gets the first result that is not `EAGAIN`, behind one wait for each `EAGAIN` before it.
pub connection_call-first :
    (n : ℕ) (r : Result) (rs : List Result)
    → r ≢ would_block
    → let results = repeat n would_block ++ r ∷ rs in
      (connection_call recv results ≡ some (none, repeat n true, rs))
      × (connection_call recvfrom results ≡ some (none, repeat n true, rs))
      × (connection_call recvmsg results ≡ some (none, repeat n true, rs))
      × (connection_call recvmmsg results ≡ some (none, repeat n true, rs))
      × ((op : Op)
          → op ≢ recv
          → op ≢ recvfrom
          → op ≢ recvmsg
          → op ≢ recvmmsg
          → connection_call op results ≡ some (some r, repeat n (waits_to_read op), rs))
unfolding connection_call has_return waits_to_read
connection_call-first n r rs ne = (
  rw (io_call-first recv n r rs ne) refl,
  rw (io_call-first recvfrom n r rs ne) refl,
  rw (io_call-first recvmsg n r rs ne) refl,
  rw (io_call-first recvmmsg n r rs ne) refl,
  λ op a b c d. rw (io_call-first op n r rs ne, returns op a b c d) refl,
)
