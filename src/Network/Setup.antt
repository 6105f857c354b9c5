-- ===== src/Network/Setup.antt =====
-- src/io/Network.h and src/io/Network.cpp: the constructors of `Connection`, the calls that pass on a
-- result, and the waits that a program asks for.
use u_threads.Base.{
  ℕ, zero, suc, ◌≡◌, ◌≢◌, refl, Bool, true, false, Option, none, some, ◌>>=◌, ◌==◌, if◌then◌else◌,
  arith,
}
use u_threads.Io.{PollData, slot, unblock}
use u_threads.Io.Wait.{wait, wait-unblock}
use u_threads.Network.{Result, success, would_block, failure, Connection, init, set_fd, socket}

-- `Connection()`, whose descriptor is -1, and `Connection(int fd)`.
unfoldable pub new_connection : PollData → Connection
unfolding init
new_connection pd = init 0 pd

unfoldable pub new_connection_fd : ℕ → PollData → Connection
unfolding init
new_connection_fd fd pd = init fd pd

-- `Connection(domain, type, protocol)`, for the result of `::socket`: none is the exception.
unfoldable pub new_connection_socket : Result → PollData → Option Connection
unfolding init
new_connection_socket (success n) pd = some (init n pd)
new_connection_socket would_block pd = none
new_connection_socket (failure e) pd = none

-- `listen` and `bind`, for the result of the system call: none is the assertion.
unfoldable pub listen : Result → Connection → Option Result
listen r c = if c.fd == 0 then none else some r

unfoldable pub bind : Result → Connection → Option Result
bind r c = if c.fd == 0 then none else some r

-- `blockOnRead` and `blockOnWrite`: whether the caller suspends.
unfoldable pub block_on : Bool → Bool → Connection → Option (Connection × Bool)
unfolding wait
block_on is_read ok c = do
  (pd, suspends) ← wait is_read ok c.pd
  some (record c { pd = pd }, suspends)

unfoldable pub block_on_read : Bool → Connection → Option (Connection × Bool)
unfolding block_on
block_on_read ok c = block_on true ok c

unfoldable pub block_on_write : Bool → Connection → Option (Connection × Bool)
unfolding block_on
block_on_write ok c = block_on false ok c

-- A socket that is made and bound listens, unless one of the three calls fails: the program gets the
-- result of `listen` exactly if `socket` gave a descriptor, and an assertion fails otherwise.
abbrev pub serve : Result → Result → PollData → Option Result
serve r l pd = do
  b ← bind (success 0) (socket r (new_connection pd)).1
  listen l (socket r (new_connection pd)).1

pub serve-listens :
    (r l : Result) (pd : PollData)
    → serve r l pd ≡ elim r [
      | success n ↦ if n == 0 then none else some l
      | would_block ↦ none
      | failure e ↦ none
    ]
unfolding bind listen socket new_connection init set_fd
serve-listens (success zero) l pd = refl
serve-listens (success (suc n)) l pd = ground arith
serve-listens would_block l pd = refl
serve-listens (failure e) l pd = refl

-- A connection whose event came before the wait does not suspend its uThread, in either direction.
pub block_on-event :
    (is_read : Bool) (c : Connection)
    → c.pd.fd ≢ 0
    → c.pd.closing ≡ false
    → slot is_read c.pd ≡ 0
    → block_on is_read true (record c { pd = (unblock is_read c.pd).0 })
      ≡ some (record c { pd = record c.pd { opened = true } }, false)
unfolding block_on
block_on-event is_read c ne o z = rw (wait-unblock is_read c.pd ne o z) refl
