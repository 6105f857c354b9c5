-- ===== src/Io/Wait.antt =====
-- src/io/IOHandler.cpp: `wait` for one of its flags, and a notification that comes before it.
use u_threads.Base.{
  ◌≡◌, ◌≢◌, refl, inl, inr, Bool-cases, Bool, true, false, Option, none, some, ◌>>=◌, ◌==◌,
  if◌then◌else◌, arith,
}
use u_threads.Io.{PollData, slot, set_slot, poll_ready, open_fd, block, unblock, unblock_try}

-- `wait` with `UT_IOREAD` or with `UT_IOWRITE`, for the result of `_Open`: none is the assertion, or
-- `exit`. It gives whether the uThread suspends.
unfoldable pub wait : Bool → Bool → PollData → Option (PollData × Bool)
unfolding open_fd block
wait is_read ok pd = if pd.fd == 0 then none else (do pd' ← open_fd ok pd; some (block is_read pd'))

unblock-early :
    (is_read : Bool) (pd : PollData)
    → pd.closing ≡ false
    → slot is_read pd ≡ 0
    → (unblock is_read pd).0 ≡ set_slot is_read poll_ready pd
unfolding unblock unblock_try
unblock-early true pd c z = rw (c, z) refl
unblock-early false pd c z = rw (c, z) refl

wait-ready :
    (is_read : Bool) (pd : PollData)
    → (pd.fd == 0) ≡ false
    → slot is_read pd ≡ 0
    → wait is_read true (set_slot is_read poll_ready pd) ≡ some (record pd { opened = true }, false)
unfolding wait open_fd block
wait-ready true pd ne z = elim (Bool-cases pd.opened) [
  | inl o ↦ rw (ne, o, z) refl
  | inr o ↦ rw (ne, o, z) refl
]
wait-ready false pd ne z = elim (Bool-cases pd.opened) [
  | inl o ↦ rw (ne, o, z) refl
  | inr o ↦ rw (ne, o, z) refl
]

-- A notification that comes before the wait is consumed by it: the uThread does not suspend, and the
-- data is what it was, whether or not it had to be opened for the poller.
pub wait-unblock :
    (is_read : Bool) (pd : PollData)
    → pd.fd ≢ 0
    → pd.closing ≡ false
    → slot is_read pd ≡ 0
    → wait is_read true (unblock is_read pd).0 ≡ some (record pd { opened = true }, false)
wait-unblock is_read pd ne c z =
    rw (unblock-early is_read pd c z) (wait-ready is_read pd (ground (arith, ne)) z)
