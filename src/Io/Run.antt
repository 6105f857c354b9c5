-- ===== src/Io/Run.antt =====
-- One descriptor that one uThread reads and another one writes, and any number of notifications. A
-- notification reads the slot first and exchanges it later, so that `old` may be a value of the past.
use u_threads.Base.{ℕ, ◌≡◌, ◌≢◌, Bool, true, false, not, none, some, if◌then◌else◌}
use u_threads.Io.{
  PollData, poll_ready, block, post_load, post_first, post_exchange, post_switch, Posted, loaded,
  resumed, parked, dropped, again, unblock_try,
}

-- Where a uThread is: not waiting; suspended, with `postSwitchFunc` still to run, between the load and
-- the compare-and-exchange of a round, or before another round; in its slot.
pub data Pc : Type 0 where
  outside : Pc
  suspending : Pc
  expecting : Pc
  looping : Pc
  waiting : Pc

-- Whether its `postSwitchFunc` has not ended.
abbrev pub in_post : Pc → Bool
in_post outside = false
in_post suspending = true
in_post expecting = true
in_post looping = true
in_post waiting = false

-- `ids`, `pc` and `noticed` are for the reader at `true` and the writer at `false`; `noticed` holds
-- when a notification has come that its uThread has not gone on with.
pub record System : Type 0 where
  pub pd : PollData
  pub ids : Bool → ℕ
  pub pc : Bool → Pc
  pub noticed : Bool → Bool

abbrev pub at {ℓ} : {A : Type ℓ} → Bool → A → (Bool → A) → Bool → A
at true v f true = v
at true v f false = f false
at false v f true = f true
at false v f false = v

-- The call of `block`.
unfoldable pub block_by : Bool → System → System
block_by is_read s = record s {
  pd = (block is_read s.pd).0;
  pc = at is_read (if (block is_read s.pd).1 then suspending else outside) s.pc;
  noticed = at is_read (if (block is_read s.pd).1 then s.noticed is_read else false) s.noticed;
}

abbrev pub posted_pc : Posted → Pc
posted_pc dropped = waiting
posted_pc resumed = outside
posted_pc parked = waiting
posted_pc loaded = expecting
posted_pc again = looping

abbrev pub posted_noticed : Posted → Bool → Bool
posted_noticed dropped b = b
posted_noticed resumed b = false
posted_noticed parked b = b
posted_noticed loaded b = b
posted_noticed again b = b

-- What a step of the `postSwitchFunc` of a suspended uThread has done.
unfoldable pub posted_by : Bool → PollData × Posted → System → System
posted_by is_read (pd, r) s = record s {
  pd = pd;
  pc = at is_read (posted_pc r) s.pc;
  noticed = at is_read (posted_noticed r (s.noticed is_read)) s.noticed;
}

unfoldable pub load_by : Bool → System → System
unfolding posted_by
load_by is_read s = posted_by is_read (post_first s.pd) s

unfoldable pub reload_by : Bool → System → System
unfolding posted_by
reload_by is_read s = posted_by is_read (post_load s.pd) s

unfoldable pub exchange_by : Bool → System → System
unfolding posted_by
exchange_by is_read s = posted_by is_read (post_exchange (s.ids is_read) s.pd) s

-- The first round with nobody in between.
unfoldable pub post_by : Bool → System → System
unfolding posted_by
post_by is_read s = posted_by is_read (post_switch (s.ids is_read) s.pd) s

-- A round of `unblock`; the uThread that it resumes goes on.
unfoldable pub notify : Bool → ℕ → System → System
notify is_read old s = record s {
  pd = (unblock_try is_read old s.pd).0;
  pc =
      at is_read (elim (unblock_try is_read old s.pd).1 [ none ↦ s.pc is_read | some ut ↦ outside ])
        s.pc;
  noticed =
      at is_read
        (if (unblock_try is_read old s.pd).2
          then elim (unblock_try is_read old s.pd).1 [ none ↦ true | some ut ↦ false ]
          else s.noticed is_read)
        s.noticed;
}

unfoldable pub start : (Bool → ℕ) → ℕ → System
start ids fd = record {
  pd = record {
    rut = 0;
    wut = 0;
    closing = false;
    opened = true;
    is_blocking_on_read = false;
    fd = fd;
  };
  ids = ids;
  pc = λ b. outside;
  noticed = λ b. false;
}

-- The interleavings in which, as a comment of `block` says, no other uThread waits for the descriptor
-- between a `block` and its `postSwitchFunc`, and nobody closes it.
pub data Reach (ids : Bool → ℕ) (fd : ℕ) : System → Type 0 where
  at_first : Reach ids fd (start ids fd)
  blocks :
      (is_read : Bool) (s : System)
      → s.pc is_read ≡ outside
      → in_post (s.pc (not is_read)) ≡ false
      → Reach ids fd s
      → Reach ids fd (block_by is_read s)
  loads :
      (is_read : Bool) (s : System)
      → s.pc is_read ≡ suspending
      → Reach ids fd s
      → Reach ids fd (load_by is_read s)
  exchanges :
      (is_read : Bool) (s : System)
      → s.pc is_read ≡ expecting
      → Reach ids fd s
      → Reach ids fd (exchange_by is_read s)
  reloads :
      (is_read : Bool) (s : System)
      → s.pc is_read ≡ looping
      → Reach ids fd s
      → Reach ids fd (reload_by is_read s)
  notifies :
      (is_read : Bool) (old : ℕ) (s : System)
      → old ≢ poll_ready
      → Reach ids fd s
      → Reach ids fd (notify is_read old s)
