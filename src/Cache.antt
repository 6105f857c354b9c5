-- ===== src/Cache.antt =====
-- src/runtime/uThreadCache.h: the class `uThreadCache`, a bounded stack of the uThreads that have
-- ended. Whether `try_to_lock` gets its mutex is a Boolean of each call.
mod Laws
mod Tests
use u_threads.Base.{ℕ, ◌+◌, ◌-◌, Bool, not, ◌||◌, Option, none, some, ◌==◌, if◌then◌else◌, update}
use u_threads.Intrusive.{Links, ◌>>=◌}
unfoldable use u_threads.Intrusive.Stack.{push, pop}
use u_threads.UThread.{UThread, reset}

pub record UThreadCache : Type 0 where
  pub stack : ℕ
  pub count : ℕ
  pub size : ℕ

-- What the cache works on: itself, the links, and the uThreads by their addresses.
pub record Store : Type 0 where
  pub cache : UThreadCache
  pub links : Links
  pub uts : ℕ → UThread

-- The constructor.
unfoldable pub new_cache : ℕ → UThreadCache
new_cache size = record { stack = 0; count = 0; size = size }

-- `push(ut)`: the new count, or `none` for -1.
unfoldable pub push_cache : Bool → ℕ → Store → Option (Option ℕ × Store)
push_cache owns_lock ut s =
    if not owns_lock || (s.cache.count == s.cache.size) then some (none, s) else do
      (stack', links') ← push ut s.cache.stack s.links
      some (
        some (s.cache.count + 1),
        record {
          cache = record s.cache { stack = stack'; count = s.cache.count + 1 };
          links = links';
          uts = update s.uts ut (reset ut (s.uts ut));
        },
      )

-- `pop()`: the uThread, or `nullptr`.
unfoldable pub pop_cache : Bool → Store → Option (ℕ × Store)
pop_cache owns_lock s = if not owns_lock || (s.cache.count == 0) then some (0, s) else do
  (ut, stack', links') ← pop s.cache.stack s.links
  some (
    ut,
    record s {
      cache = record s.cache { stack = stack'; count = s.cache.count - 1 };
      links = links';
    },
  )
