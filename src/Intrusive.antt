-- ===== src/Intrusive.antt =====
-- src/generic/IntrusiveContainers.h: `Link` and the memory of links.
-- An address is a number and `nullptr` is 0. A read or a write through `nullptr` is a fault, `none`.
mod Tests
pub mod Seg
pub mod Queue
pub mod Stack
mod Ring
pub use u_threads.Base.{◌>>=◌}
use u_threads.Base.{ℕ, Option, none, some, ◌==◌, if◌then◌else◌, update}

-- The two fields of every `Link`, by the address of the element that holds it.
pub record Links : Type 0 where
  pub prev : ℕ → ℕ
  pub next : ℕ → ℕ

abbrev pub load_next : ℕ → Links → Option ℕ
load_next p h = if p == 0 then none else some (h.next p)

abbrev pub load_prev : ℕ → Links → Option ℕ
load_prev p h = if p == 0 then none else some (h.prev p)

abbrev pub store_next : ℕ → ℕ → Links → Option Links
store_next p v h = if p == 0 then none else some (record h { next = update h.next p v })

abbrev pub store_prev : ℕ → ℕ → Links → Option Links
store_prev p v h = if p == 0 then none else some (record h { prev = update h.prev p v })
