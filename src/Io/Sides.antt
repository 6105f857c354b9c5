-- ===== src/Io/Sides.antt =====
-- What holds of the slots of a descriptor in every interleaving.
use u_threads.Base.{ℕ, ◌≡◌, ◌≢◌, ◌<◌, ◌⊎◌, Bool, true, false}
use u_threads.Io.{poll_ready, poll_wait}
use u_threads.Io.Run.{System, Pc, in_post, looping, waiting}

-- The slot of one direction, its uThread `id`, and the notice.
pub record Side (v id : ℕ) (pc : Pc) (noticed : Bool) : Type 0 where
  pub full : pc ≡ waiting → (v ≡ id) × (noticed ≡ false)
  pub open_slot :
      pc ≢ waiting → ((v ≡ 0) × (noticed ≡ false)) ⊎ ((v ≡ poll_ready) × (noticed ≡ true))
  pub ready : pc ≡ looping → v ≡ poll_ready

pub record Sides (ids : Bool → ℕ) (s : System) : Type 0 where
  pub same : (b : Bool) → s.ids b ≡ ids b
  pub above : (b : Bool) → poll_wait < ids b
  pub reader : Side s.pd.rut (ids true) (s.pc true) (s.noticed true)
  pub writer : Side s.pd.wut (ids false) (s.pc false) (s.noticed false)
  pub not_closing : s.pd.closing ≡ false
  pub turn_r : in_post (s.pc true) ≡ true → s.pd.is_blocking_on_read ≡ true
  pub turn_w : in_post (s.pc false) ≡ true → s.pd.is_blocking_on_read ≡ false
