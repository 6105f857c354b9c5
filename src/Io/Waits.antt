-- ===== src/Io/Waits.antt =====
-- No notification is lost on a uThread that waits, and none of the two uThreads' loops spins.
use u_threads.Base.{
  ℕ, ◌≡◌, ◌≢◌, ◌<◌, ◌⊎◌, Bool, true, false, some, arith, refl, inl, inr, ◌==◌, Bool-cases,
}
use u_threads.Io.{poll_wait, slot, unblock, post_load, post_exchange}
use u_threads.Io.Run.{
  System, outside, expecting, looping, waiting, Reach, exchange_by, reload_by, posted_by,
}
use u_threads.Io.Sides.{Side, Sides}
use u_threads.Io.Kept.{Reach-Sides}

side :
    (ids : Bool → ℕ) (s : System) (b : Bool)
    → Sides ids s
    → Side (slot b s.pd) (ids b) (s.pc b) (s.noticed b)
side ids s true i = i.reader
side ids s false i = i.writer

-- As long as nobody closes the descriptor, and nobody calls `block` for it while the `postSwitchFunc` of
-- another uThread has still to end: while a uThread waits in its slot it has gone on with every notification that came, and the next
-- one resumes it.
pub waits-noticed :
    (ids : Bool → ℕ) (fd : ℕ) (s : System) (b : Bool)
    → ((c : Bool) → poll_wait < ids c)
    → Reach ids fd s
    → s.pc b ≡ waiting
    → (s.noticed b ≡ false) × ((unblock b s.pd).1 ≡ some (ids b))
unfolding unblock
waits-noticed ids fd s b h r w =
    let i = Reach-Sides ids fd s h r in
    let f = (side ids s b i).full w in
    let above = h b in let open_still = i.not_closing in (f.1, ground arith)

-- As long as nobody closes the descriptor, and nobody calls `block` for it while the `postSwitchFunc` of
-- another uThread has still to end: a notification that comes while its uThread does not wait is kept: the next `block` or
-- `postSwitchFunc` goes on with it at once.
pub notice-kept :
    (ids : Bool → ℕ) (fd : ℕ) (s : System) (b : Bool)
    → ((c : Bool) → poll_wait < ids c)
    → Reach ids fd s
    → s.noticed b ≡ true
    → (slot b s.pd ≡ 1) × (s.pc b ≢ waiting)
notice-kept ids fd s b h r n =
    let f = side ids s b (Reach-Sides ids fd s h r) in ground (arith, f.full, f.open_slot)

-- As long as nobody closes the descriptor, and nobody calls `block` for it while the `postSwitchFunc` of
-- another uThread has still to end, the loop of `postSwitchFunc` goes round at most twice: its compare-and-exchange parks the uThread, or a
-- notification has come behind the load; that stays there whatever comes in between, and the next load
-- resumes the uThread.
pub post_switch-ends :
    (ids : Bool → ℕ) (fd : ℕ) (s : System) (b : Bool)
    → ((c : Bool) → poll_wait < ids c)
    → Reach ids fd s
    → (s.pc b ≡ expecting
        → ((exchange_by b s).pc b ≡ waiting)
          ⊎ (((exchange_by b s).pc b ≡ looping) × (s.noticed b ≡ true)))
      × (s.pc b ≡ looping → (reload_by b s).pc b ≡ outside)
unfolding exchange_by reload_by posted_by post_exchange post_load
post_switch-ends ids fd s true h r =
    let i = Reach-Sides ids fd s h r in
    (
      λ e.
          let on : s.pd.is_blocking_on_read ≡ true = i.turn_r (rw e refl) in
          elim (Bool-cases (s.pd.rut == 0)) [
            | inl z ↦ rw (on, z) (inl refl)
            | inr z ↦ rw (on, z) (inr (refl, ground (arith, i.reader.open_slot)))
          ],
      λ e.
          let on : s.pd.is_blocking_on_read ≡ true = i.turn_r (rw e refl) in
          rw (on, i.reader.ready e) refl,
    )
post_switch-ends ids fd s false h r =
    let i = Reach-Sides ids fd s h r in
    (
      λ e.
          let on : s.pd.is_blocking_on_read ≡ false = i.turn_w (rw e refl) in
          elim (Bool-cases (s.pd.wut == 0)) [
            | inl z ↦ rw (on, z) (inl refl)
            | inr z ↦ rw (on, z) (inr (refl, ground (arith, i.writer.open_slot)))
          ],
      λ e.
          let on : s.pd.is_blocking_on_read ≡ false = i.turn_w (rw e refl) in
          rw (on, i.writer.ready e) refl,
    )
