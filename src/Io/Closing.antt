-- ===== src/Io/Closing.antt =====
-- What `close` does with the uThreads that wait, and what becomes of two uThreads that call `block`
-- for the two directions at once.
use u_threads.Base.{
  ap, sym, ◌∙◌, Bool, ◌==◌, ℕ, ◌≡◌, ◌≢◌, ◌<◌, refl, inl, inr, Bool-cases, true, false, [], ◌∷◌, ltb,
  arith, if◌then◌else◌,
}
use u_threads.Io.{
  slot, set_slot, PollData, poll_ready, poll_wait, close, unblock, unblock_try, reset, block,
  post_switch, post_first, post_load, post_exchange, then_exchange, again, dropped,
}
use u_threads.Io.Run.{System, outside, block_by, post_by, posted_by}

-- The first call of `close` finds a waiting reader only: with `NPOLLBULKPUSH` it resumes it, without it
-- the reader goes to a bulk queue and is not resumed. A waiting writer is forgotten either way.
pub close-writer :
    (npollbulkpush : Bool) (pd : PollData)
    → pd.closing ≡ false
    → poll_wait < pd.wut
    → let reader = if ltb poll_wait pd.rut then pd.rut ∷ [] else [] in
      let c = close npollbulkpush pd in
      (c.resumed ≡ (if npollbulkpush then reader else []))
      × (c.bulk ≡ (if npollbulkpush then [] else reader))
      × (c.closes ≡ true)
      × (c.pd.wut ≡ 0)
unfolding close unblock unblock_try reset
close-writer npollbulkpush pd c w = elim (Bool-cases (ltb poll_wait pd.rut)) [
  | inl e ↦ ground arith
  | inr e ↦ ground arith
]

pub close-resets :
    (npollbulkpush : Bool) (pd : PollData) → pd.closing ≡ false → (close npollbulkpush pd).pd.fd ≡ 0
unfolding close unblock unblock_try reset
close-resets npollbulkpush pd c = elim (Bool-cases (ltb poll_wait pd.rut)) [
  | inl e ↦ ground arith
  | inr e ↦ ground arith
]

-- A uThread that is in `block` when another one closes the descriptor is left suspended in no slot.
pub post_switch-closing :
    (ut : ℕ) (pd : PollData)
    → pd.closing ≡ true
    → ((post_switch ut pd).1 ≡ dropped) × ((post_switch ut pd).0 ≡ pd)
unfolding post_switch then_exchange post_first
post_switch-closing ut pd c = rw c (refl, refl)

block_by-empty :
    (b : Bool) (s : System)
    → slot b s.pd ≡ 0
    → (block_by b s).pd ≡ record s.pd { is_blocking_on_read = b }
unfolding block_by block
block_by-empty b s z = rw z refl

post_by-empty :
    (b : Bool) (s : System)
    → s.pd.closing ≡ false
    → s.pd.is_blocking_on_read ≡ false
    → s.pd.wut ≡ 0
    → (post_by b s).pd ≡ set_slot false (s.ids b) s.pd
unfolding post_by posted_by post_switch then_exchange post_first post_load post_exchange
post_by-empty b s c w z = simp (c, w, z)

post_switch-taken :
    (ut : ℕ) (pd : PollData)
    → pd.closing ≡ false
    → pd.is_blocking_on_read ≡ false
    → pd.wut ≢ 0
    → pd.wut ≢ poll_ready
    → (post_switch ut pd).1 ≡ again
unfolding post_switch then_exchange post_first post_load post_exchange
post_switch-taken ut pd c w n1 n2 =
    let not_null : (pd.wut == 0) ≡ false = ground (arith, n1) in
    let not_ready : (pd.wut == 1) ≡ false = ground (arith, n2) in simp (c, w, not_null, not_ready)

-- A reader and a writer that both call `block` before either `postSwitchFunc` runs share
-- `isBlockingOnRead`: the reader goes to the writer's slot, and the writer's loop goes round again.
pub block-race :
    (s : System)
    → s.pc true ≡ outside
    → s.pc false ≡ outside
    → (s.pd.rut ≡ 0) × (s.pd.wut ≡ 0) × (s.pd.closing ≡ false)
    → s.ids true ≢ 0
    → s.ids true ≢ poll_ready
    → ((post_by true (block_by false (block_by true s))).pd.wut ≡ s.ids true)
      × ((post_by true (block_by false (block_by true s))).pd.rut ≡ 0)
      × ((post_switch (s.ids false) (post_by true (block_by false (block_by true s))).pd).1 ≡ again)
unfolding block_by
block-race s or ow (zr, zw, c) n1 n2 =
    let s1 = block_by true s in
    let s2 = block_by false s1 in
    let e1 = block_by-empty true s zr in
    let e2 = block_by-empty false s1 (ap (λ pd. pd.wut) e1 ∙ zw) in
    let both : s2.pd ≡ record s.pd { is_blocking_on_read = false } =
      e2 ∙ ap {A = PollData} (λ pd. record pd { is_blocking_on_read = false }) e1 in
    let e3 =
      post_by-empty true s2 (ap (λ pd. pd.closing) both ∙ c)
        (ap (λ pd. pd.is_blocking_on_read) both) (ap (λ pd. pd.wut) both ∙ zw) in
    let taken : (post_by true s2).pd.wut ≡ s.ids true = ap (λ pd. pd.wut) e3 in
    (
      taken,
      ap (λ pd. pd.rut) (e3 ∙ ap (set_slot false (s.ids true)) both) ∙ zr,
      post_switch-taken (s.ids false) (post_by true s2).pd
          (ap (λ pd. pd.closing) (e3 ∙ ap (set_slot false (s.ids true)) both) ∙ c)
          (ap (λ pd. pd.is_blocking_on_read) (e3 ∙ ap (set_slot false (s.ids true)) both))
          (λ z. n1 (sym taken ∙ z)) (λ z. n2 (sym taken ∙ z)),
    )
