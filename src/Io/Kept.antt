-- ===== src/Io/Kept.antt =====
-- Every interleaving keeps what holds of the slots of a descriptor.
use u_threads.Base.{ℕ, ◌≢◌, ◌<◌, refl, inl, inr, Bool, true, false, ◌==◌, ltb, arith, Bool-cases}
use u_threads.Io.{poll_ready, poll_wait, unblock_try}
use u_threads.Io.Run.{System, notify, start, Reach}
use u_threads.Io.Sides.{Sides}
use u_threads.Io.Blocks.{block-Sides, load-Sides, reload-Sides, exchange-Sides}

notify-Sides :
    (ids : Bool → ℕ) (b : Bool) (old : ℕ) (s : System)
    → old ≢ poll_ready
    → Sides ids s
    → Sides ids (notify b old s)
unfolding notify unblock_try
notify-Sides ids true old s ne i =
    let r = i.reader in
    elim (Bool-cases (s.pd.rut == old)) [
      | inl e ↦ elim (Bool-cases (ltb poll_wait old)) [
        | inl l ↦
            rw (e, l)
              (record {
                same = i.same;
                above = i.above;
                reader = record {
                  full = λ h. ground (arith, r.full, r.open_slot);
                  open_slot = λ h. ground (arith, r.full, r.open_slot);
                  ready = λ h. ground (arith, r.ready);
                };
                writer = i.writer;
                not_closing = i.not_closing;
                turn_r = λ h. ground (arith, i.turn_r);
                turn_w = λ h. ground (arith, i.turn_w);
              })
        | inr l ↦
            rw (e, l)
              (record {
                same = i.same;
                above = i.above;
                reader = record {
                  full = λ h. ground (arith, r.full, r.open_slot, i.above true);
                  open_slot = λ h. ground (arith, r.full, r.open_slot, i.above true);
                  ready = λ h. ground (arith, r.ready);
                };
                writer = i.writer;
                not_closing = i.not_closing;
                turn_r = λ h. ground (arith, i.turn_r);
                turn_w = λ h. ground (arith, i.turn_w);
              })
      ]
      | inr e ↦ rw e (record {
        same = i.same;
        above = i.above;
        reader = i.reader;
        writer = i.writer;
        not_closing = i.not_closing;
        turn_r = i.turn_r;
        turn_w = i.turn_w;
      })
    ]
notify-Sides ids false old s ne i =
    let r = i.writer in
    elim (Bool-cases (s.pd.wut == old)) [
      | inl e ↦ elim (Bool-cases (ltb poll_wait old)) [
        | inl l ↦
            rw (e, l)
              (record {
                same = i.same;
                above = i.above;
                writer = record {
                  full = λ h. ground (arith, r.full, r.open_slot);
                  open_slot = λ h. ground (arith, r.full, r.open_slot);
                  ready = λ h. ground (arith, r.ready);
                };
                reader = i.reader;
                not_closing = i.not_closing;
                turn_r = λ h. ground (arith, i.turn_r);
                turn_w = λ h. ground (arith, i.turn_w);
              })
        | inr l ↦
            rw (e, l)
              (record {
                same = i.same;
                above = i.above;
                writer = record {
                  full = λ h. ground (arith, r.full, r.open_slot, i.above false);
                  open_slot = λ h. ground (arith, r.full, r.open_slot, i.above false);
                  ready = λ h. ground (arith, r.ready);
                };
                reader = i.reader;
                not_closing = i.not_closing;
                turn_r = λ h. ground (arith, i.turn_r);
                turn_w = λ h. ground (arith, i.turn_w);
              })
      ]
      | inr e ↦ rw e (record {
        same = i.same;
        above = i.above;
        reader = i.reader;
        writer = i.writer;
        not_closing = i.not_closing;
        turn_r = i.turn_r;
        turn_w = i.turn_w;
      })
    ]

start-Sides :
    (ids : Bool → ℕ) (fd : ℕ) → ((b : Bool) → poll_wait < ids b) → Sides ids (start ids fd)
unfolding start
start-Sides ids fd h = record {
  same = λ b. refl;
  above = h;
  reader = record {
    full = λ e. ground arith;
    open_slot = λ e. inl (refl, refl);
    ready = λ e. ground arith;
  };
  writer = record {
    full = λ e. ground arith;
    open_slot = λ e. inl (refl, refl);
    ready = λ e. ground arith;
  };
  not_closing = refl;
  turn_r = λ e. ground arith;
  turn_w = λ e. ground arith;
}

pub Reach-Sides :
    (ids : Bool → ℕ) (fd : ℕ) (s : System)
    → ((b : Bool) → poll_wait < ids b)
    → Reach ids fd s
    → Sides ids s
Reach-Sides ids fd _ h Reach.at_first = start-Sides ids fd h
Reach-Sides ids fd _ h (Reach.blocks b s o n r) = block-Sides ids b s o n (Reach-Sides ids fd s h r)
Reach-Sides ids fd _ h (Reach.loads b s o r) = load-Sides ids b s o (Reach-Sides ids fd s h r)
Reach-Sides ids fd _ h (Reach.reloads b s o r) = reload-Sides ids b s o (Reach-Sides ids fd s h r)
Reach-Sides ids fd _ h (Reach.exchanges b s o r) =
    exchange-Sides ids b s o (Reach-Sides ids fd s h r)
Reach-Sides ids fd _ h (Reach.notifies b old s ne r) =
    notify-Sides ids b old s ne (Reach-Sides ids fd s h r)
