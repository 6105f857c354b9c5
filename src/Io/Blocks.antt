-- ===== src/Io/Blocks.antt =====
-- `block` and `postSwitchFunc` keep what holds of the slots.
use u_threads.Base.{ℕ, ◌≡◌, refl, inl, inr, Bool, true, false, not, ◌==◌, arith, Bool-cases}
use u_threads.Io.{block, post_load, post_first, post_exchange}
use u_threads.Io.Run.{
  System, outside, suspending, expecting, looping, in_post, block_by, posted_by, load_by, reload_by,
  exchange_by,
}
use u_threads.Io.Sides.{Sides}

pub block-Sides :
    (ids : Bool → ℕ) (b : Bool) (s : System)
    → s.pc b ≡ outside
    → in_post (s.pc (not b)) ≡ false
    → Sides ids s
    → Sides ids (block_by b s)
unfolding block_by block
block-Sides ids true s o n i =
    let r = i.reader in
    elim (Bool-cases (s.pd.rut == 1)) [
      | inl e ↦ rw e (record {
        same = i.same;
        above = i.above;
        reader = record {
          full = λ h. ground arith;
          open_slot = λ h. ground arith;
          ready = λ h. ground (arith, r.open_slot, r.ready);
        };
        writer = i.writer;
        not_closing = i.not_closing;
        turn_r = λ h. ground (arith, i.turn_r);
        turn_w = λ h. ground (arith, i.turn_w);
      })
      | inr e ↦ rw e (record {
        same = i.same;
        above = i.above;
        reader = record {
          full = λ h. ground arith;
          open_slot = λ h. ground (arith, r.open_slot);
          ready = λ h. ground (arith, r.open_slot, r.ready);
        };
        writer = i.writer;
        not_closing = i.not_closing;
        turn_r = λ h. ground (arith, i.turn_r);
        turn_w = λ h. ground (arith, i.turn_w);
      })
    ]
block-Sides ids false s o n i =
    let r = i.writer in
    elim (Bool-cases (s.pd.wut == 1)) [
      | inl e ↦ rw e (record {
        same = i.same;
        above = i.above;
        writer = record {
          full = λ h. ground arith;
          open_slot = λ h. ground arith;
          ready = λ h. ground (arith, r.open_slot, r.ready);
        };
        reader = i.reader;
        not_closing = i.not_closing;
        turn_r = λ h. ground (arith, i.turn_r);
        turn_w = λ h. ground (arith, i.turn_w);
      })
      | inr e ↦ rw e (record {
        same = i.same;
        above = i.above;
        writer = record {
          full = λ h. ground arith;
          open_slot = λ h. ground (arith, r.open_slot);
          ready = λ h. ground (arith, r.open_slot, r.ready);
        };
        reader = i.reader;
        not_closing = i.not_closing;
        turn_r = λ h. ground (arith, i.turn_r);
        turn_w = λ h. ground (arith, i.turn_w);
      })
    ]

pub load-Sides :
    (ids : Bool → ℕ) (b : Bool) (s : System)
    → s.pc b ≡ suspending
    → Sides ids s
    → Sides ids (load_by b s)
unfolding load_by posted_by post_first post_load
load-Sides ids true s o i =
    let r = i.reader in
    let on : s.pd.is_blocking_on_read ≡ true = i.turn_r (rw o refl) in
    elim (Bool-cases (s.pd.rut == 1)) [
      | inl e ↦
          rw (i.not_closing, on, e)
            (record {
              same = i.same;
              above = i.above;
              reader = record {
                full = λ h. ground (arith);
                open_slot = λ h. ground (arith);
                ready = λ h. ground (arith, r.open_slot, r.ready);
              };
              writer = i.writer;
              not_closing = refl;
              turn_r = λ h. ground (arith, i.turn_r);
              turn_w = λ h. ground (arith, i.turn_w);
            })
      | inr e ↦
          rw (i.not_closing, on, e)
            (record {
              same = i.same;
              above = i.above;
              reader = record {
                full = λ h. ground (arith, r.open_slot);
                open_slot = λ h. ground (arith, r.open_slot);
                ready = λ h. ground (arith, r.open_slot, r.ready);
              };
              writer = i.writer;
              not_closing = refl;
              turn_r = λ h. ground (arith, i.turn_r);
              turn_w = λ h. ground (arith, i.turn_w);
            })
    ]
load-Sides ids false s o i =
    let r = i.writer in
    let on : s.pd.is_blocking_on_read ≡ false = i.turn_w (rw o refl) in
    elim (Bool-cases (s.pd.wut == 1)) [
      | inl e ↦
          rw (i.not_closing, on, e)
            (record {
              same = i.same;
              above = i.above;
              writer = record {
                full = λ h. ground (arith);
                open_slot = λ h. ground (arith);
                ready = λ h. ground (arith, r.open_slot, r.ready);
              };
              reader = i.reader;
              not_closing = refl;
              turn_r = λ h. ground (arith, i.turn_r);
              turn_w = λ h. ground (arith, i.turn_w);
            })
      | inr e ↦
          rw (i.not_closing, on, e)
            (record {
              same = i.same;
              above = i.above;
              writer = record {
                full = λ h. ground (arith, r.open_slot);
                open_slot = λ h. ground (arith, r.open_slot);
                ready = λ h. ground (arith, r.open_slot, r.ready);
              };
              reader = i.reader;
              not_closing = refl;
              turn_r = λ h. ground (arith, i.turn_r);
              turn_w = λ h. ground (arith, i.turn_w);
            })
    ]

pub reload-Sides :
    (ids : Bool → ℕ) (b : Bool) (s : System)
    → s.pc b ≡ looping
    → Sides ids s
    → Sides ids (reload_by b s)
unfolding reload_by posted_by post_load
reload-Sides ids true s o i =
    let r = i.reader in
    let on : s.pd.is_blocking_on_read ≡ true = i.turn_r (rw o refl) in
    elim (Bool-cases (s.pd.rut == 1)) [
      | inl e ↦
          rw (on, e)
            (record {
              same = i.same;
              above = i.above;
              reader = record {
                full = λ h. ground (arith);
                open_slot = λ h. ground (arith);
                ready = λ h. ground (arith, r.open_slot, r.ready);
              };
              writer = i.writer;
              not_closing = i.not_closing;
              turn_r = λ h. ground (arith, i.turn_r);
              turn_w = λ h. ground (arith, i.turn_w);
            })
      | inr e ↦
          rw (on, e)
            (record {
              same = i.same;
              above = i.above;
              reader = record {
                full = λ h. ground (arith, r.open_slot);
                open_slot = λ h. ground (arith, r.open_slot);
                ready = λ h. ground (arith, r.open_slot, r.ready);
              };
              writer = i.writer;
              not_closing = i.not_closing;
              turn_r = λ h. ground (arith, i.turn_r);
              turn_w = λ h. ground (arith, i.turn_w);
            })
    ]
reload-Sides ids false s o i =
    let r = i.writer in
    let on : s.pd.is_blocking_on_read ≡ false = i.turn_w (rw o refl) in
    elim (Bool-cases (s.pd.wut == 1)) [
      | inl e ↦
          rw (on, e)
            (record {
              same = i.same;
              above = i.above;
              writer = record {
                full = λ h. ground (arith);
                open_slot = λ h. ground (arith);
                ready = λ h. ground (arith, r.open_slot, r.ready);
              };
              reader = i.reader;
              not_closing = i.not_closing;
              turn_r = λ h. ground (arith, i.turn_r);
              turn_w = λ h. ground (arith, i.turn_w);
            })
      | inr e ↦
          rw (on, e)
            (record {
              same = i.same;
              above = i.above;
              writer = record {
                full = λ h. ground (arith, r.open_slot);
                open_slot = λ h. ground (arith, r.open_slot);
                ready = λ h. ground (arith, r.open_slot, r.ready);
              };
              reader = i.reader;
              not_closing = i.not_closing;
              turn_r = λ h. ground (arith, i.turn_r);
              turn_w = λ h. ground (arith, i.turn_w);
            })
    ]

pub exchange-Sides :
    (ids : Bool → ℕ) (b : Bool) (s : System)
    → s.pc b ≡ expecting
    → Sides ids s
    → Sides ids (exchange_by b s)
unfolding exchange_by posted_by post_exchange
exchange-Sides ids true s o i =
    let r = i.reader in
    let on : s.pd.is_blocking_on_read ≡ true = i.turn_r (rw o refl) in
    elim (Bool-cases (s.pd.rut == 0)) [
      | inl e ↦
          rw (on, e)
            (record {
              same = i.same;
              above = i.above;
              reader = record {
                full = λ h. ground (arith, r.open_slot, i.same true);
                open_slot = λ h. ground (arith, r.open_slot);
                ready = λ h. ground (arith, r.open_slot, r.ready);
              };
              writer = i.writer;
              not_closing = i.not_closing;
              turn_r = λ h. ground (arith, i.turn_r);
              turn_w = λ h. ground (arith, i.turn_w);
            })
      | inr e ↦
          rw (on, e)
            (record {
              same = i.same;
              above = i.above;
              reader = record {
                full = λ h. ground (arith, r.open_slot);
                open_slot = λ h. ground (arith, r.open_slot);
                ready = λ h. ground (arith, r.open_slot, r.ready);
              };
              writer = i.writer;
              not_closing = i.not_closing;
              turn_r = λ h. ground (arith, i.turn_r);
              turn_w = λ h. ground (arith, i.turn_w);
            })
    ]
exchange-Sides ids false s o i =
    let r = i.writer in
    let on : s.pd.is_blocking_on_read ≡ false = i.turn_w (rw o refl) in
    elim (Bool-cases (s.pd.wut == 0)) [
      | inl e ↦
          rw (on, e)
            (record {
              same = i.same;
              above = i.above;
              writer = record {
                full = λ h. ground (arith, r.open_slot, i.same false);
                open_slot = λ h. ground (arith, r.open_slot);
                ready = λ h. ground (arith, r.open_slot, r.ready);
              };
              reader = i.reader;
              not_closing = i.not_closing;
              turn_r = λ h. ground (arith, i.turn_r);
              turn_w = λ h. ground (arith, i.turn_w);
            })
      | inr e ↦
          rw (on, e)
            (record {
              same = i.same;
              above = i.above;
              writer = record {
                full = λ h. ground (arith, r.open_slot);
                open_slot = λ h. ground (arith, r.open_slot);
                ready = λ h. ground (arith, r.open_slot, r.ready);
              };
              reader = i.reader;
              not_closing = i.not_closing;
              turn_r = λ h. ground (arith, i.turn_r);
              turn_w = λ h. ground (arith, i.turn_w);
            })
    ]
