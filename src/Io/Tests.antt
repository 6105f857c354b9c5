-- ===== src/Io/Tests.antt =====
-- A reader at the address 8 and a writer at 16 of the descriptor 3.
use u_threads.Base.{ℕ, ◌≡◌, ◌≢◌, ◌<◌, ◌⊎◌, refl, Bool, true, false, [], ◌∷◌, some, arith, length}
use u_threads.Io.{
  PollData, Handler, Events, poll_wait, slot, unblock, post_load, post_first, post_exchange,
  post_switch, again, close, poll, block, unblock_try,
}
use u_threads.Io.Run.{
  System, outside, expecting, looping, waiting, block_by, post_by, posted_by, load_by, reload_by,
  exchange_by, notify, start, Reach, at_first, blocks, loads, exchanges, notifies,
}
use u_threads.Io.Waits.{waits-noticed, notice-kept, post_switch-ends}
use u_threads.Io.Closing.{close-writer, block-race}
use u_threads.Io.Polls.{poll-counts}

abbrev ids : Bool → ℕ
ids true = 8
ids false = 16

above : (c : Bool) → poll_wait < ids c
above true = omega arith
above false = omega arith

abbrev s1 : System
s1 = block_by true (start ids 3)

abbrev s2 : System
s2 = exchange_by true (load_by true s1)

abbrev n1 : System
n1 = notify true 0 s1

s1-Reach : Reach ids 3 s1
unfolding start
s1-Reach = blocks true (start ids 3) refl (ground arith) at_first

s2-Reach : Reach ids 3 s2
unfolding start block_by block load_by posted_by post_first post_load
s2-Reach = exchanges true (load_by true s1) refl (loads true s1 refl s1-Reach)

n1-Reach : Reach ids 3 n1
n1-Reach = notifies true 0 s1 (ground arith) s1-Reach

is_waiting : s2.pc true ≡ waiting
unfolding start block_by block load_by exchange_by posted_by post_first post_load post_exchange
is_waiting = refl

is_noticed : n1.noticed true ≡ true
unfolding start block_by block notify unblock_try
is_noticed = refl

waits-noticed_example : (s2.noticed true ≡ false) × ((unblock true s2.pd).1 ≡ some 8)
waits-noticed_example = waits-noticed ids 3 s2 true above s2-Reach is_waiting

notice-kept_example : (slot true n1.pd ≡ 1) × (n1.pc true ≢ waiting)
notice-kept_example = notice-kept ids 3 n1 true above n1-Reach is_noticed

-- The notification comes behind the load.
abbrev n2 : System
n2 = notify true 0 (load_by true s1)

n2-Reach : Reach ids 3 n2
unfolding start block_by block
n2-Reach = notifies true 0 (load_by true s1) (ground arith) (loads true s1 refl s1-Reach)

post_switch-ends_example :
    (n2.pc true ≡ expecting
      → ((exchange_by true n2).pc true ≡ waiting)
        ⊎ (((exchange_by true n2).pc true ≡ looping) × (n2.noticed true ≡ true)))
    × (n2.pc true ≡ looping → (reload_by true n2).pc true ≡ outside)
post_switch-ends_example = post_switch-ends ids 3 n2 true above n2-Reach

goes_round : (exchange_by true n2).pc true ≡ looping
unfolding start block_by block notify unblock_try load_by exchange_by posted_by post_first post_load
    post_exchange
goes_round = refl

abbrev both_wait : PollData
both_wait = record {
  rut = 8;
  wut = 16;
  closing = false;
  opened = true;
  is_blocking_on_read = false;
  fd = 3;
}

close-writer_example :
    let c = close false both_wait in
    (c.resumed ≡ []) × (c.bulk ≡ 8 ∷ []) × (c.closes ≡ true) × (c.pd.wut ≡ 0)
close-writer_example = close-writer false both_wait refl (omega arith)

abbrev first : System
first = record {
  pd = record both_wait { rut = 0; wut = 0 };
  ids = ids;
  pc = λ b. outside;
  noticed = λ b. false;
}

block-race_example :
    ((post_by true (block_by false (block_by true first))).pd.wut ≡ 8)
    × ((post_by true (block_by false (block_by true first))).pd.rut ≡ 0)
    × ((post_switch 16 (post_by true (block_by false (block_by true first))).pd).1 ≡ again)
block-race_example = block-race first refl refl (refl, refl, refl) (omega arith) (omega arith)

abbrev handler : Handler
handler = record { pds = λ p. both_wait; bulk = []; unblock_counter = 5 }

abbrev hung_up : Events
hung_up = record {
  epollin = false;
  epollout = false;
  epollrdhup = false;
  epollhup = true;
  epollerr = false;
}

poll-counts_case :
    ((poll (some ((7, hung_up) ∷ [])) handler).0
      ≡ some (length (poll (some ((7, hung_up) ∷ [])) handler).1))
    × ((poll (some ((7, hung_up) ∷ [])) handler).2.bulk ≡ [])
poll-counts_case = poll-counts ((7, hung_up) ∷ []) handler refl
