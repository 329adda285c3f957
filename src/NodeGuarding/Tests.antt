-- ===== src/NodeGuarding/Tests.antt =====
-- Runs of node guarding.
use e_rob_canopen_node_demo.Base.{ℕ, ◌≡◌, refl, List, [], ◌∷◌, true, false, arith}
use e_rob_canopen_node_demo.NodeGuarding.{reported}
use e_rob_canopen_node_demo.NodeGuarding.Slave
use e_rob_canopen_node_demo.NodeGuarding.Master
use e_rob_canopen_node_demo.NodeGuarding.Polling.{is_quiet}
use e_rob_canopen_node_demo.NodeGuarding.Guarding.{Guarded, polls, polls-Guarded}

-- A slave that no request reaches any more.
silent :
    (Slave.process (record (Slave.init 100 2) { life_timer = 200000 }) 5 false 200000).1
    ≡ reported 0 ∷ []
unfolding Slave.process Slave.watch
silent = refl

abbrev calls : List (ℕ × ℕ)
calls = (127, 1000) ∷ (127, 60000) ∷ (5, 60000) ∷ (5, 250000) ∷ []

polls-Guarded_example :
    let r = polls calls (Master.init_node 5 100) (Slave.init 100 2) in
    Guarded 100000 200000 r.node r.slave × (is_quiet r.events ≡ true)
polls-Guarded_example =
    polls-Guarded 5 100 2 calls (omega arith) (omega arith) (omega arith) (omega arith)
      (omega arith, (omega arith, (omega arith, (omega arith, tt))))

-- The next call is due at the end of the life time, and of the guard time.
wakes_slave :
    Slave.timer_next (record (Slave.init 100 2) { life_timer = 200000 }) false 50000 900000 ≡ 150000
unfolding Slave.timer_next
wakes_slave = refl

wakes_master :
    Master.timer_next
      (record (Master.init_node 5 100) { guard_timer = 80000 } ∷ Master.init_node 6 100 ∷ [])
      30000
      900000
    ≡ 50000
unfolding Master.timer_next
wakes_master = refl
