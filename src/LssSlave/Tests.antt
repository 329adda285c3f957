-- ===== src/LssSlave/Tests.antt =====
-- Runs of the LSS slave, and its theorems at concrete slaves.
use e_rob_canopen_node_demo.Base.{ℕ, ◌≡◌, ◌≢◌, refl, some, [], ◌∷◌, arith, Bool, true, false}
use e_rob_canopen_node_demo.LssSlave.{
  Address, Slave, fresh, init, receive, process, response, node_id_valid, node_id_assignment,
}
use e_rob_canopen_node_demo.LssSlave.NodeId.{received, start, step, Reached-resets}
use e_rob_canopen_node_demo.LssSlave.Selection.{message, select_all, Switched, select_all-selects}
use e_rob_canopen_node_demo.LssSlave.Fastscan.{scan_all, unassigned, scan_all-selects}

abbrev identity : Address
identity = record {
  vendor_id = 0x5A;
  product_code = 0x12345678;
  revision_number = 3;
  serial_number = 0xFFFFFFFF;
}

abbrev slave : Slave
slave = fresh identity 1000 0xFF

-- The message that assigns node-ID 5, in the configuration state.
abbrev assigned : Slave
assigned =
    (process
      (receive (record slave { in_configuration = true }) (0x11 ∷ 5 ∷ 0 ∷ 0 ∷ 0 ∷ 0 ∷ 0 ∷ 0 ∷ [])
        8).0
      (λ _. false) false).0

pending-assigned : assigned.pending_node_id ≡ 5
unfolding process receive
pending-assigned = refl

-- A slave in the configuration state answers the selective switch for another identity.
answers_other :
    (process
      (receive (record slave { in_configuration = true }) (message 0x43 1) 8).0
      (λ _. false)
      false).2
    ≡ response 0x44 0 0 ∷ []
unfolding process receive
answers_other = refl

slave-init : init identity 1000 0xFF ≡ some slave
unfolding init
slave-init = refl

abbrev first : Slave
first = (receive slave (4 ∷ 1 ∷ 0 ∷ 0 ∷ 0 ∷ 0 ∷ 0 ∷ 0 ∷ []) 8).0

Reached-resets_example :
    (node_id_valid first.pending_node_id ≡ true)
    × ((supported : ℕ → Bool) (stored : Bool)
        → (process first supported stored).1 ≡ true
        → (first.active_node_id ≡ node_id_assignment)
          × (first.pending_node_id ≢ node_id_assignment))
Reached-resets_example = Reached-resets identity 1000 0xFF first (
    step slave false first (start slave slave-init)
      (received slave (4 ∷ 1 ∷ 0 ∷ 0 ∷ 0 ∷ 0 ∷ 0 ∷ 0 ∷ []) 8))

select_all-selects_example : Switched slave identity (select_all slave identity)
select_all-selects_example =
    select_all-selects slave identity (refl, refl)
      (omega arith, omega arith, omega arith, omega arith)

scan_all-selects_example : (scan_all (unassigned slave 0) identity).in_configuration ≡ true
scan_all-selects_example =
    scan_all-selects slave (omega arith, omega arith, omega arith, omega arith)
