-- ===== src/LssSlave/Fastscan.antt =====
-- Fastscan of an LSS slave without a node-ID: a scan with the slave's own numbers selects it.
use e_rob_canopen_node_demo.Base.{
  ℕ, ◌/◌, ◌%◌, ◌≤◌, ◌<◌, ◌≡◌, refl, ap, ◌∙◌, List, [], ◌∷◌, true, false, arith, ltb, leb, ◌==◌,
  bit_and,
}
use e_rob_canopen_node_demo.LssSlave.{
  Address, Slave, Taken, addr, mask_from, value, receive_waiting, fastscan, take, receive, process,
  serve,
}
use e_rob_canopen_node_demo.LssSlave.Selection.{IsAddress}

-- The fastscan message with a number, whether all its bits count, and the two parts of the identity.
abbrev pub scan : ℕ → ℕ → ℕ → List ℕ
scan v sub following =
    0x51 ∷ v % 256 ∷ v / 256 % 256 ∷ v / 65536 % 256 ∷ v / 16777216 % 256 ∷ 0 ∷ sub ∷ following ∷ []

value-scan : (v sub following : ℕ) → v < 4294967296 → value (scan v sub following) ≡ v
value-scan v sub following p = omega arith

-- A message and the call of the process function that answers it; the application is not asked.
abbrev pub round : Slave → ℕ → ℕ → ℕ → Slave
round s v sub following = (process (receive s (scan v sub following) 8).0 (λ _. false) false).0

-- A slave that waits without a node-ID, at one part of its identity.
abbrev pub unassigned : Slave → ℕ → Slave
unassigned s pos = record s {
  in_configuration = false;
  send_response = false;
  pending_node_id = 0xFF;
  active_node_id = 0xFF;
  fastscan_pos = pos;
}

self_equal : (n : ℕ) → (n == n) ≡ true
self_equal n = ground arith

-- The slave once a part has matched.
abbrev pub matched : Slave → ℕ → ℕ → Slave
matched s sub following = record (unassigned s following) {
  service = 0x51;
  in_configuration = ltb following sub;
}

fastscan-matched :
    (s : Slave) (v sub following : ℕ)
    → v < 4294967296
    → sub ≤ 3
    → following ≤ 3
    → addr s.lss_address sub ≡ v
    → fastscan (unassigned s sub) (scan v sub following) ≡ (matched s sub following, true)
unfolding fastscan
fastscan-matched s v sub following p q r e =
    let a : leb sub 3 ≡ true = ground arith in
    let b : leb following 3 ≡ true = ground arith in
    let m : (bit_and (addr s.lss_address sub) (mask_from 0)
          == bit_and (value (scan v sub following)) (mask_from 0))
        ≡ true =
      rw (value-scan v sub following p, e) (self_equal (bit_and v (mask_from 0))) in
    rw (a, b, self_equal sub, m) refl

receive-matched :
    (s : Slave) (v sub following : ℕ)
    → v < 4294967296
    → sub ≤ 3
    → following ≤ 3
    → addr s.lss_address sub ≡ v
    → (receive (unassigned s sub) (scan v sub following) 8).0
      ≡ record (matched s sub following) { send_response = true }
unfolding receive take receive_waiting
receive-matched s v sub following p q r e =
    ap (λ (t : Taken). record t.0 { send_response = t.1 })
      (fastscan-matched s v sub following p q r e)

process-matched :
    (s : Slave) (sub following : ℕ)
    → (process (record (matched s sub following) { send_response = true }) (λ _. false) false).0
      ≡ matched s sub following
unfolding process serve
process-matched s sub following = refl

round_lem :
    (s : Slave) (v sub following : ℕ)
    → v < 4294967296
    → sub ≤ 3
    → following ≤ 3
    → addr s.lss_address sub ≡ v
    → round (unassigned s sub) v sub following ≡ matched s sub following
round_lem s v sub following p q r e =
    ap (λ t. (process t (λ _. false) false).0) (receive-matched s v sub following p q r e)
    ∙ process-matched s sub following

-- The four messages with all bits of the numbers of an identity.
abbrev pub scan_all : Slave → Address → Slave
scan_all s id =
    round (round (round (round s id.vendor_id 0 1) id.product_code 1 2) id.revision_number 2 3)
      id.serial_number 3 0

-- A slave without a node-ID, at the start of a fastscan, is in the configuration state after four
-- messages with all bits of its own four numbers.
pub scan_all-selects :
    (s : Slave)
    → IsAddress s.lss_address
    → (scan_all (unassigned s 0) s.lss_address).in_configuration ≡ true
scan_all-selects s a =
    let id = s.lss_address in
    let s1 = record s { service = 0x51 } in
    let one = round_lem s id.vendor_id 0 1 a.0 (omega arith) (omega arith) refl in
    let two = round_lem s1 id.product_code 1 2 a.1 (omega arith) (omega arith) refl in
    let three = round_lem s1 id.revision_number 2 3 a.2 (omega arith) (omega arith) refl in
    let four = round_lem s1 id.serial_number 3 0 a.3 (omega arith) (omega arith) refl in
    ap
      (λ t.
        (round (round (round t id.product_code 1 2) id.revision_number 2 3) id.serial_number 3
          0).in_configuration)
      one
    ∙ ap (λ t. (round (round t id.revision_number 2 3) id.serial_number 3 0).in_configuration) two
    ∙ ap (λ t. (round t id.serial_number 3 0).in_configuration) three
    ∙ ap (λ t. t.in_configuration) four
