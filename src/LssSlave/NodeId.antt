-- ===== src/LssSlave/NodeId.antt =====
-- The node-ID that the LSS master assigns: it is always valid, and only a node that had none asks
-- for a reset of its communication.
use e_rob_canopen_node_demo.Base.{
  ℕ, ◌≡◌, ◌≢◌, inl, inr, refl, none, some, List, [], Bool, true, false, not, ◌&&◌, ◌||◌, arith,
  get_or, ltb, ◌==◌, if-both, bit_and, Bool-cases,
}
use e_rob_canopen_node_demo.LssSlave.{
  Address, fresh, init, Slave, Event, Taken, node_id_valid, node_id_assignment, switch_global,
  select_serial, fastscan, receive_waiting, take, receive, value, addr, mask_from, address_equal,
  bitcheck_valid, sub_next_valid, bit_timing_table, bit_timing_valid, serve, cfg_node_id,
  cfg_bit_timing, process,
}

-- The node-ID is valid, and a request to reset waits only on a node that had none and now has one.
abbrev pub IsConsistent : Slave → Type 0
IsConsistent s =
    (node_id_valid s.pending_node_id ≡ true)
    × (s.send_response ≡ true
        → s.service ≡ 0x04
        → (s.active_node_id ≡ node_id_assignment) × (s.pending_node_id ≢ node_id_assignment))

-- What a message does to the node-IDs, and when it asks for the service 0x04.
record Received (s : Slave) (t : Taken) : Type 0 where
  pending : t.0.pending_node_id ≡ s.pending_node_id
  active : t.0.active_node_id ≡ s.active_node_id
  reset :
      t.1 ≡ true
      → t.0.service ≡ 0x04
      → (s.active_node_id ≡ node_id_assignment) × (s.pending_node_id ≢ node_id_assignment)

quiet-Received :
    (s t : Slave)
    → t.pending_node_id ≡ s.pending_node_id
    → t.active_node_id ≡ s.active_node_id
    → Received s (t, false)
quiet-Received s t p a = record { pending = p; active = a; reset = λ h. absurd cc }

served-Received :
    (s t : Slave)
    → t.pending_node_id ≡ s.pending_node_id
    → t.active_node_id ≡ s.active_node_id
    → t.service ≢ 0x04
    → Received s (t, true)
served-Received s t p a n = record { pending = p; active = a; reset = λ _ h. absurd (n h) }

reset_condition :
    (c : Bool) (a p : ℕ)
    → (c && (a == node_id_assignment) && not (p == node_id_assignment)) ≡ true
    → (a ≡ node_id_assignment) × (p ≢ node_id_assignment)
reset_condition true a p h = (ground arith, λ e. ground arith)
reset_condition false a p h = absurd cc

switch_global-Received : (s : Slave) (mode : ℕ) → Received s (switch_global s mode)
unfolding switch_global
switch_global-Received s mode = elim (Bool-cases (mode == 0)) [
  | inl e ↦ rw e (record {
    pending = refl;
    active = refl;
    reset = λ h k. reset_condition s.in_configuration s.active_node_id s.pending_node_id h;
  })
  | inr e ↦ elim (Bool-cases (mode == 1)) [
    | inl f ↦ rw (e, f) (quiet-Received s (record s { in_configuration = true }) refl refl)
    | inr f ↦ rw (e, f) (quiet-Received s s refl refl)
  ]
]

select_serial-Received : (s : Slave) (serial : ℕ) → Received s (select_serial s serial)
unfolding select_serial
select_serial-Received s serial =
    let select = record s.lss_select { serial_number = serial } in
    elim (Bool-cases (address_equal s.lss_address select)) [
      | inl e ↦ rw e (
          served-Received s
            (record s { lss_select = select; in_configuration = true; service = 0x43 }) refl refl
            (λ h. omega (arith, h)))
      | inr e ↦ rw e (quiet-Received s (record s { lss_select = select }) refl refl)
    ]

fastscan-Received : (s : Slave) (bytes : List ℕ) → Received s (fastscan s bytes)
unfolding fastscan
fastscan-Received s bytes =
    let bit_check = get_or bytes 5 0 in
    let lss_sub = get_or bytes 6 0 in
    let lss_next = get_or bytes 7 0 in
    let quiet = quiet-Received s s refl refl in
    elim (Bool-cases (
      not (s.pending_node_id == node_id_assignment)
      || not (s.active_node_id == node_id_assignment))) [
        | inl e ↦ rw e quiet
        | inr e ↦
            elim (Bool-cases (
              not (bitcheck_valid bit_check)
              || not (sub_next_valid lss_sub)
              || not (sub_next_valid lss_next))) [
                | inl f ↦ rw (e, f) quiet
                | inr f ↦ elim (Bool-cases (bit_check == 0x80)) [
                  | inl g ↦
                      rw (e, f, g)
                        (served-Received s (record s { fastscan_pos = 0; service = 0x51 }) refl refl
                          (λ h. omega (arith, h)))
                  | inr g ↦
                      elim (Bool-cases (
                        (s.fastscan_pos == lss_sub)
                        && (bit_and (addr s.lss_address lss_sub) (mask_from bit_check)
                            == bit_and (value bytes) (mask_from bit_check)))) [
                              | inl m ↦
                                  rw (e, f, g, m)
                                    (served-Received s
                                      (record s {
                                        in_configuration =
                                            s.in_configuration
                                            || ((bit_check == 0) && ltb lss_next lss_sub);
                                        fastscan_pos = lss_next;
                                        service = 0x51;
                                      })
                                      refl refl (λ h. omega (arith, h)))
                              | inr m ↦ rw (e, f, g, m) quiet
                            ]
                ]
              ]
      ]

receive_waiting-Received : (s : Slave) (bytes : List ℕ) → Received s (receive_waiting s bytes)
unfolding receive_waiting
receive_waiting-Received s bytes =
    let cs = get_or bytes 0 0 in
    let select = s.lss_select in
    elim (Bool-cases (cs == 0x40)) [
      | inl e ↦ rw e (
          quiet-Received s (record s { lss_select = record select { vendor_id = value bytes } })
            refl refl)
      | inr e ↦ elim (Bool-cases (cs == 0x41)) [
        | inl f ↦
            rw (e, f)
              (quiet-Received s
                (record s { lss_select = record select { product_code = value bytes } }) refl refl)
        | inr f ↦ elim (Bool-cases (cs == 0x42)) [
          | inl g ↦
              rw (e, f, g)
                (quiet-Received s
                  (record s { lss_select = record select { revision_number = value bytes } }) refl
                  refl)
          | inr g ↦ elim (Bool-cases (cs == 0x43)) [
            | inl h ↦ rw (e, f, g, h) (select_serial-Received s (value bytes))
            | inr h ↦ elim (Bool-cases (cs == 0x51)) [
              | inl i ↦ rw (e, f, g, h, i) (fastscan-Received s bytes)
              | inr i ↦ rw (e, f, g, h, i) (quiet-Received s s refl refl)
            ]
          ]
        ]
      ]
    ]

take-Received : (s : Slave) (bytes : List ℕ) → Received s (take s bytes)
unfolding take
take-Received s bytes =
    let cs = get_or bytes 0 0 in
    elim (Bool-cases (cs == 0x04)) [
      | inl e ↦ rw e (switch_global-Received s (get_or bytes 1 0))
      | inr e ↦ rw e (
          if-both (Received s) s.in_configuration
            (served-Received s (record s { can_data = bytes; service = cs }) refl refl
              (λ h. ground arith))
            (receive_waiting-Received s bytes))
    ]

receive-IsConsistent :
    (s : Slave) (bytes : List ℕ) (dlc : ℕ) → IsConsistent s → IsConsistent (receive s bytes dlc).0
unfolding receive
receive-IsConsistent s bytes dlc c =
    let t = take-Received s bytes in
    elim (Bool-cases ((dlc == 8) && not s.send_response)) [
      | inl e ↦ rw (e, t.pending, t.active) (c.0, t.reset)
      | inr e ↦ rw e c
    ]

-- What the process function does to the node-ID.
serve-pending :
    (s : Slave) (supported : ℕ → Bool) (stored : Bool)
    → node_id_valid s.pending_node_id ≡ true
    → node_id_valid (serve s supported stored).0.pending_node_id ≡ true
unfolding serve cfg_node_id cfg_bit_timing
serve-pending s supported stored h =
    let P : Slave × List Event → Type 0 = λ r. node_id_valid r.0.pending_node_id ≡ true in
    let nid = get_or s.can_data 1 0 in
    let bit = get_or bit_timing_table (get_or s.can_data 2 0) 0 in
    let cfg = elim (Bool-cases (node_id_valid nid)) as (λ _. P (cfg_node_id s)) [
      | inl e ↦ rw e e
      | inr e ↦ rw e h
    ] in
    if-both P (s.service == 0x43) h (
      if-both P (s.service == 0x11) cfg (
        if-both P (s.service == 0x13)
          (if-both P (not s.has_check_bit_rate) h (
            if-both P ((get_or s.can_data 1 0 == 0) && bit_timing_valid (get_or s.can_data 2 0))
              (if-both P (supported bit) h h) h))
          (if-both P (s.service == 0x15) h (
            if-both P (s.service == 0x17) h (
              if-both P (s.service == 0x5A) h (
                if-both P (s.service == 0x5B) h (
                  if-both P (s.service == 0x5C) h (
                    if-both P (s.service == 0x5D) h
                      (if-both P (s.service == 0x5E) h (if-both P (s.service == 0x51) h h))))))))))

process-IsConsistent :
    (s : Slave) (supported : ℕ → Bool) (stored : Bool)
    → IsConsistent s
    → IsConsistent (process s supported stored).0
unfolding process
process-IsConsistent s supported stored c =
    let served = serve s supported stored in
    if-both (λ (r : Slave × Bool × List Event). IsConsistent r.0) s.send_response
      {x = (record served.0 { send_response = false }, s.service == 0x04, served.1)}
      {y = (s, false, [])}
      (serve-pending s supported stored c.0, λ h. absurd (let k : false ≡ true = h in cc)) c

-- A call on the slave, with whether it asks for a reset of the communication.
pub data Step : Slave → Bool → Slave → Type 0 where
  received : (s : Slave) (bytes : List ℕ) (dlc : ℕ) → Step s false (receive s bytes dlc).0
  processed :
      (s : Slave) (supported : ℕ → Bool) (stored : Bool)
      → Step s (process s supported stored).1 (process s supported stored).0

-- The slaves that calls lead to from an initialised one.
pub data Reached (address : Address) (rate node_id : ℕ) : Slave → Type 0 where
  start : (s : Slave) → init address rate node_id ≡ some s → Reached address rate node_id s
  step :
      (s : Slave) (reset : Bool) (t : Slave)
      → Reached address rate node_id s
      → Step s reset t
      → Reached address rate node_id t

init-IsConsistent :
    (address : Address) (rate node_id : ℕ) (s : Slave)
    → init address rate node_id ≡ some s
    → IsConsistent s
unfolding init
init-IsConsistent address rate node_id s h = elim (Bool-cases (node_id_valid node_id)) [
  | inl e ↦
      let k : some (fresh address rate node_id) ≡ some s = rw e at h in
      let q : s ≡ fresh address rate node_id = cc in
      rw q (e, λ b. absurd (let f : false ≡ true = b in cc))
  | inr e ↦ absurd (let k : none ≡ some s = rw e at h in cc)
]

Reached-IsConsistent :
    (address : Address) (rate node_id : ℕ) (s : Slave)
    → Reached address rate node_id s
    → IsConsistent s
Reached-IsConsistent address rate node_id _ (start s h) = init-IsConsistent address rate node_id s h
Reached-IsConsistent address rate node_id _ (step s _ _ r (received _ bytes dlc)) =
    receive-IsConsistent s bytes dlc (Reached-IsConsistent address rate node_id s r)
Reached-IsConsistent address rate node_id _ (step s _ _ r (processed _ supported stored)) =
    process-IsConsistent s supported stored (Reached-IsConsistent address rate node_id s r)

-- Whatever messages an initialised LSS slave receives, its pending node-ID stays valid, and its
-- process function asks for a reset of the communication only where the active node-ID is
-- unassigned and the pending one is not.
pub Reached-resets :
    (address : Address) (rate node_id : ℕ) (s : Slave)
    → Reached address rate node_id s
    → (node_id_valid s.pending_node_id ≡ true)
      × ((supported : ℕ → Bool) (stored : Bool)
          → (process s supported stored).1 ≡ true
          → (s.active_node_id ≡ node_id_assignment) × (s.pending_node_id ≢ node_id_assignment))
unfolding process
Reached-resets address rate node_id s r =
    let c = Reached-IsConsistent address rate node_id s r in
    (
      c.0,
      λ supported stored h. elim (Bool-cases s.send_response) [
        | inl e ↦ c.1 e (ground arith)
        | inr e ↦ absurd (let k : false ≡ true = rw e at h in cc)
      ],
    )
