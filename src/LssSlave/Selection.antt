-- ===== src/LssSlave/Selection.antt =====
-- Selecting an LSS slave: by its complete identity in four messages, and by fastscan.
use e_rob_canopen_node_demo.Base.{
  ℕ, ◌/◌, ◌%◌, ◌<◌, ◌≡◌, true, inl, inr, refl, sym, ap, ap₂, subst, ◌∙◌, List, [], ◌∷◌, false,
  arith, Bool-cases,
}
use e_rob_canopen_node_demo.LssSlave.{
  Address, Slave, address_equal, value, select_serial, receive_waiting, take, receive,
}

-- The message of the master with a command and a number.
abbrev pub message : ℕ → ℕ → List ℕ
message cs v = cs ∷ v % 256 ∷ v / 256 % 256 ∷ v / 65536 % 256 ∷ v / 16777216 % 256 ∷ 0 ∷ 0 ∷ 0 ∷ []

value-message : (cs v : ℕ) → v < 4294967296 → value (message cs v) ≡ v
value-message cs v p = omega arith

-- The four messages of the selective switch, one after the other.
abbrev pub select_all : Slave → Address → Slave
select_all s id =
    (receive
      (receive
        (receive (receive s (message 0x40 id.vendor_id) 8).0 (message 0x41 id.product_code) 8).0
        (message 0x42 id.revision_number) 8).0
      (message 0x43 id.serial_number) 8).0

-- A slave that waits, with nothing left to process.
abbrev pub IsIdle : Slave → Type 0
IsIdle s = (s.in_configuration ≡ false) × (s.send_response ≡ false)

abbrev idle : Slave → Slave
idle s = record s { in_configuration = false; send_response = false }

abbrev selecting : Slave → Address → Slave
selecting s select = idle (record s { lss_select = select })

receive-vendor :
    (s : Slave) (v : ℕ)
    → v < 4294967296
    → (receive (idle s) (message 0x40 v) 8).0 ≡ selecting s (record s.lss_select { vendor_id = v })
unfolding receive take receive_waiting
receive-vendor s v p =
    ap (λ k. selecting s (record s.lss_select { vendor_id = k })) (value-message 0x40 v p)

receive-product :
    (s : Slave) (v : ℕ)
    → v < 4294967296
    → (receive (idle s) (message 0x41 v) 8).0
      ≡ selecting s (record s.lss_select { product_code = v })
unfolding receive take receive_waiting
receive-product s v p =
    ap (λ k. selecting s (record s.lss_select { product_code = k })) (value-message 0x41 v p)

receive-revision :
    (s : Slave) (v : ℕ)
    → v < 4294967296
    → (receive (idle s) (message 0x42 v) 8).0
      ≡ selecting s (record s.lss_select { revision_number = v })
unfolding receive take receive_waiting
receive-revision s v p =
    ap (λ k. selecting s (record s.lss_select { revision_number = k })) (value-message 0x42 v p)

receive-serial :
    (s : Slave) (v : ℕ)
    → v < 4294967296
    → let t = (receive (idle s) (message 0x43 v) 8).0 in
      let equal = address_equal s.lss_address (record s.lss_select { serial_number = v }) in
      (t.in_configuration ≡ equal) × (t.send_response ≡ equal)
unfolding receive take receive_waiting select_serial
receive-serial s v p =
    elim (Bool-cases (address_equal s.lss_address (record s.lss_select { serial_number = v }))) [
      | inl e ↦ rw (value-message 0x43 v p, e) (refl, refl)
      | inr e ↦ rw (value-message 0x43 v p, e) (refl, refl)
    ]

-- The numbers of an identity are `uint32_t`.
abbrev pub IsAddress : Address → Type 0
IsAddress id =
    (id.vendor_id < 4294967296)
    × (id.product_code < 4294967296)
    × (id.revision_number < 4294967296)
    × (id.serial_number < 4294967296)

select_idle :
    (s : Slave) (id : Address)
    → IsAddress id
    → ((select_all (idle s) id).in_configuration ≡ address_equal s.lss_address id)
      × ((select_all (idle s) id).send_response ≡ address_equal s.lss_address id)
select_idle s id a =
    let s1 = selecting s (record s.lss_select { vendor_id = id.vendor_id }) in
    let s2 = selecting s1 (record s1.lss_select { product_code = id.product_code }) in
    let s3 = selecting s2 (record s2.lss_select { revision_number = id.revision_number }) in
    let product = message 0x41 id.product_code in
    let revision = message 0x42 id.revision_number in
    let three : (receive (receive (receive (idle s) (message 0x40 id.vendor_id) 8).0 product 8).0
          revision 8).0
        ≡ s3 =
      ap (λ t. (receive (receive t product 8).0 revision 8).0) (receive-vendor s id.vendor_id a.0)
      ∙ ap (λ t. (receive t revision 8).0) (receive-product s1 id.product_code a.1)
      ∙ receive-revision s2 id.revision_number a.2 in
    subst
      (λ t.
        let u = (receive t (message 0x43 id.serial_number) 8).0 in
        (u.in_configuration ≡ address_equal s.lss_address id)
        × (u.send_response ≡ address_equal s.lss_address id))
      (sym three) (receive-serial s3 id.serial_number a.3)

idle_self : (s : Slave) → IsIdle s → idle s ≡ s
idle_self s i =
    ap₂ (λ c r. record s { in_configuration = c; send_response = r }) (sym i.0) (sym i.1)

-- The two identities have the same four numbers.
pub record IsSame (a b : Address) : Type 0 where
  pub vendor_id : a.vendor_id ≡ b.vendor_id
  pub product_code : a.product_code ≡ b.product_code
  pub revision_number : a.revision_number ≡ b.revision_number
  pub serial_number : a.serial_number ≡ b.serial_number

IsSame-equal : {a b : Address} → IsSame a b → address_equal a b ≡ true
IsSame-equal h =
    let v = h.vendor_id in
    let p = h.product_code in let r = h.revision_number in let s = h.serial_number in ground arith

equal-IsSame : (a b : Address) → address_equal a b ≡ true → IsSame a b
equal-IsSame a b h = record {
  vendor_id = ground arith;
  product_code = ground arith;
  revision_number = ground arith;
  serial_number = ground arith;
}

-- What the four messages of a selective switch to an identity leave of a slave: it is selected when
-- the identity is its own in all four numbers, and waits on when one of them differs.
pub record Switched (s : Slave) (id : Address) (after : Slave) : Type 0 where
  pub own : IsSame s.lss_address id → (after.in_configuration ≡ true) × (after.send_response ≡ true)
  pub foreign :
      ¬ IsSame s.lss_address id → (after.in_configuration ≡ false) × (after.send_response ≡ false)

idle-Switched : (s : Slave) (id : Address) → IsAddress id → Switched s id (select_all (idle s) id)
idle-Switched s id a =
    let r = select_idle s id a in
    record {
      own = λ h. (r.0 ∙ IsSame-equal h, r.1 ∙ IsSame-equal h);
      foreign = λ h.
          let e : address_equal s.lss_address id ≡ false =
            elim (Bool-cases (address_equal s.lss_address id)) [
              | inl e ↦ absurd (h (equal-IsSame s.lss_address id e))
              | inr e ↦ e
            ] in
          (r.0 ∙ e, r.1 ∙ e);
    }

-- After the four messages of the selective switch, a slave that waited with nothing to process is in
-- the configuration state, with a response to send, when the identity in the messages is its own in
-- vendor ID, product code, revision number and serial number; when one of the four differs, it waits
-- on, with nothing to send.
pub select_all-selects :
    (s : Slave) (id : Address) → IsIdle s → IsAddress id → Switched s id (select_all s id)
select_all-selects s id i a =
    subst (λ t. Switched s id (select_all t id)) (idle_self s i) (idle-Switched s id a)
