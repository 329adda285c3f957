-- ===== src/LssSlave.antt =====
-- 305/CO_LSSslave.c, 305/CO_LSSslave.h and 305/CO_LSS.h: the LSS slave, which answers a fastscan from
-- its process function. The values behind `pendingBitRate` and `pendingNodeID` are fields, and
-- `lssFastscan`, which is only cleared, is left out. What the application's functions answer are
-- arguments. A message is its eight bytes.
pub mod Selection
pub mod Fastscan
pub mod NodeId
mod Tests
use e_rob_canopen_node_demo.Base.{
  ℕ, ◌+◌, ◌-◌, ◌*◌, ◌/◌, ◌%◌, ◌^◌, bit_and, List, [], ◌∷◌, ◌++◌, Bool, true, false, not, ◌&&◌, ◌||◌,
  Option, none, some, get_or, ltb, leb, ◌==◌, if◌then◌else◌, u32,
}

-- `CO_LSS_address_t`
pub record Address : Type 0 where
  pub vendor_id : ℕ
  pub product_code : ℕ
  pub revision_number : ℕ
  pub serial_number : ℕ

-- `addr[i]` of the union
abbrev pub addr : Address → ℕ → ℕ
addr a i =
    if i == 0
    then a.vendor_id
    else if i == 1
    then a.product_code
    else if i == 2
    then a.revision_number
    else a.serial_number

-- `CO_LSS_ADDRESS_EQUAL`
abbrev pub address_equal : Address → Address → Bool
address_equal a b =
    (a.product_code == b.product_code)
    && (a.revision_number == b.revision_number)
    && (a.serial_number == b.serial_number)
    && (a.vendor_id == b.vendor_id)

abbrev pub no_address : Address
no_address = record { vendor_id = 0; product_code = 0; revision_number = 0; serial_number = 0 }

-- `CO_LSSslave_t`
pub record Slave : Type 0 where
  pub lss_address : Address
  pub in_configuration : Bool
  pub lss_select : Address
  pub fastscan_pos : ℕ
  pub pending_bit_rate : ℕ
  pub pending_node_id : ℕ
  pub active_node_id : ℕ
  pub send_response : Bool
  pub service : ℕ
  pub can_data : List ℕ
  pub has_signal_pre : Bool
  pub has_check_bit_rate : Bool
  pub has_activate_bit_rate : Bool
  pub has_cfg_store : Bool

-- The sent message, the callback, and the calls of the application's functions.
pub data Event : Type 0 where
  respond : List ℕ → Event
  signal_pre : Event
  activate_bit_rate : ℕ → Event
  cfg_store : ℕ → ℕ → Event

-- CO_LSS_NODE_ID_ASSIGNMENT
abbrev pub node_id_assignment : ℕ
node_id_assignment = 0xFF

-- `CO_LSS_NODE_ID_VALID`
abbrev pub node_id_valid : ℕ → Bool
node_id_valid nid = (leb 1 nid && leb nid 0x7F) || (nid == node_id_assignment)

-- `CO_LSS_FASTSCAN_BITCHECK_VALID`, `CO_LSS_FASTSCAN_LSS_SUB_NEXT_VALID`, `CO_LSS_BIT_TIMING_VALID`
abbrev pub bitcheck_valid : ℕ → Bool
bitcheck_valid bit = leb bit 0x1F || (bit == 0x80)

abbrev pub sub_next_valid : ℕ → Bool
sub_next_valid index = leb index 3

abbrev pub bit_timing_valid : ℕ → Bool
bit_timing_valid index = not (index == 5) && leb index 9

-- CO_LSS_bitTimingTableLookup
abbrev pub bit_timing_table : List ℕ
bit_timing_table = 1000 ∷ 800 ∷ 500 ∷ 250 ∷ 125 ∷ 0 ∷ 50 ∷ 20 ∷ 10 ∷ 0 ∷ []

-- The four bytes behind the command.
abbrev pub value : List ℕ → ℕ
value bytes =
    get_or bytes 1 0
    + 256 * get_or bytes 2 0
    + 65536 * get_or bytes 3 0
    + 16777216 * get_or bytes 4 0

-- The object that `CO_LSSslave_init` leaves, where its arguments are accepted.
abbrev pub fresh : Address → ℕ → ℕ → Slave
fresh lss_address pending_bit_rate pending_node_id = record {
  lss_address = lss_address;
  in_configuration = false;
  lss_select = no_address;
  fastscan_pos = 0;
  pending_bit_rate = pending_bit_rate;
  pending_node_id = pending_node_id;
  active_node_id = pending_node_id;
  send_response = false;
  service = 0;
  can_data = 0 ∷ 0 ∷ 0 ∷ 0 ∷ 0 ∷ 0 ∷ 0 ∷ 0 ∷ [];
  has_signal_pre = false;
  has_check_bit_rate = false;
  has_activate_bit_rate = false;
  has_cfg_store = false;
}

unfoldable pub init : Address → ℕ → ℕ → Option Slave
init lss_address pending_bit_rate pending_node_id =
    if node_id_valid pending_node_id
    then some (fresh lss_address pending_bit_rate pending_node_id)
    else none

-- The object after a branch of `CO_LSSslave_receive`, and `request_LSSslave_process`.
abbrev pub Taken : Type 0
Taken = Slave × Bool

unfoldable pub switch_global : Slave → ℕ → Taken
switch_global s mode =
    if mode == 0
    then (
      record s {
        in_configuration = false;
        lss_select = no_address;
        service =
            if s.in_configuration
              && (s.active_node_id == node_id_assignment)
              && not (s.pending_node_id == node_id_assignment)
            then 0x04
            else s.service;
      },
      s.in_configuration
          && (s.active_node_id == node_id_assignment)
          && not (s.pending_node_id == node_id_assignment),
    )
    else if mode == 1
    then (record s { in_configuration = true }, false)
    else (s, false)

unfoldable pub select_serial : Slave → ℕ → Taken
select_serial s serial =
    let select = record s.lss_select { serial_number = serial } in
    if address_equal s.lss_address select
    then (record s { lss_select = select; in_configuration = true; service = 0x43 }, true)
    else (record s { lss_select = select }, false)

-- `0xFFFFFFFFU << bitCheck`
abbrev pub mask_from : ℕ → ℕ
mask_from bit_check = u32 (0xFFFFFFFF * 2 ^ bit_check)

unfoldable pub fastscan : Slave → List ℕ → Taken
fastscan s bytes =
    let bit_check = get_or bytes 5 0 in
    let lss_sub = get_or bytes 6 0 in
    let lss_next = get_or bytes 7 0 in
    if not (s.pending_node_id == node_id_assignment) || not (s.active_node_id == node_id_assignment)
    then (s, false)
    else if not (bitcheck_valid bit_check)
        || not (sub_next_valid lss_sub)
        || not (sub_next_valid lss_next)
    then (s, false)
    else if bit_check == 0x80
    then (record s { fastscan_pos = 0; service = 0x51 }, true)
    else if (s.fastscan_pos == lss_sub)
        && (bit_and (addr s.lss_address lss_sub) (mask_from bit_check)
            == bit_and (value bytes) (mask_from bit_check))
    then (
      record s {
        fastscan_pos = lss_next;
        in_configuration = s.in_configuration || ((bit_check == 0) && ltb lss_next lss_sub);
        service = 0x51;
      },
      true,
    )
    else (s, false)

-- A message in the waiting state.
unfoldable pub receive_waiting : Slave → List ℕ → Taken
unfolding select_serial fastscan
receive_waiting s bytes =
    let cs = get_or bytes 0 0 in
    let select = s.lss_select in
    if cs == 0x40
    then (record s { lss_select = record select { vendor_id = value bytes } }, false)
    else if cs == 0x41
    then (record s { lss_select = record select { product_code = value bytes } }, false)
    else if cs == 0x42
    then (record s { lss_select = record select { revision_number = value bytes } }, false)
    else if cs == 0x43
    then select_serial s (value bytes)
    else if cs == 0x51
    then fastscan s bytes
    else (s, false)

unfoldable pub take : Slave → List ℕ → Taken
unfolding switch_global receive_waiting
take s bytes =
    let cs = get_or bytes 0 0 in
    if cs == 0x04
    then switch_global s (get_or bytes 1 0)
    else if s.in_configuration
    then (record s { can_data = bytes; service = cs }, true)
    else receive_waiting s bytes

-- `CO_LSSslave_receive`
unfoldable pub receive : Slave → List ℕ → ℕ → Slave × List Event
unfolding take
receive s bytes dlc =
    let taken = take s bytes in
    if (dlc == 8) && not s.send_response
    then (
      record taken.0 { send_response = taken.1 },
      if taken.1 && s.has_signal_pre then signal_pre ∷ [] else [],
    )
    else (s, [])

-- A response of a command byte and up to four more, padded with zeros.
abbrev pub response : ℕ → ℕ → ℕ → Event
response cs a b = respond (cs ∷ a ∷ b ∷ 0 ∷ 0 ∷ 0 ∷ 0 ∷ 0 ∷ [])

abbrev pub inquiry : ℕ → ℕ → Event
inquiry cs v =
    respond (cs ∷ v % 256 ∷ v / 256 % 256 ∷ v / 65536 % 256 ∷ v / 16777216 % 256 ∷ 0 ∷ 0 ∷ 0 ∷ [])

unfoldable pub cfg_node_id : Slave → Slave × List Event
cfg_node_id s =
    let nid = get_or s.can_data 1 0 in
    if node_id_valid nid
    then (record s { pending_node_id = nid }, response s.service 0 0 ∷ [])
    else (s, response s.service 1 0 ∷ [])

unfoldable pub cfg_bit_timing : Slave → (ℕ → Bool) → Slave × List Event
cfg_bit_timing s supported =
    let table_index = get_or s.can_data 2 0 in
    let bit = get_or bit_timing_table table_index 0 in
    if not s.has_check_bit_rate
    then (s, [])
    else if (get_or s.can_data 1 0 == 0) && bit_timing_valid table_index
    then if supported bit
      then (record s { pending_bit_rate = bit }, response s.service 0 0 ∷ [])
      else (s, response s.service 0xFF 1 ∷ [])
    else (s, response s.service 1 0 ∷ [])

unfoldable pub cfg_store_pending : Slave → Bool → List Event
cfg_store_pending s stored =
    if not s.has_cfg_store
    then response s.service 1 0 ∷ []
    else cfg_store s.pending_node_id s.pending_bit_rate
      ∷ response s.service (if stored then 0 else 2) 0
      ∷ []

-- The `switch` of `CO_LSSslave_process`, with the answers of the application.
unfoldable pub serve : Slave → (ℕ → Bool) → Bool → Slave × List Event
unfolding cfg_node_id cfg_bit_timing cfg_store_pending
serve s supported stored =
    if s.service == 0x43
    then (s, response 0x44 0 0 ∷ [])
    else if s.service == 0x11
    then cfg_node_id s
    else if s.service == 0x13
    then cfg_bit_timing s supported
    else if s.service == 0x15
    then (
      s,
      if s.has_check_bit_rate && s.has_activate_bit_rate
          then activate_bit_rate (256 * get_or s.can_data 2 0 + get_or s.can_data 1 0) ∷ []
          else [],
    )
    else if s.service == 0x17
    then (s, cfg_store_pending s stored)
    else if s.service == 0x5A
    then (s, inquiry s.service s.lss_address.vendor_id ∷ [])
    else if s.service == 0x5B
    then (s, inquiry s.service s.lss_address.product_code ∷ [])
    else if s.service == 0x5C
    then (s, inquiry s.service s.lss_address.revision_number ∷ [])
    else if s.service == 0x5D
    then (s, inquiry s.service s.lss_address.serial_number ∷ [])
    else if s.service == 0x5E
    then (s, response s.service s.active_node_id 0 ∷ [])
    else if s.service == 0x51
    then (s, response 0x4F 0 0 ∷ [])
    else (s, [])

-- `CO_LSSslave_process`: the object, `resetCommunication`, and the calls.
unfoldable pub process : Slave → (ℕ → Bool) → Bool → Slave × Bool × List Event
unfolding serve
process s supported stored =
    let served = serve s supported stored in
    if s.send_response
    then (record served.0 { send_response = false }, s.service == 0x04, served.1)
    else (s, false, [])
