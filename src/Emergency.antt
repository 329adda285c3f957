-- ===== src/Emergency.antt =====
-- 301/CO_Emergency.c and 301/CO_Emergency.h: the emergency producer with its error status bits,
-- its message queue and its history. The emergency object is not NULL; `CO_SWAP_16` and
-- `CO_SWAP_32` change nothing on this little endian target.
pub mod Process
pub mod Objects
pub mod StatusBits
pub mod Queue
pub mod Events
pub mod Oldest
pub mod Permission
pub mod Sending
pub mod History
pub mod CobId
pub mod Register
mod Tests
use e_rob_canopen_node_demo.Base.{
  ℕ, ◌+◌, ◌-◌, ◌*◌, ◌/◌, ◌%◌, ◌^◌, bit_and, bit_or, List, [], ◌∷◌, Bool, true, false, ◌&&◌, ◌||◌,
  Option, none, some, get_or, set, ltb, leb, ◌==◌, if◌then◌else◌, u8, u32, has,
}

-- `CO_EM_fifo_t`
pub record Msg : Type 0 where
  pub msg : ℕ
  pub info : ℕ

abbrev pub no_msg : Msg
no_msg = record { msg = 0; info = 0 }

-- `CO_EM_t`: the error register stands for the byte that it points to, and for each callback there
-- is whether it is set.
pub record Em : Type 0 where
  pub error_status_bits : List ℕ
  pub error_register : ℕ
  pub can_error_status_old : ℕ
  pub fifo : List Msg
  pub fifo_size : ℕ
  pub fifo_wr_ptr : ℕ
  pub fifo_pp_ptr : ℕ
  pub fifo_overflow : ℕ
  pub fifo_count : ℕ
  pub producer_enabled : Bool
  pub node_id : ℕ
  pub producer_can_id : ℕ
  pub inhibit_em_time_us : ℕ
  pub inhibit_em_timer : ℕ
  pub has_signal_rx : Bool
  pub has_signal_pre : Bool

-- Calls that leave the component, in their order.
pub data Event : Type 0 where
  signal_pre : Event
  can_send : Msg → Event
  signal_rx : ℕ → ℕ → ℕ → ℕ → ℕ → Event

-- CO_CONFIG_EM_ERR_STATUS_BITS_COUNT / 8
abbrev pub status_bytes : ℕ
status_bytes = 10

-- Error status bits and error codes
abbrev pub em_wrong_error_report : ℕ
em_wrong_error_report = 0x28

abbrev pub em_emergency_buffer_full : ℕ
em_emergency_buffer_full = 0x20

abbrev pub emc_no_error : ℕ
emc_no_error = 0x0000

abbrev pub emc_generic : ℕ
emc_generic = 0x1000

abbrev pub emc_software_internal : ℕ
emc_software_internal = 0x6100

-- `CO_isError`
unfoldable pub is_error : Em → ℕ → Bool
is_error em error_bit =
    leb status_bytes (error_bit / 8)
    || has (get_or em.error_status_bits (error_bit / 8) 0) (2 ^ (error_bit % 8))

-- The index behind a fifo index, on `uint8_t`.
abbrev pub ptr_next : ℕ → ℕ → ℕ
ptr_next size ptr = if leb size (u8 (ptr + 1)) then 0 else u8 (ptr + 1)

-- A message is put into the fifo, or the overflow is noted.
unfoldable pub push : Em → Msg → Em
push em m =
    if leb 2 em.fifo_size
    then if ptr_next em.fifo_size em.fifo_wr_ptr == em.fifo_pp_ptr
      then record em { fifo_overflow = 1 }
      else record em {
        fifo = set em.fifo em.fifo_wr_ptr m;
        fifo_wr_ptr = ptr_next em.fifo_size em.fifo_wr_ptr;
        fifo_count =
            if ltb em.fifo_count (em.fifo_size - 1) then u8 (em.fifo_count + 1) else em.fifo_count;
      }
    else em

abbrev pub error_msg : ℕ → ℕ → ℕ → Msg
error_msg error_bit error_code info_code = record {
  msg = bit_or (u32 (error_bit * 16777216)) error_code;
  info = info_code;
}

-- The part of `CO_error` that changes the state, once the bit is known to change.
unfoldable pub toggle : Em → Bool → ℕ → ℕ → Msg → Em × List Event
unfolding push
toggle em set_error index bitmask m =
    let byte = get_or em.error_status_bits index 0 in
    (
      push
          (record em {
            error_status_bits =
                set em.error_status_bits index
                  (if set_error then bit_or byte bitmask else bit_and byte (255 - bitmask));
          })
          m,
      if em.has_signal_pre && em.producer_enabled then signal_pre ∷ [] else [],
    )

-- `CO_error`; `errorBit & 7` is a remainder and the shifts are powers of two.
unfoldable pub error : Em → Bool → ℕ → ℕ → ℕ → Em × List Event
unfolding toggle
error em set_error error_bit error_code info_code =
    let wrong = leb status_bytes (error_bit / 8) in
    let index = if wrong then em_wrong_error_report / 8 else error_bit / 8 in
    let bitmask = if wrong then 2 ^ (em_wrong_error_report % 8) else 2 ^ (error_bit % 8) in
    let code = if wrong then emc_software_internal else error_code in
    let info = if wrong then error_bit else info_code in
    let is_set = has (get_or em.error_status_bits index 0) bitmask in
    if set_error
    then if is_set then (em, []) else toggle em true index bitmask (error_msg error_bit code info)
    else if is_set
    then toggle em false index bitmask (error_msg error_bit emc_no_error info)
    else (em, [])
