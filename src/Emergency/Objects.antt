-- ===== src/Emergency/Objects.antt =====
-- The Object Dictionary entries of the emergency object and its consumer, 301/CO_Emergency.c. The
-- 32-bit value in `buf` is an argument or a result; `OD_writeOriginal` is the caller's next step,
-- which `accepted` stands for.
use e_rob_canopen_node_demo.Base.{
  ℕ, ◌+◌, ◌-◌, ◌*◌, bit_and, bit_or, List, [], ◌∷◌, ◌++◌, Bool, not, ◌&&◌, ◌||◌, Option, none, some,
  get_or, take, drop, length, ltb, leb, ◌==◌, if◌then◌else◌, u16, u32, has,
}
use e_rob_canopen_node_demo.Od.{Odr}
use e_rob_canopen_node_demo.Emergency.{Em, no_msg, Event, status_bytes}

-- CO_CAN_ID_EMERGENCY
abbrev pub can_id_emergency : ℕ
can_id_emergency = 0x80

-- `CO_IS_RESTRICTED_CAN_ID`
abbrev pub is_restricted_can_id : ℕ → Bool
is_restricted_can_id id =
    leb id 0x7F
    || (leb 0x101 id && leb id 0x180)
    || (leb 0x581 id && leb id 0x5FF)
    || (leb 0x601 id && leb id 0x67F)
    || (leb 0x6E0 id && leb id 0x6FF)
    || leb 0x701 id

abbrev pub current_can_id : Em → ℕ
current_can_id em =
    if em.producer_can_id == can_id_emergency
    then u16 (can_id_emergency + em.node_id)
    else em.producer_can_id

-- `OD_read_1014`: the value for a read of `count` bytes.
unfoldable pub read_1014 : Em → ℕ → ℕ → Odr × Option ℕ
read_1014 em sub_index count =
    if not (sub_index == 0) || ltb count 4
    then (Odr.dev_incompat, none)
    else (Odr.ok, some (bit_or (if em.producer_enabled then 0 else 0x80000000) (current_can_id em)))

-- What a write leaves: the new state, and the identifier of the transmit buffer where it is
-- configured again.
pub data Written : Type 0 where
  refused : Odr → Written
  accepted : Em → Option ℕ → Written

-- `OD_write_1014`
unfoldable pub write_1014 : Em → ℕ → ℕ → ℕ → Written
write_1014 em sub_index count value =
    let can_id = u16 (bit_and value 0x7FF) in
    let enabled = not (has value 0x80000000) && not (can_id == 0) in
    if not (sub_index == 0) || not (count == 4)
    then refused Odr.dev_incompat
    else if has value 0x7FFFF800
        || is_restricted_can_id can_id
        || (em.producer_enabled && enabled && not (can_id == current_can_id em))
    then refused Odr.invalid_value
    else accepted
        (record em {
          producer_enabled = enabled;
          producer_can_id =
              if can_id == can_id_emergency + em.node_id then can_id_emergency else can_id;
        })
        (if enabled then some can_id else none)

-- `OD_write_1015`
unfoldable pub write_1015 : Em → ℕ → ℕ → ℕ → Written
write_1015 em sub_index count value =
    if not (sub_index == 0) || not (count == 2)
    then refused Odr.dev_incompat
    else accepted (record em { inhibit_em_time_us = u32 (value * 100); inhibit_em_timer = 0 }) none

-- `OD_read_1003`: the value and how many bytes it has.
unfoldable pub read_1003 : Em → ℕ → ℕ → Odr × Option (ℕ × ℕ)
read_1003 em sub_index count =
    if (ltb count 4 && ltb 0 sub_index) || ltb count 1
    then (Odr.dev_incompat, none)
    else if ltb em.fifo_size 2
    then (Odr.dev_incompat, none)
    else if sub_index == 0
    then (Odr.ok, some (em.fifo_count, 1))
    else if leb sub_index em.fifo_count
    then (if ltb em.fifo_wr_ptr sub_index
        then (
          Odr.ok,
          some ((get_or em.fifo (em.fifo_wr_ptr + em.fifo_size - sub_index) no_msg).msg, 4),
        )
        else if leb em.fifo_size (em.fifo_wr_ptr - sub_index)
        then (Odr.dev_incompat, none)
        else (Odr.ok, some ((get_or em.fifo (em.fifo_wr_ptr - sub_index) no_msg).msg, 4)))
    else (Odr.no_data, none)

-- `OD_write_1003`
unfoldable pub write_1003 : Em → ℕ → ℕ → ℕ → Written
write_1003 em sub_index count value =
    if not (sub_index == 0) || not (count == 1)
    then refused Odr.dev_incompat
    else if not (value == 0)
    then refused Odr.invalid_value
    else accepted (record em { fifo_count = 0 }) none

-- `countReadLocal` of `OD_read_statusBits`: how many bytes are read, which is also the data length
-- that the stream keeps where it had none or a larger one.
abbrev pub status_count : ℕ → ℕ → ℕ × ℕ
status_count data_length count =
    let local = if ltb count status_bytes then count else status_bytes in
    if not (data_length == 0) && ltb data_length local
    then (data_length, data_length)
    else (local, local)

-- `OD_read_statusBits`: the bytes, and the stream's data length.
unfoldable pub read_status_bits : Em → ℕ → ℕ → ℕ → Odr × List ℕ × ℕ
read_status_bits em sub_index data_length count =
    if not (sub_index == 0) then (Odr.dev_incompat, [], data_length) else (
      Odr.ok,
      take (status_count data_length count).0 em.error_status_bits,
      (status_count data_length count).1,
    )

-- `OD_write_statusBits`
unfoldable pub write_status_bits : Em → ℕ → ℕ → List ℕ → Odr × Em × ℕ
write_status_bits em sub_index data_length buf =
    if not (sub_index == 0)
    then (Odr.dev_incompat, em, data_length)
    else (let n = (status_count data_length (length buf)).0 in
        (
          Odr.ok,
          record em { error_status_bits = take n buf ++ drop n em.error_status_bits },
          (status_count data_length (length buf)).1,
        ))

-- `CO_EM_receive`: what goes to the consumer's callback.
unfoldable pub receive : Em → ℕ → List ℕ → List Event
receive em ident bytes =
    let byte : ℕ → ℕ = λ i. get_or bytes i 0 in
    if em.has_signal_rx && not (ident == 0x80)
    then Event.signal_rx ident (byte 0 + 256 * byte 1) (byte 2) (byte 3)
        (byte 4 + 256 * byte 5 + 65536 * byte 6 + 16777216 * byte 7)
      ∷ []
    else []
