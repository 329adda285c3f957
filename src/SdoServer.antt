-- ===== src/SdoServer.antt =====
-- 301/CO_SDOserver.c and 301/CO_SDOserver.h: the SDO server with expedited and segmented transfers,
-- as configured by default: without block transfer, and with a buffer of 32 bytes. This file has its
-- state, the reception and the access to the Object Dictionary; SdoServer.Process has
-- `CO_SDOserver_process`. The memory of the variables is a field. The functions that the application
-- has put into the extensions of the Object Dictionary are an argument.
pub mod Requests
pub mod Process
pub mod Channel
pub mod Segments
pub mod Settling
pub mod Parts
pub mod Download
pub mod Protocol
pub mod Refusals
pub mod Silence
pub mod Refill
pub mod Upload
pub mod Reading
pub mod Readout
pub mod RoundTrip
mod Tests
use e_rob_canopen_node_demo.Base.{
  ℕ, ◌+◌, ◌-◌, ◌*◌, bit_and, List, [], ◌∷◌, ◌++◌, map, Bool, true, false, not, ◌&&◌, ◌||◌, Option,
  none, some, get_elem?, get_or, set, length, ltb, leb, ◌==◌, if◌then◌else◌, u32, sub32,
}
use e_rob_canopen_node_demo.Od.{
  Odr, Stream, Memory, slice, splice, ReadOut, WriteOut, read_original, write_original,
  get_sdo_ab_code,
}
use e_rob_canopen_node_demo.Od.Entries.{Entry, Io, Access, find}

-- `CO_SDO_state_t`, the states of the server without block transfer.
pub data State : Type 0 where
  idle abort download_initiate_req download_initiate_rsp download_segment_req download_segment_rsp :
      State
  upload_initiate_req upload_initiate_rsp upload_segment_req upload_segment_rsp : State

-- CO_SDO_abortCode_t
abbrev pub ab_toggle_bit : ℕ
ab_toggle_bit = 0x05030000

abbrev pub ab_timeout : ℕ
ab_timeout = 0x05040000

abbrev pub ab_cmd : ℕ
ab_cmd = 0x05040001

abbrev pub ab_unsupported_access : ℕ
ab_unsupported_access = 0x06010000

abbrev pub ab_writeonly : ℕ
ab_writeonly = 0x06010001

abbrev pub ab_readonly : ℕ
ab_readonly = 0x06010002

abbrev pub ab_device_incompat : ℕ
ab_device_incompat = 0x06040047

abbrev pub ab_data_long : ℕ
ab_data_long = 0x06070012

abbrev pub ab_data_short : ℕ
ab_data_short = 0x06070013

-- `CO_SDOserver_t`, with the variables of the Object Dictionary in `memory`.
pub record Server : Type 0 where
  pub od : List Entry
  pub memory : Memory
  pub valid : Bool
  pub state : State
  pub od_io : Io
  pub index : ℕ
  pub sub_index : ℕ
  pub can_rx_new : Bool
  pub can_rx_data : List ℕ
  pub size_ind : ℕ
  pub size_tran : ℕ
  pub toggle : ℕ
  pub finished : Bool
  pub timeout_time_us : ℕ
  pub timeout_timer : ℕ
  pub buf : List ℕ
  pub buf_offset_wr : ℕ
  pub buf_offset_rd : ℕ
  pub has_signal_pre : Bool

-- A message handed to the CAN driver, and the callback.
pub data Event : Type 0 where
  sent : List ℕ → Event
  signal_pre : Event

-- The functions of the application behind the extensions, by the object that they are set with.
pub record Functions : Type 0 where
  pub read : ℕ → Memory → Stream → ℕ → ReadOut
  pub write : ℕ → Memory → Stream → List ℕ → WriteOut

-- `SDO->OD_IO.read` and `SDO->OD_IO.write`, with `OD_readDisabled` and `OD_writeDisabled`.
unfoldable pub io_read : Functions → Io → Memory → ℕ → ReadOut
io_read fns io mem count = elim io.read [
  | Access.original ↦ read_original mem io.stream count
  | Access.disabled ↦ record { code = Odr.unsupp_access; bytes = []; stream = io.stream }
  | Access.custom object ↦ fns.read object mem io.stream count
]

unfoldable pub io_write : Functions → Io → Memory → List ℕ → WriteOut
io_write fns io mem bytes = elim io.write [
  | Access.original ↦ write_original mem io.stream bytes
  | Access.disabled ↦ record {
    code = Odr.unsupp_access;
    count_written = 0;
    memory = mem;
    stream = io.stream;
  }
  | Access.custom object ↦ fns.write object mem io.stream bytes
]

-- `CO_SDO_receive`
unfoldable pub receive : Server → List ℕ → ℕ → Server × List Event
receive s bytes dlc =
    if not (dlc == 8)
    then (s, [])
    else if get_or bytes 0 0 == 0x80
    then (record s { state = idle }, [])
    else if s.can_rx_new
    then (s, [])
    else (
      record s { can_rx_data = bytes; can_rx_new = true },
      if s.has_signal_pre then signal_pre ∷ [] else [],
    )

-- CO_CONFIG_SDO_SRV_BUFFER_SIZE
abbrev pub buffer_size : ℕ
buffer_size = 32

-- The object and the abort code after a step: 0 where it succeeds.
abbrev pub Stepped : Type 0
Stepped = Server × ℕ

abbrev pub fail : Server → ℕ → Stepped
fail s code = (record s { state = abort }, code)

abbrev pub is_good : Odr → Bool
is_good Odr.ok = true
is_good Odr.partial = true
is_good code = false

abbrev pub is_partial : Odr → Bool
is_partial Odr.partial = true
is_partial code = false

-- `attribute & ODA_STR`
abbrev pub is_string : Server → Bool
is_string s = not (bit_and s.od_io.stream.attribute 0x80 == 0)

-- `strlen`, of a list that a zero follows.
unfoldable pub strlen : List ℕ → ℕ
strlen [] = 0
strlen (b ∷ bytes) = if b == 0 then 0 else strlen bytes + 1

abbrev pub with_stream : Server → Stream → Server
with_stream s stream = record s { od_io = record s.od_io { stream = stream } }

-- What `readFromOd` makes of a good read, behind `remain` bytes of the buffer: the number of bytes
-- that count, whether the variable is finished, and the size that the stream gets.
unfoldable pub shorten : Server → ReadOut → ℕ × Bool × ℕ
unfolding strlen
shorten s r =
    let count = length r.bytes in
    let found = strlen r.bytes in
    let count_str = if found == 0 then 1 else found in
    if ltb 0 count && is_string s && ltb count_str count
    then (count_str, true, u32 (s.size_tran + count_str))
    else (count, not (is_partial r.code), r.stream.data_length)

-- `readFromOd`
unfoldable pub read_from_od : Functions → Server → ℕ → Stepped
read_from_od fns s count_minimum =
    let remain = sub32 s.buf_offset_wr s.buf_offset_rd in
    let r = io_read fns s.od_io s.memory (buffer_size - remain) in
    let part = shorten s r in
    let wr = remain + part.0 in
    let moved = splice s.buf 0 (slice s.buf s.buf_offset_rd remain) in
    let loaded = splice moved remain r.bytes in
    let terminated =
      if ltb 0 (length r.bytes) && is_string s
      then set loaded (remain + length r.bytes) 0
      else loaded in
    let done = not (wr == 0) && part.1 in
    let t = record (with_stream s (record r.stream { data_length = part.2 })) {
      buf = terminated;
      buf_offset_rd = 0;
      buf_offset_wr = wr;
      finished = done;
    } in
    if s.finished || leb count_minimum remain
    then (s, 0)
    else if not (is_good r.code)
    then fail
        (record (with_stream s r.stream) { buf = moved; buf_offset_rd = 0; buf_offset_wr = remain })
        (get_sdo_ab_code r.code)
    else if not done && ltb wr count_minimum
    then fail t ab_device_incompat
    else (t, 0)

-- The size checks of `validateAndWriteToOD`, which may put zeros behind a string.
unfoldable pub validate : Server → Stepped
validate s =
    let size_in_od = s.od_io.stream.data_length in
    let zero = λ (t : Server). record t {
      buf = set t.buf t.buf_offset_wr 0;
      buf_offset_wr = t.buf_offset_wr + 1;
      size_tran = u32 (t.size_tran + 1);
    } in
    let sized =
      λ (t : Server). with_stream t (record t.od_io.stream { data_length = t.size_tran }) in
    let once = zero s in
    if not s.finished
    then if ltb 0 s.size_ind && ltb s.size_ind s.size_tran then fail s ab_data_long else (s, 0)
    else if ltb 0 s.size_ind && not (s.size_tran == s.size_ind)
    then fail s (if ltb s.size_ind s.size_tran then ab_data_long else ab_data_short)
    else if is_string s
        && ((size_in_od == 0) || ltb s.size_tran size_in_od)
        && leb (s.buf_offset_wr + 2) buffer_size
    then (sized (if (size_in_od == 0) || ltb once.size_tran size_in_od then zero once else once), 0)
    else if size_in_od == 0
    then (sized s, 0)
    else if not (s.size_tran == size_in_od)
    then fail s (if ltb size_in_od s.size_tran then ab_data_long else ab_data_short)
    else (s, 0)

-- The write of `validateAndWriteToOD`.
unfoldable pub flush : Functions → Server → Stepped
flush fns s =
    let w = io_write fns s.od_io s.memory (slice s.buf 0 s.buf_offset_wr) in
    let t = record (with_stream s w.stream) { memory = w.memory; buf_offset_wr = 0 } in
    if not (is_good w.code)
    then fail t (get_sdo_ab_code w.code)
    else if s.finished && is_partial w.code
    then fail t ab_data_short
    else if not s.finished && not (is_partial w.code)
    then fail t ab_data_long
    else (t, 0)

-- `validateAndWriteToOD`
unfoldable pub validate_and_write_to_od : Functions → Server → Stepped
validate_and_write_to_od fns s = let v = validate s in if v.1 == 0 then flush fns v.0 else v
