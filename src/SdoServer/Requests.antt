-- ===== src/SdoServer/Requests.antt =====
-- `CO_SDOserver_process` of 301/CO_SDOserver.c: the messages of the client.
use e_rob_canopen_node_demo.Base.{
  ℕ, ◌+◌, ◌-◌, ◌*◌, ◌/◌, ◌%◌, bit_and, List, ◌++◌, map, Bool, true, false, not, ◌&&◌, ◌||◌, Option,
  none, some, get_elem?, get_or, ltb, ◌==◌, if◌then◌else◌, u32, sub32, replicate,
}
use e_rob_canopen_node_demo.Od.{Odr, slice, splice, get_sdo_ab_code}
use e_rob_canopen_node_demo.Od.Entries.{Entry, Io, find, get_sub}
use e_rob_canopen_node_demo.SdoServer.{
  State, idle, abort, download_initiate_req, download_initiate_rsp, download_segment_req,
  download_segment_rsp, upload_initiate_req, upload_initiate_rsp, upload_segment_req,
  upload_segment_rsp, Server, Functions, Stepped, fail, io_write, is_string, with_stream,
  read_from_od, validate_and_write_to_od, buffer_size, ab_toggle_bit, ab_cmd, ab_unsupported_access,
  ab_writeonly, ab_readonly, ab_device_incompat, ab_data_long, ab_data_short,
}

abbrev pub le32 : List ℕ → ℕ → ℕ
le32 bytes i =
    get_or bytes i 0
    + 256 * get_or bytes (i + 1) 0
    + 65536 * get_or bytes (i + 2) 0
    + 16777216 * get_or bytes (i + 3) 0

abbrev pub index_of : Entry → ℕ
index_of e = e.index

-- `OD_getSub(OD_find(SDO->OD, index), subIndex, io, false)`
unfoldable pub look_up : List Entry → ℕ → ℕ → Odr × Option Io
look_up od index sub_index =
    let at : Option ℕ = elim (find (map index_of od) index) [ none ↦ none | some place ↦ place ] in
    let entry : Option Entry = elim at [ none ↦ none | some i ↦ get_elem? od i ] in
    elim entry [ none ↦ (Odr.idx_not_exist, none) | some e ↦ get_sub e sub_index false ]

-- Access to the object of a new request, and its attributes.
unfoldable pub open_object : Server → Bool → Stepped
open_object s upload =
    let index = 256 * get_or s.can_rx_data 2 0 + get_or s.can_rx_data 1 0 in
    let sub = get_or s.can_rx_data 3 0 in
    let t = record s { index = index; sub_index = sub } in
    let found = look_up s.od index sub in
    elim found.1 [
      | none ↦ fail t (get_sdo_ab_code found.0)
      | some io ↦
          let u = record t { od_io = io } in
          if bit_and io.stream.attribute 0x03 == 0
          then fail u ab_unsupported_access
          else if upload && (bit_and io.stream.attribute 0x01 == 0)
          then fail u ab_writeonly
          else if not upload && (bit_and io.stream.attribute 0x02 == 0)
          then fail u ab_readonly
          else (u, 0)
    ]

-- The data that an upload starts with, and the size that it indicates.
unfoldable pub load : Functions → Server → Stepped
load fns s =
    let r =
      read_from_od fns
        (record s { buf_offset_rd = 0; buf_offset_wr = 0; size_tran = 0; finished = false }) 7 in
    let t = r.0 in
    let size = t.od_io.stream.data_length in
    if not (r.1 == 0)
    then r
    else if t.finished
    then if size == 0
      then (record t { size_ind = t.buf_offset_wr }, 0)
      else if not (size == t.buf_offset_wr)
      then fail (record t { size_ind = size }) ab_device_incompat
      else (record t { size_ind = size }, 0)
    else (record t { size_ind = if is_string t then 0 else size }, 0)

-- A message that the idle server receives.
unfoldable pub start : Functions → Server → Stepped
start fns s =
    let c = get_or s.can_rx_data 0 0 in
    let down = open_object (record s { state = download_initiate_req }) false in
    let up = open_object (record s { state = upload_initiate_req }) true in
    if bit_and c 0xF0 == 0x20
    then down
    else if c == 0x40
    then if up.1 == 0 then load fns up.0 else up
    else fail s ab_cmd

-- An expedited download.
unfoldable pub expedited : Functions → Server → Stepped
expedited fns s =
    let c = get_or s.can_rx_data 0 0 in
    let size_in_od = s.od_io.stream.data_length in
    let n =
      if not (bit_and c 0x01 == 0)
      then 4 - c / 4 % 4
      else if ltb 0 size_in_od && ltb size_in_od 4
      then size_in_od
      else 4 in
    let is_short = is_string s && ((size_in_od == 0) || ltb n size_in_od) in
    let size = if is_short then if size_in_od - n == 1 then n + 1 else n + 2 else n in
    let bytes = slice s.can_rx_data 4 n ++ replicate (size - n) 0 in
    let t =
      if is_short || (size_in_od == 0)
      then with_stream s (record s.od_io.stream { data_length = size })
      else s in
    let w = io_write fns t.od_io t.memory bytes in
    let u = record (with_stream t w.stream) { memory = w.memory } in
    if not is_short && not (size_in_od == 0) && not (n == size_in_od)
    then fail s (if ltb size_in_od n then ab_data_long else ab_data_short)
    else elim w.code [
      | Odr.ok ↦ (record u { state = download_initiate_rsp; finished = true }, 0)
      | code ↦ fail u (get_sdo_ab_code code)
    ]

-- The start of a segmented download.
unfoldable pub announce : Server → Stepped
announce s =
    let size_in_od = s.od_io.stream.data_length in
    let size = le32 s.can_rx_data 4 in
    let t = record s { size_ind = size } in
    if bit_and (get_or s.can_rx_data 0 0) 0x01 == 0
    then (record s { size_ind = 0; state = download_initiate_rsp; finished = false }, 0)
    else if ltb 0 size_in_od && ltb size_in_od size
    then fail t ab_data_long
    else if ltb 0 size_in_od && ltb size size_in_od && not (is_string s)
    then fail t ab_data_short
    else (record t { state = download_initiate_rsp; finished = false }, 0)

-- The bytes of a segment in the buffer.
unfoldable pub gather : Server → Server
gather s =
    let c = get_or s.can_rx_data 0 0 in
    let count = 7 - c / 2 % 8 in
    record s {
      buf = splice s.buf s.buf_offset_wr (slice s.can_rx_data 1 count);
      buf_offset_wr = s.buf_offset_wr + count;
      size_tran = u32 (s.size_tran + count);
    }

abbrev proceed : Stepped → Stepped
proceed (s, code) = if code == 0 then (record s { state = download_segment_rsp }, 0) else (s, code)

-- The buffer is emptied where that is necessary.
unfoldable pub settle : Functions → Server → Stepped
settle fns s = proceed (
    if s.finished || ltb (sub32 buffer_size s.buf_offset_wr) 9
    then validate_and_write_to_od fns s
    else (s, 0))

-- A segment of a download.
unfoldable pub take_segment : Functions → Server → Stepped
take_segment fns s =
    let c = get_or s.can_rx_data 0 0 in
    let t = record s { finished = not (bit_and c 0x01 == 0) } in
    let u = gather t in
    let size_in_od = u.od_io.stream.data_length in
    if not (bit_and c 0xE0 == 0)
    then fail s ab_cmd
    else if not (bit_and c 0x10 == t.toggle)
    then fail t ab_toggle_bit
    else if ltb 0 size_in_od && ltb size_in_od u.size_tran
    then fail u ab_data_long
    else settle fns u

-- The request of a segment of an upload.
unfoldable pub ask_segment : Server → Stepped
ask_segment s =
    let c = get_or s.can_rx_data 0 0 in
    if not (bit_and c 0xEF == 0x60)
    then fail s ab_cmd
    else if not (bit_and c 0x10 == s.toggle)
    then fail s ab_toggle_bit
    else (record s { state = upload_segment_rsp }, 0)

-- The `switch` on the state, for a received message.
unfoldable pub dispatch : Functions → State → Server → Stepped
dispatch fns download_initiate_req s =
    if bit_and (get_or s.can_rx_data 0 0) 0x02 == 0 then announce s else expedited fns s
dispatch fns download_segment_req s = take_segment fns s
dispatch fns upload_initiate_req s = (record s { state = upload_initiate_rsp }, 0)
dispatch fns upload_segment_req s = ask_segment s
dispatch fns idle s = (s, 0)
dispatch fns abort s = (s, 0)
dispatch fns download_initiate_rsp s = fail s ab_cmd
dispatch fns download_segment_rsp s = fail s ab_cmd
dispatch fns upload_initiate_rsp s = fail s ab_cmd
dispatch fns upload_segment_rsp s = fail s ab_cmd

abbrev pub is_idle : State → Bool
is_idle idle = true
is_idle _ = false

-- A received message.
unfoldable pub on_message : Functions → Server → Stepped
on_message fns s =
    let first = if is_idle s.state then start fns s else (s, 0) in
    let next = dispatch fns first.0.state first.0 in
    let out = if first.1 == 0 then next else first in
    (record out.0 { timeout_timer = 0; can_rx_new = false }, out.1)
