-- ===== src/SdoServer/Process.antt =====
-- `CO_SDOserver_process` of 301/CO_SDOserver.c: the timeout, the answers, and the whole function.
use e_rob_canopen_node_demo.Base.{
  ℕ, ◌+◌, ◌-◌, ◌*◌, ◌/◌, ◌%◌, bit_or, List, [], ◌∷◌, ◌++◌, Bool, false, not, ◌&&◌, ◌||◌, length,
  ltb, leb, ◌==◌, if◌then◌else◌, u32, sub32, min, replicate,
}
use e_rob_canopen_node_demo.Od.{slice}
use e_rob_canopen_node_demo.SdoServer.{
  State, idle, abort, download_initiate_req, download_initiate_rsp, download_segment_req,
  download_segment_rsp, upload_initiate_req, upload_initiate_rsp, upload_segment_req,
  upload_segment_rsp, Server, Functions, Event, sent, Stepped, fail, read_from_od, ab_timeout,
  ab_data_long, ab_data_short,
}
use e_rob_canopen_node_demo.SdoServer.Requests.{is_idle, on_message}

-- The timeout, `dt` microseconds after the last call.
unfoldable pub time_out : ℕ → Stepped → Stepped
time_out dt (s, code) =
    let timer =
      if ltb s.timeout_timer s.timeout_time_us
      then u32 (s.timeout_timer + dt)
      else s.timeout_timer in
    let t = record s { timeout_timer = timer } in
    if leb s.timeout_time_us timer then fail t ab_timeout else (t, code)

-- `CO_SDO_return_t`, the values of the server.
pub data Return : Type 0 where
  ok_communication_end waiting_response transmit_buffer_full ended_with_server_abort : Return

-- The object, the abort code, the value returned so far, and the message.
pub record Answered : Type 0 where
  pub server : Server
  pub code : ℕ
  pub ret : Return
  pub events : List Event

abbrev pub header : Server → ℕ → List ℕ → List ℕ
header s c bytes = c ∷ s.index % 256 ∷ s.index / 256 % 256 ∷ s.sub_index ∷ bytes

abbrev pub bytes32 : ℕ → List ℕ
bytes32 v = v % 256 ∷ v / 256 % 256 ∷ v / 65536 % 256 ∷ v / 16777216 % 256 ∷ []

-- Zeros up to the length of a message.
abbrev pub pad : ℕ → List ℕ → List ℕ
pad n bytes = bytes ++ replicate (n - length bytes) 0

abbrev pub flip : ℕ → ℕ
flip toggle = if toggle == 0 then 0x10 else 0

abbrev going : Server → List ℕ → Answered
going s bytes = record { server = s; code = 0; ret = waiting_response; events = sent bytes ∷ [] }

abbrev ended : Server → List ℕ → Answered
ended s bytes = record {
  server = record s { state = idle };
  code = 0;
  ret = ok_communication_end;
  events = sent bytes ∷ [];
}

abbrev aborting : Server → ℕ → Answered
aborting s code = record {
  server = record s { state = abort };
  code = code;
  ret = waiting_response;
  events = [];
}

unfoldable pub answer_download : Server → Answered
answer_download s =
    let t = record s { timeout_timer = 0 } in
    if s.finished
    then ended t (header s 0x60 (bytes32 0))
    else going
        (record t {
          toggle = 0;
          size_tran = 0;
          buf_offset_wr = 0;
          buf_offset_rd = 0;
          state = download_segment_req;
        })
        (header s 0x60 (bytes32 0))

unfoldable pub answer_segment : Server → Answered
answer_segment s =
    let t = record s { toggle = flip s.toggle; timeout_timer = 0 } in
    let bytes = pad 8 (bit_or 0x20 s.toggle ∷ []) in
    if s.finished then ended t bytes else going (record t { state = download_segment_req }) bytes

unfoldable pub answer_upload : Server → Answered
answer_upload s =
    if ltb 0 s.size_ind && leb s.size_ind 4
    then ended s (header s (bit_or 0x43 (4 * (4 - s.size_ind))) (pad 4 (slice s.buf 0 s.size_ind)))
    else going (record s { toggle = 0; timeout_timer = 0; state = upload_segment_req })
        (if ltb 0 s.size_ind then header s 0x41 (bytes32 s.size_ind) else header s 0x40 (bytes32 0))

-- A segment of an upload, when the buffer has been filled.
unfoldable pub send_segment : Server → Answered
send_segment s =
    let have = sub32 s.buf_offset_wr s.buf_offset_rd in
    let is_last = ltb have 7 || (s.finished && (have == 7)) in
    let count = if is_last then have else 7 in
    let c = if is_last then bit_or s.toggle (bit_or (2 * (7 - have)) 0x01) else s.toggle in
    let t = record s {
      toggle = flip s.toggle;
      timeout_timer = if is_last then s.timeout_timer else 0;
      buf_offset_rd = s.buf_offset_rd + count;
      size_tran = u32 (s.size_tran + count);
    } in
    let bytes = pad 8 (c ∷ slice s.buf s.buf_offset_rd count) in
    if ltb 0 s.size_ind && ltb s.size_ind t.size_tran
    then record (aborting t ab_data_long) {
      ret = if is_last then ok_communication_end else waiting_response;
    }
    else if ltb 0 s.size_ind && is_last && ltb t.size_tran s.size_ind
    then aborting t ab_data_short
    else if is_last
    then ended t bytes
    else going (record t { state = upload_segment_req }) bytes

-- The `switch` on the state that answers.
unfoldable pub respond : Functions → State → Stepped → Answered
respond fns download_initiate_rsp (s, code) = answer_download s
respond fns download_segment_rsp (s, code) = answer_segment s
respond fns upload_initiate_rsp (s, code) = answer_upload s
respond fns upload_segment_rsp (s, code) =
    let r = read_from_od fns s 7 in if r.1 == 0 then send_segment r.0 else aborting r.0 r.1
respond fns idle (s, code) = record { server = s; code = code; ret = waiting_response; events = [] }
respond fns abort (s, code) = record {
  server = s;
  code = code;
  ret = waiting_response;
  events = [];
}
respond fns download_initiate_req (s, code) = record {
  server = s;
  code = code;
  ret = waiting_response;
  events = [];
}
respond fns download_segment_req (s, code) = record {
  server = s;
  code = code;
  ret = waiting_response;
  events = [];
}
respond fns upload_initiate_req (s, code) = record {
  server = s;
  code = code;
  ret = waiting_response;
  events = [];
}
respond fns upload_segment_req (s, code) = record {
  server = s;
  code = code;
  ret = waiting_response;
  events = [];
}

-- The abort message.
unfoldable pub send_abort : State → Answered → Answered
send_abort abort a = elim a.ret [
  | waiting_response ↦ record {
    server = record a.server { state = idle };
    code = a.code;
    ret = ended_with_server_abort;
    events = a.events ++ sent (header a.server 0x80 (bytes32 a.code)) ∷ [];
  }
  | ret ↦ a
]
send_abort other a = a

-- What follows the received message.
unfoldable pub conclude : Functions → Stepped → ℕ → Bool → Answered
conclude fns stepped dt buffer_full =
    let timed = time_out dt stepped in
    let a = respond fns timed.0.state timed in
    if buffer_full
    then record { server = timed.0; code = timed.1; ret = transmit_buffer_full; events = [] }
    else send_abort a.server.state a

abbrev quiet : Server → Answered
quiet s = record { server = s; code = 0; ret = ok_communication_end; events = [] }

-- `CO_SDOserver_process`; `buffer_full` is the flag of the transmit buffer.
unfoldable pub process : Functions → Server → Bool → ℕ → Bool → Answered
process fns s nmt_is_pre_or_operational dt buffer_full =
    if is_idle s.state && s.valid && not s.can_rx_new
    then quiet s
    else if not nmt_is_pre_or_operational || not s.valid
    then quiet (record s { state = idle; can_rx_new = false })
    else if s.can_rx_new
    then conclude fns (on_message fns s) 0 buffer_full
    else conclude fns (s, 0) dt buffer_full

-- `*timerNext_us` after a call.
unfoldable pub timer_next : Functions → Server → Bool → ℕ → ℕ → ℕ
timer_next fns s nmt_is_pre_or_operational dt next =
    let timed =
      time_out (if s.can_rx_new then 0 else dt)
        (if s.can_rx_new then on_message fns s else (s, 0)) in
    if (is_idle s.state && s.valid && not s.can_rx_new)
      || not nmt_is_pre_or_operational
      || not s.valid
    then next
    else if leb timed.0.timeout_time_us timed.0.timeout_timer
    then next
    else min next (timed.0.timeout_time_us - timed.0.timeout_timer)
