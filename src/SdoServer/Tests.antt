-- ===== src/SdoServer/Tests.antt =====
-- Runs of the SDO server.
use e_rob_canopen_node_demo.Base.{
  ℕ, ◌≡◌, refl, List, [], ◌∷◌, map, inl, true, false, none, some, replicate, arith,
}
use e_rob_canopen_node_demo.Od.{Odr, read_original, write_original, get_sdo_ab_code}
use e_rob_canopen_node_demo.Od.Entries.{Entry, Object, Io, Access, find, get_sub, get_sub_object}
use e_rob_canopen_node_demo.SdoServer.{
  ab_toggle_bit, Server, idle, sent, Functions, receive, io_read, io_write, read_from_od, shorten,
  strlen, validate, flush, validate_and_write_to_od,
}
use e_rob_canopen_node_demo.SdoServer.Channel.{
  exchange, segments, deliver, initiate, initiated, confirmation,
}
use e_rob_canopen_node_demo.SdoServer.Segments.{Variable, at, filling}
use e_rob_canopen_node_demo.SdoServer.Download.{Resting}
use e_rob_canopen_node_demo.SdoServer.RoundTrip.{deliver-deliver}
use e_rob_canopen_node_demo.SdoServer.Protocol.{deliver_stores}
use e_rob_canopen_node_demo.SdoServer.Reading.{requests}
use e_rob_canopen_node_demo.SdoServer.Readout.{ask_upload, announcement, deliver_reads}
use e_rob_canopen_node_demo.SdoServer.Silence.{silent, silent_ends}
use e_rob_canopen_node_demo.SdoServer.Refusals.{Refuses, exchange-Refuses}
use e_rob_canopen_node_demo.SdoServer.Requests.{
  on_message, start, open_object, look_up, load, expedited, announce, take_segment, gather, settle,
  ask_segment, dispatch,
}
use e_rob_canopen_node_demo.SdoServer.Process.{
  process, time_out, respond, answer_download, answer_segment, answer_upload, send_segment,
  send_abort, conclude,
}

abbrev no_functions : Functions
no_functions = record {
  read = λ n m s c. record { code = Odr.ok; bytes = []; stream = s };
  write = λ n m s b. record { code = Odr.ok; count_written = 0; memory = m; stream = s };
}

abbrev no_io : Io
no_io = record {
  stream = record {
    data_orig = none;
    data_length = 0;
    data_offset = 0;
    attribute = 0;
    index = 0;
    sub_index = 0;
  };
  read = Access.disabled;
  write = Access.disabled;
}

-- One variable of ten bytes, at address 1.
abbrev variable : Entry
variable = record {
  index = 0x2110;
  sub_entries_count = 1;
  od_object = some (Object.var (record { data_orig = some 1; attribute = 0x03; data_length = 10 }));
  extension = none;
}

abbrev ready : Server
ready = record {
  od = variable ∷ [];
  memory = replicate 12 9;
  valid = true;
  state = idle;
  od_io = no_io;
  index = 0;
  sub_index = 0;
  can_rx_new = false;
  can_rx_data = replicate 8 0;
  size_ind = 0;
  size_tran = 0;
  toggle = 0;
  finished = false;
  timeout_time_us = 500000;
  timeout_timer = 0;
  buf = replicate 33 0;
  buf_offset_wr = 0;
  buf_offset_rd = 0;
  has_signal_pre = false;
}

abbrev ten : List ℕ
ten = 1 ∷ 2 ∷ 3 ∷ 4 ∷ 5 ∷ 6 ∷ 7 ∷ 8 ∷ 9 ∷ 10 ∷ []

abbrev place : Variable
place = record {
  orig = 1;
  size = 10;
  attribute = 0x03;
  read = Access.original;
  index = 0x2110;
  sub = 0;
}

-- The server behind the announcement of a download.
abbrev begun : Server
begun = filling place ready ready.memory 0 ready.buf 0 0 10

messages :
    initiate 0x2110 0 10 ∷ segments 10 0 ten
    ≡ (0x21 ∷ 0x10 ∷ 0x21 ∷ 0 ∷ 10 ∷ 0 ∷ 0 ∷ 0 ∷ [])
      ∷ (0x00 ∷ 1 ∷ 2 ∷ 3 ∷ 4 ∷ 5 ∷ 6 ∷ 7 ∷ [])
      ∷ (0x19 ∷ 8 ∷ 9 ∷ 10 ∷ 0 ∷ 0 ∷ 0 ∷ 0 ∷ [])
      ∷ []
unfolding segments
messages = refl

uploads :
    (exchange no_functions
      (exchange no_functions ready (0x40 ∷ 0x10 ∷ 0x21 ∷ 0 ∷ 0 ∷ 0 ∷ 0 ∷ 0 ∷ [])).server
      (0x60 ∷ 0 ∷ 0 ∷ 0 ∷ 0 ∷ 0 ∷ 0 ∷ 0 ∷ [])).events
    ≡ sent (0 ∷ 9 ∷ 9 ∷ 9 ∷ 9 ∷ 9 ∷ 9 ∷ 9 ∷ []) ∷ []
unfolding exchange process on_message start open_object look_up load expedited announce take_segment
    gather settle ask_segment dispatch time_out respond answer_download answer_segment answer_upload
    send_segment send_abort conclude receive io_read io_write read_from_od shorten strlen validate
    flush validate_and_write_to_od find get_sub get_sub_object read_original write_original
    get_sdo_ab_code
uploads = refl

found : look_up ready.od 0x2110 0 ≡ (Odr.ok, some (at place 0))
unfolding look_up find get_sub get_sub_object
found = refl

deliver_stores_example :
    let out = deliver no_functions ready (initiate 0x2110 0 10 ∷ segments 10 0 ten) in
    (out.0.memory ≡ 9 ∷ 1 ∷ 2 ∷ 3 ∷ 4 ∷ 5 ∷ 6 ∷ 7 ∷ 8 ∷ 9 ∷ 10 ∷ 9 ∷ [])
    × (out.0.state ≡ idle)
    × (out.1 ≡ initiated 0x2110 0 ∷ map confirmation (segments 10 0 ten))
    × Resting ready out.0
deliver_stores_example =
    deliver_stores no_functions place ready ten refl refl refl (omega arith) found (omega arith)
      refl refl refl refl (omega arith) (omega arith) (omega arith)

silent_ends_example :
    let out = silent no_functions 600 1000 begun in
    (out.0.state ≡ idle)
    × (out.0.memory ≡ begun.memory)
    × (out.1 ≡ sent (0x80 ∷ 0 ∷ 0 ∷ 0 ∷ 0 ∷ 0 ∷ 4 ∷ 5 ∷ []) ∷ [])
silent_ends_example =
    silent_ends no_functions 600 1000 begun (inl refl) refl refl (omega arith) (omega arith)
      (omega arith) (omega arith)

-- A segment with the toggle bit of the one before.
exchange-Refuses_example :
    Refuses begun ab_toggle_bit
      (exchange no_functions begun (0x10 ∷ 1 ∷ 2 ∷ 3 ∷ 4 ∷ 5 ∷ 6 ∷ 7 ∷ []))
exchange-Refuses_example =
    exchange-Refuses no_functions begun (0x10 ∷ 1 ∷ 2 ∷ 3 ∷ 4 ∷ 5 ∷ 6 ∷ 7 ∷ []) refl refl refl
      (omega arith) (omega arith) (omega arith) (ground arith) (ground arith)

deliver_reads_example :
    let out = deliver no_functions ready (ask_upload 0x2110 0 ∷ requests 10 0 (replicate 10 9)) in
    (out.0.memory ≡ ready.memory)
    × (out.0.state ≡ idle)
    × (out.1 ≡ map sent (announcement 0x2110 0 10 ∷ segments 10 0 (replicate 10 9)))
deliver_reads_example =
    deliver_reads no_functions place ready refl refl refl (omega arith) found (omega arith) refl
      refl refl refl (omega arith) (omega arith) (omega arith)

deliver-deliver_example :
    let there = deliver no_functions ready (initiate 0x2110 0 10 ∷ segments 10 0 ten) in
    let back = deliver no_functions there.0 (ask_upload 0x2110 0 ∷ requests 10 0 ten) in
    back.1 ≡ map sent (announcement 0x2110 0 10 ∷ segments 10 0 ten)
deliver-deliver_example =
    deliver-deliver no_functions place ready ten refl refl refl (omega arith) found (omega arith)
      refl refl refl refl refl refl (omega arith) (omega arith) (omega arith)
