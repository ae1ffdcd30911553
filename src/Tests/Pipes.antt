-- ===== src/Tests/Pipes.antt =====
-- A service over pipes.
use nil_service.Common.{◌≡◌, refl, Bytes, true, false, none, some, List, [], ◌∷◌, arith, replicate}
use nil_service.Codec.{little, digits, from_array, number}
use nil_service.Service.{no_handlers, called, on_message, invoke}
use nil_service.Stream.{frame, frames}
use nil_service.Stream
use nil_service.Tcp.Connection
use nil_service.Tcp.Connection.Refinement.{view}
use nil_service.Tcp.Connection.Bounds.{Fits}
use nil_service.Pipe.Opening
use nil_service.Pipe.{run_events}
use nil_service.Pipe.Opening.{no_fd, Pipe, header, self_id}
use nil_service.Pipe.Framing.{reads, run_events-frames}
use nil_service.Pipe.Simulation.{IsOpen, connection_of}
use nil_service.Pipe.Fifo.{System, refused, enxio, is_fifo}

-- A service that has heard its peer and waits for a header.
abbrev pipe : Pipe
pipe = record {
  this = 1;
  buffer = 4;
  make_read = true;
  make_write = true;
  reader = some 5;
  writer = some 6;
  r_buffer = replicate 12 0;
  reading = header 0 8;
  ready_notified = true;
  connected = true;
  read_loop_active = true;
  handlers = record (no_handlers) { on_message_cb = some 4 ∷ [] };
  posted = [];
  stopped = false;
  retry = Opening.off;
  probe = true;
}

pipe-IsOpen : IsOpen pipe
pipe-IsOpen = record {
  representable = omega arith;
  buffered = refl;
  reads = refl;
  heard_before = refl;
}

-- An empty message and one of two bytes, cut within headers and body.
abbrev chunks : List Bytes
chunks =
    (0 ∷ 0 ∷ 0 ∷ [])
    ∷ (0 ∷ 0 ∷ 0 ∷ 0 ∷ 0 ∷ [])
    ∷ (2 ∷ 0 ∷ 0 ∷ 0 ∷ 0 ∷ 0 ∷ 0 ∷ 0 ∷ [])
    ∷ (7 ∷ [])
    ∷ (8 ∷ [])
    ∷ []

chunks-Fits : Fits little chunks (connection_of pipe)
unfolding Connection.complete Connection.complete_at Connection.header_received
    Connection.body_received Connection.read_body Connection.read_header Connection.payload_size
    from_array number
chunks-Fits = (omega arith, (omega arith, (omega arith, (omega arith, (omega arith, tt)))))

run_events-frames_example :
    ((run_events little (reads no_fd chunks) pipe).1
      ≡ called (on_message 4 (self_id pipe) (7 ∷ 8 ∷ [])) ∷ [])
    × (view (connection_of (run_events little (reads no_fd chunks) pipe).0) ≡ Stream.header [])
unfolding frame digits invoke
run_events-frames_example =
    run_events-frames little no_fd chunks ([] ∷ (7 ∷ 8 ∷ []) ∷ []) pipe pipe-IsOpen refl chunks-Fits
      (omega arith, (omega arith, tt)) refl

-- A FIFO whose writer is not there yet.
abbrev lonely : System
lonely = record { mkfifo = none; stat = some is_fifo; open_ = λ flags. refused enxio }
