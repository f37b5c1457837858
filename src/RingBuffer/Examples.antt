-- ===== src/RingBuffer/Examples.antt =====
-- Two parties with rings of eight bytes, and the theorems at their state.
use icecap.Base.{◌≡◌, refl, true, false, List, [], ◌∷◌, replicate, some, arith, ok}
use icecap.RingBuffer.{
  RingBufferSide, RingBuffer, poll_write, peek, skip, read_bytes, write_bytes, copy_in, copy_out,
  notify_read, notify_write,
}
use icecap.RingBuffer.Window.{write_each}
use icecap.RingBuffer.Copy.{copy_in-write_each}
use icecap.RingBuffer.Flow.{
  CanWrite, CanRead, contents, send, receive, tell_written, tell_read, turn,
}
use icecap.RingBuffer.Link.{
  Party, Link, Step, first_turn, second_turn, step, run, Received, IsLinked, IsAllowed, IsFifo,
  run-IsFifo,
}
use icecap.RingBuffer.Packet.{read_packet, write_packet}
use icecap.RingBuffer.Packet.RoundTrip.{known, read_packet-encoded, write_packet-encoded}
use icecap.RingBuffer.Buffered.{Buffered, tx, flush_tx, flush, tx_now, try_write}
use icecap.RingBuffer.Buffered.InOrder.{IsBuffered, outgoing, tx_in_order}
use icecap.RingBuffer.Buffered.Writers.{byte_writer}

copy_in_example :
    copy_in (replicate 8 0) 8 6 (1 ∷ 2 ∷ 3 ∷ []) ≡ write_each (replicate 8 0) 8 14 (1 ∷ 2 ∷ 3 ∷ [])
copy_in_example =
    copy_in-write_each (replicate 8 0) (1 ∷ 2 ∷ 3 ∷ []) 8 14 refl (omega arith) (omega arith)

abbrev side : RingBufferSide
side = record {
  size = 8;
  ctrl = record {
    offset_r = 0;
    offset_w = 0;
    status = record { notify_read = true; notify_write = false };
  };
  buf = replicate 8 0;
}

abbrev party : Party
party = record { private_offset_r = 0; private_offset_w = 0; read_kicks = 0; write_kicks = 0 }

abbrev link : Link
link = record { down = side; up = side; first = party; second = party }

link-IsLinked : IsLinked link
link-IsLinked = record {
  flow_down = record {
    sized = refl;
    acknowledged = omega arith;
    available = omega arith;
    published = omega arith;
    free = omega arith;
  };
  flow_up = record {
    sized = refl;
    acknowledged = omega arith;
    available = omega arith;
    published = omega arith;
    free = omega arith;
  };
}

abbrev steps : List Step
steps =
    first_turn (send (5 ∷ 6 ∷ 7 ∷ []))
    ∷ first_turn tell_written
    ∷ second_turn (receive 2)
    ∷ second_turn tell_read
    ∷ first_turn (send (8 ∷ 9 ∷ 10 ∷ 11 ∷ 12 ∷ 13 ∷ []))
    ∷ []

abbrev link_after : Link
link_after = record {
  down = record side {
    ctrl = record side.ctrl { offset_w = 3 };
    buf = 13 ∷ 6 ∷ 7 ∷ 8 ∷ 9 ∷ 10 ∷ 11 ∷ 12 ∷ [];
  };
  up = record side {
    ctrl = record {
      offset_r = 2;
      offset_w = 0;
      status = record { notify_read = false; notify_write = false };
    };
  };
  first = record party { private_offset_w = 9; write_kicks = 1 };
  second = record party { private_offset_r = 2 };
}

steps-IsAllowed : IsAllowed link steps
unfolding step turn write_bytes read_bytes notify_read notify_write peek skip copy_in copy_out
steps-IsAllowed = (
  (omega arith, omega arith),
  (tt, ((omega arith, omega arith), (tt, ((omega arith, omega arith), tt)))),
)

-- The last byte sent is at the start of the buffer.
run_result : run link steps ≡ ok (record { by_first = []; by_second = 5 ∷ 6 ∷ [] }, link_after)
unfolding run step turn write_bytes read_bytes notify_read notify_write peek skip copy_in copy_out
run_result = refl

run-IsFifo_example : (out : Received × Link) × (run link steps ≡ ok out) × IsFifo link steps out
run-IsFifo_example = run-IsFifo steps link-IsLinked steps-IsAllowed

-- A packet of two bytes and a part of the next are there.
abbrev reader : RingBuffer
reader = record {
  read = record side {
    ctrl = record side.ctrl { offset_w = 7 };
    buf = 2 ∷ 0 ∷ 0 ∷ 0 ∷ 70 ∷ 71 ∷ 9 ∷ 0 ∷ [];
  };
  write = side;
  private_offset_r = 0;
  private_offset_w = 0;
  read_kicks = 0;
  write_kicks = 0;
}

reader-CanRead : CanRead reader 7
reader-CanRead = record {
  sized = refl;
  acknowledged = omega arith;
  available = omega arith;
  published = omega arith;
  free = omega arith;
}

reader-CanWrite : CanWrite reader 0
reader-CanWrite = record {
  sized = refl;
  acknowledged = omega arith;
  available = omega arith;
  published = omega arith;
  free = omega arith;
}

read_packet_example :
    (rb' : RingBuffer) × (read_packet reader ≡ ok (some (70 ∷ 71 ∷ []), rb'))
    × CanRead rb' 7
    × (known rb' ≡ 9 ∷ [])
read_packet_example =
    read_packet-encoded reader 7 reader-CanRead (70 ∷ 71 ∷ []) (9 ∷ []) refl (omega arith)
      (omega arith)

write_packet_example :
    (rb' : RingBuffer) × (write_packet reader (33 ∷ []) ≡ ok (true, rb'))
    × CanWrite rb' 0
    × (contents rb'.write 0 rb'.private_offset_w ≡ 1 ∷ 0 ∷ 0 ∷ 0 ∷ 33 ∷ [])
write_packet_example =
    write_packet-encoded reader 0 7 reader-CanWrite reader-CanRead (33 ∷ []) (omega arith)
      (omega arith)

-- Three bytes are queued, and five more are sent: the three fit and the five do not.
abbrev buffered : Buffered
buffered = record { rb = reader; q = (1 ∷ 2 ∷ 3 ∷ []) ∷ [] }

abbrev buffered_after : Buffered
buffered_after = record {
  rb = record reader {
    read = record reader.read {
      ctrl = record reader.read.ctrl {
        status = record { notify_read = false; notify_write = false };
      };
    };
    write = record side {
      ctrl = record side.ctrl { offset_w = 3 };
      buf = 1 ∷ 2 ∷ 3 ∷ 0 ∷ 0 ∷ 0 ∷ 0 ∷ 0 ∷ [];
    };
    private_offset_w = 3;
    write_kicks = 1;
  };
  q = (4 ∷ 5 ∷ 6 ∷ 7 ∷ 8 ∷ []) ∷ [];
}

tx_result : tx try_write buffered (4 ∷ 5 ∷ 6 ∷ 7 ∷ 8 ∷ []) ≡ ok (true, buffered_after)
unfolding tx flush_tx flush tx_now try_write write_bytes poll_write copy_in notify_write
tx_result = refl

tx_in_order_example :
    IsBuffered buffered_after 0 7
    × (outgoing byte_writer buffered_after 0 ≡ 1 ∷ 2 ∷ 3 ∷ 4 ∷ 5 ∷ 6 ∷ 7 ∷ 8 ∷ [])
tx_in_order_example =
    tx_in_order byte_writer 0 7 (4 ∷ 5 ∷ 6 ∷ 7 ∷ 8 ∷ [])
      (record { can_write = reader-CanWrite; can_read = reader-CanRead }) (omega arith) tx_result
