-- ===== src/Tests/Rsp.antt =====
-- co/rspConnection.cpp: concrete runs around the wrap-around of the sequence numbers.
use collage.Prelude.{
  ◌⊎◌, ◌≢◌, true, ℕ, ◌-◌, ◌%◌, ◌≤◌, ◌≡◌, refl, inl, inr, false, Option, none, some, List, [], ◌∷◌,
  ◌++◌, arith, length, All, flatten,
}
use collage.Rsp.State.{
  put_connection, Data, Nack, data_packet, nack, Settings, Child, Listener, u16_mod,
}
use collage.Rsp.Receive.{
  new_data_buffer, is_outside, push_data_buffer, push_pending, receive_in_order, receive_early,
  receive_data,
}
use collage.Rsp.Receive.InOrder.{expected}
use collage.Rsp.Receive.Posted.{History, posted_in_order}
use collage.Rsp.Receive.Complete.{receive_all, receive_all-delivers}
use collage.Rsp.Missing.{split_nack, scan, close_scan, missing, answer}
use collage.Rsp.Missing.Asked.{Asked}
use collage.Rsp.Missing.Covered.{answer-Asked}
use collage.Rsp.Missing.Bounds.{missing-bound}
use collage.Rsp.Send.{
  write, write_data, finish_write_queue, self_receive, least_acked, advance, handle_ack,
}
use collage.Rsp.Send.Acked.{last_of, AnyAcked}
use collage.Rsp.Send.Finished.{IsWriter, Finishes}
use collage.Rsp.Send.HandleAck.{handle_ack-Finishes, acknowledged_by_each}
use collage.Rsp.Send.Pieces.{queued, write-queues}
use collage.Rsp.Send.WriteData.{Continues, write_data-Continues}
use collage.Rsp.Repeat.{repeat_data, add_repeat}
use collage.Rsp.Repeat.Merging.{add_repeat-Asked}
use collage.Rsp.Repeat.Rounds.{IsRepeated, repeat_data-IsRepeated}
use collage.Rsp.Repeat.Whole.{repeat_times, repeat_times-sends}
use collage.Rsp.Members.{id_confirm, handle_init_data}
use collage.Rsp.Members.Distinct.{IsGroup, handle_init_data-IsGroup}

abbrev packets : ℕ → Data
packets n = record { writer_id = 7; sequence = n % u16_mod; payload = n ∷ [] }

abbrev settings : Settings
settings = record { num_buffers = 4; ack_freq = 2; payload_size = 3 }

-- The application has read nothing yet, and packet 65534 is the next one.
abbrev reader : Child
reader = record {
  id = 7;
  sequence = 65534;
  acked = 65533;
  recv_buffers = [];
  app_buffers = [];
  free_buffers = 8;
  event = false;
}

abbrev after_one : Child
after_one = (receive_data settings 3 reader (packets 65536)).child

early_packet_kept : after_one.recv_buffers ≡ none ∷ some (packets 65536) ∷ []
unfolding receive_data is_outside receive_early new_data_buffer
early_packet_kept = refl

posted_in_order_example :
    (receive_data settings 3 after_one (packets 65534)).child.app_buffers ≡ packets 65534 ∷ []
unfolding receive_data is_outside receive_early new_data_buffer receive_in_order push_pending
    push_data_buffer
posted_in_order_example =
    posted_in_order packets settings 3 65534
      (receive_data settings 3 after_one (packets 65534)).child
      (History.arrives after_one 65534
        (History.arrives reader 65536 (History.added reader refl refl refl)
          (omega arith, omega arith) refl)
        (omega arith, omega arith) refl)

receive_all-delivers_example :
    65537
    ≤ expected 65534 (receive_all packets settings 3 reader (65536 ∷ 65534 ∷ 65536 ∷ 65535 ∷ []))
unfolding receive_data is_outside receive_early new_data_buffer receive_in_order push_pending
    push_data_buffer
receive_all-delivers_example =
    receive_all-delivers packets settings 3 65534 reader (65536 ∷ 65534 ∷ 65536 ∷ 65535 ∷ []) 65537
      (record { sequence = refl; posted = refl; pending = tt })
      (
        (omega arith, omega arith),
        omega arith,
        refl,
        omega arith,
        (
          (omega arith, omega arith),
          omega arith,
          refl,
          omega arith,
          (
            (omega arith, omega arith),
            omega arith,
            refl,
            omega arith,
            ((omega arith, omega arith), omega arith, refl, omega arith, tt),
          ),
        ),
      )
      (λ m h g. ground (arith, h, g))

-- Packets 65534 and 65536 are missing.
abbrev gaps : Child
gaps = record reader { recv_buffers = some (packets 65535) ∷ none ∷ some (packets 65537) ∷ [] }

answer-Asked_example : (ns : List Nack) × (answer settings gaps 1 ≡ nack 7 ns) × Asked ns 65536
answer-Asked_example =
    answer-Asked settings gaps 65534 65537 65536 refl (omega arith) (omega arith) (omega arith)
      (inr refl) (omega arith) (omega arith)

missing-bound_example : length (missing settings gaps 1) ≤ 300
missing-bound_example = missing-bound settings gaps 65534 65537 refl (omega arith) (omega arith)

nacks_of_gaps :
    missing settings gaps 1
    ≡ record { first = 65534; last = 65534 }
      ∷ record { first = 0; last = 0 }
      ∷ record { first = 1; last = 1 }
      ∷ []
unfolding missing scan close_scan split_nack
nacks_of_gaps = refl

-- Node 7 has written three packets, of which one is finished. Reader 8 has acknowledged all of them,
-- reader 9 only the first.
abbrev own_child : Child
own_child = record reader { sequence = 1; acked = 0; app_buffers = packets 0 ∷ [] }

abbrev reader_8 : Child
reader_8 = record reader { id = 8; sequence = 0; acked = 2 }

abbrev reader_9 : Child
reader_9 = record reader { id = 9; sequence = 0; acked = 0 }

abbrev writer : Listener
writer = record {
  id = 7;
  sequence = 3;
  timeouts = 5;
  children = own_child ∷ reader_8 ∷ reader_9 ∷ [];
  thread_buffers = (30 ∷ []) ∷ (31 ∷ 32 ∷ []) ∷ [];
  empty_buffers = 2;
  write_buffers = packets 1 ∷ packets 2 ∷ [];
  repeat_queue = record { first = 1; last = 2 } ∷ [];
  sent = [];
}

abbrev received_all : ℕ → ℕ
received_all id = 3

writer-IsWriter : IsWriter settings received_all (packets 0 ∷ []) writer
writer-IsWriter = record {
  numbered = (refl, (refl, (refl, tt)));
  sequence = refl;
  room = omega arith;
  own = (own_child, refl, record { posted = refl; sequence = refl; acked = refl });
  readers = (
    inl refl,
    (
      inr (3, refl, omega arith, omega arith, omega arith),
      (inr (1, refl, omega arith, omega arith, omega arith), tt),
    ),
  );
}

handle_ack-Finishes_example :
    ((2 ≤ 1) × (handle_ack settings writer 9 7 1 ≡ some writer))
    ⊎ ((m : ℕ) × (m ≤ 2)
        × ((m ≡ 2)
            ⊎ AnyAcked 7
                (last_of m)
                (put_connection (record reader_9 { acked = 1 }) writer.children))
        × ((l : Listener) × (handle_ack settings writer 9 7 1 ≡ some l)
            × Finishes settings received_all (packets 0 ∷ []) m writer l))
handle_ack-Finishes_example =
    handle_ack-Finishes settings received_all writer (packets 0 ∷ []) 1 2 9 reader_9 writer-IsWriter
      (omega arith) refl (omega arith) refl (omega arith) (omega arith) (omega arith) (omega arith)

acknowledged_by_each_example :
    (l : Listener) × (handle_ack settings writer 9 7 2 ≡ some l)
    × Finishes settings received_all (packets 0 ∷ []) 3 writer l
acknowledged_by_each_example =
    acknowledged_by_each settings received_all writer (packets 0 ∷ []) 1 3 9 reader_9
      writer-IsWriter (omega arith) refl (omega arith) refl (omega arith) (omega arith)
      (omega arith) (omega arith)
      (
        inl refl,
        (
          inr (3, refl, omega arith, omega arith, omega arith),
          (inr (3, refl, omega arith, omega arith, omega arith), tt),
        ),
      )

write_data-Continues_example :
    ((writer.thread_buffers ≡ []) × (write_data settings writer ≡ some writer))
    ⊎ ((writer.thread_buffers ≢ [])
        × Continues settings received_all (packets 0 ∷ []) writer (write_data settings writer))
write_data-Continues_example =
    write_data-Continues settings received_all writer (packets 0 ∷ []) writer-IsWriter (omega arith)
      (omega arith)

write-queues_example :
    (ps : List (List ℕ)) × (write settings writer (1 ∷ 2 ∷ 3 ∷ 4 ∷ [])
      ≡ some (queued writer (2 - length ps) (((30 ∷ []) ∷ (31 ∷ 32 ∷ []) ∷ []) ++ ps)))
    × (flatten ps ≡ 1 ∷ 2 ∷ 3 ∷ 4 ∷ [])
    × All (λ p. length p ≤ 3) ps
write-queues_example = write-queues settings writer (1 ∷ 2 ∷ 3 ∷ 4 ∷ []) (omega arith) (omega arith)

repeat_data-IsRepeated_example : IsRepeated writer (repeat_data writer)
repeat_data-IsRepeated_example = repeat_data-IsRepeated writer ((omega arith, omega arith), tt)

repeat_times-sends_example :
    ((repeat_times 2 writer).sent ≡ data_packet (packets 1) ∷ data_packet (packets 2) ∷ [])
    × ((repeat_times 2 writer).repeat_queue ≡ [])
repeat_times-sends_example =
    repeat_times-sends 1 writer (record { first = 1; last = 2 }) [] 1 1 refl (refl, (refl, tt)) refl
      (omega arith) refl refl (omega arith) (omega arith)

add_repeat-Asked_example :
    Asked (add_repeat (record { first = 2; last = 4 } ∷ []) writer.repeat_queue) 4
add_repeat-Asked_example =
    add_repeat-Asked (record { first = 2; last = 4 } ∷ []) writer.repeat_queue 4
      (inl (inl (omega arith, omega arith)))

handle_init_data-IsGroup_example : IsGroup (handle_init_data settings true id_confirm 10 40 writer)
handle_init_data-IsGroup_example =
    handle_init_data-IsGroup settings true id_confirm 10 40 writer (record {
      distinct = ((omega arith, (omega arith, tt)), ((omega arith, tt), (tt, tt)));
      own = refl;
    })

-- A writer at the wrap-around: readers 8 and 9 have acknowledged packets 65541 and 65537. A late
-- acknowledgement of packet 65535 by reader 9 is not recognised, and the packets up to 65541 are
-- finished.
abbrev wrapped : Listener
wrapped = record writer {
  sequence = 6;
  children =
      record own_child { sequence = 2; acked = 1 }
      ∷ record reader_9 { acked = 1 }
      ∷ record reader_8 { acked = 5 }
      ∷ [];
  write_buffers = packets 65538 ∷ packets 65539 ∷ packets 65540 ∷ packets 65541 ∷ [];
}

abbrev kept : Option Listener → List Data
kept none = []
kept (some l) = l.write_buffers

late_ack_finishes : kept (handle_ack settings wrapped 9 7 65535) ≡ []
unfolding handle_ack advance least_acked finish_write_queue self_receive
late_ack_finishes = refl
