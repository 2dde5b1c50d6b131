-- ===== src/Flitrpc/Tests.antt =====
-- Runs of server/flitrpc/flitrpc.go on a small codec, and the theorems at these inputs.
use flit_el.Prelude.{
  ℕ, text_beq, ◌+◌, ◌≤◌, ◌≡◌, refl, All, true, ◌⊎◌, codes, false, Option, none, some, List, [], ◌∷◌,
  ◌++◌, arith, Bytes, text_eq, length,
}
use flit_el.Prelude.GoMap.{lookup, insert, erase}
use flit_el.Prelude.Int64.{ℤ, pos, negsuc, int_eq, add_one_int64}
use flit_el.Prelude.Results.{ok, err}
use flit_el.Flitrpc.Sink.{Sink, ◌>>◌, write, skip}
use flit_el.Flitrpc.Frame.{
  Frame, Meta, read_frame, header, eof, unexpected_eof, reading_payload, write_raw, read_full,
  get_uint32, put_uint32, frame_header,
}
use flit_el.Flitrpc.Frame.RoundTrip.{frame_bytes}
use flit_el.Flitrpc.Chunk.{response, next_chunk, encode_or_nil, write_chunked}
use flit_el.Flitrpc.Sink.{Emits}
use flit_el.Flitrpc.Chunk.Frames.{
  RawFrame, stream, chunks, chunked_frames, write_chunked_bounded, payloads,
}
use flit_el.Flitrpc.Chunk.RoundTrip.{
  frame, nothing, Reads, received, Reads-stream, Shuffle, left, right, finished,
}
use flit_el.Flitrpc.Codec.{type_notification, type_request, type_response}
use flit_el.Flitrpc.Tiny.{tiny, tiny_decode, tiny_meta, tiny_encode}
use flit_el.Flitrpc.Message.{write_chunked-received}
use flit_el.Flitrpc.Server.{Server, Handler, handle_request, handle_callback_response}
use flit_el.Flitrpc.Server.Replies.{handle_request_responds, Responded}
use flit_el.Flitrpc.Server.Loop.{Conn, serve, returned}
use flit_el.Flitrpc.Server.Loop.Order.{serve_order, serve-Ends, Ends}
use flit_el.Flitrpc.Server.Requests.{
  start_request, finish_request, response_result, deliver_all, request_answered,
  second_response_blocks,
}

-- A request with id 7, a notification with id -2, and a response to the request 1.
abbrev request_bytes : Bytes
request_bytes = 0 ∷ 1 ∷ 0 ∷ 7 ∷ 109 ∷ []

abbrev request_frame : Frame (Meta Unit)
request_frame = record { meta = tiny_meta type_request (pos 7) (109 ∷ []); payload = [] }

abbrev notification_bytes : Bytes
notification_bytes = 0 ∷ 3 ∷ 1 ∷ 1 ∷ 109 ∷ []

abbrev notification_frame : Frame (Meta Unit)
notification_frame = record {
  meta = tiny_meta type_notification (negsuc 1) (109 ∷ []);
  payload = 5 ∷ 6 ∷ [];
}

abbrev response_frame : Frame (Meta Unit)
response_frame = record { meta = tiny_meta type_response (pos 1) []; payload = [] }

abbrev other_response : Frame (Meta Unit)
other_response = record { meta = tiny_meta type_response (pos 9) []; payload = [] }

abbrev healthy : Sink
healthy = record { written = []; outcomes = [] }

-- Handlers that count their calls; the second returns an error.
abbrev counting : Handler Unit ℕ
counting params payload n = (ok (tt, payload), n + 1)

abbrev failing : Handler Unit ℕ
failing params payload n = (err (110 ∷ 111 ∷ []), n + 1)

abbrev counting_server : Server Unit ℕ
counting_server = record {
  handlers = (109 ∷ [], counting) ∷ [];
  request_handler = none;
  next_id = pos 0;
  waiters = [];
  sink = healthy;
  app = 0;
}

abbrev failing_server : Server Unit ℕ
failing_server = record counting_server { handlers = (109 ∷ [], failing) ∷ [] }

-- A frame that is cut off in its payload is an error, and so is a header that is cut off.
cut_off :
    (read_frame tiny_decode (0 ∷ 0 ∷ 0 ∷ 4 ∷ 0 ∷ 0 ∷ 0 ∷ 2 ∷ 0 ∷ 1 ∷ 0 ∷ 7 ∷ 9 ∷ [])
      ≡ err (reading_payload unexpected_eof))
    × (read_frame tiny_decode (0 ∷ 0 ∷ []) ≡ err (header unexpected_eof))
    × (read_frame tiny_decode [] ≡ err (header eof))
unfolding read_frame read_full get_uint32
cut_off = (refl, refl, refl)

write_chunked_bounded_example :
    (fs : List RawFrame) × Emits
      (stream fs)
      (write_chunked tiny_encode (pos 7) request_bytes (5 ∷ []))
    × (payloads fs ≡ 5 ∷ [])
    × All (λ f. length f.1 ≤ 262144) fs
write_chunked_bounded_example = write_chunked_bounded tiny_encode (pos 7) request_bytes (5 ∷ [])

-- A chunked response with another message between its frames.
abbrev interleaved : List RawFrame
interleaved =
    (0 ∷ 2 ∷ 0 ∷ 7 ∷ [], 5 ∷ []) ∷ (notification_bytes, 5 ∷ 6 ∷ []) ∷ (0 ∷ 5 ∷ 0 ∷ 7 ∷ [], []) ∷ []

interleaved-Shuffle :
    Shuffle
      (chunked_frames tiny_encode (pos 7) (0 ∷ 2 ∷ 0 ∷ 7 ∷ []) (5 ∷ []))
      ((notification_bytes, 5 ∷ 6 ∷ []) ∷ [])
      interleaved
unfolding next_chunk chunks encode_or_nil
interleaved-Shuffle = left (right (left finished))

write_chunked-received_example :
    Emits
      (stream (chunked_frames tiny_encode (pos 7) (0 ∷ 2 ∷ 0 ∷ 7 ∷ []) (5 ∷ [])))
      (write_chunked tiny_encode (pos 7) (0 ∷ 2 ∷ 0 ∷ 7 ∷ []) (5 ∷ []))
    × ((fs : List (Frame (Meta Unit))) × Reads tiny_decode
          (stream interleaved ++ 8 ∷ [])
          fs
          (8 ∷ [])
        × (received tiny_decode (λ m. m.id) (pos 7) fs ≡ 5 ∷ []))
write_chunked-received_example =
    write_chunked-received tiny (response (pos 7) tt false) (0 ∷ 2 ∷ 0 ∷ 7 ∷ []) (5 ∷ []) (8 ∷ [])
      ((notification_bytes, 5 ∷ 6 ∷ []) ∷ []) interleaved refl (omega arith)
      ((notification_frame.meta, refl, refl, omega arith, omega arith), tt) interleaved-Shuffle

abbrev two_frames : List RawFrame
two_frames = (request_bytes, []) ∷ (notification_bytes, 5 ∷ 6 ∷ []) ∷ []

abbrev two_frames_conn : Conn Unit ℕ
two_frames_conn = record { input = stream two_frames ++ []; server = counting_server; spawned = [] }

no_more_input : read_frame tiny_decode [] ≡ err (header eof)
unfolding read_frame read_full
no_more_input = refl

serve_order_example : serve tiny 3 two_frames_conn ≡ (
  returned (header eof),
  record two_frames_conn {
    input = [];
    server = handle_request tiny notification_frame counting_server;
    spawned = request_frame ∷ [];
  },
)
serve_order_example =
    serve_order tiny 3 (request_frame ∷ notification_frame ∷ []) (stream two_frames ++ []) []
      (header eof) two_frames_conn
      (Reads-stream tiny_decode two_frames (request_frame ∷ notification_frame ∷ []) []
        (frame refl (omega arith) (omega arith) (frame refl (omega arith) (omega arith) nothing)))
      (refl, (refl, tt)) no_more_input (omega arith) refl

serve-Ends_example : Ends (serve tiny 41 two_frames_conn).0
unfolding frame_header
serve-Ends_example = serve-Ends tiny 41 two_frames_conn (omega arith)

handle_request_responds_example :
    Responded tiny (pos 7) [] (handle_request tiny request_frame counting_server)
handle_request_responds_example =
    handle_request_responds tiny request_frame counting_server [] refl refl

counting_handler : lookup (109 ∷ []) counting_server.handlers ≡ some counting
unfolding lookup text_eq text_beq
counting_handler = refl

failing_handler : lookup (109 ∷ []) failing_server.handlers ≡ some failing
unfolding lookup text_eq text_beq
failing_handler = refl

-- The server after it has sent its first request, and after the responses.
abbrev with_waiters : List (ℤ × Option (Frame (Meta Unit))) → Server Unit ℕ
with_waiters ws = record counting_server {
  next_id = pos 1;
  waiters = ws;
  sink = record { written = frame_bytes (0 ∷ 1 ∷ 0 ∷ 1 ∷ 109 ∷ []) []; outcomes = [] };
}

first_request :
    start_request tiny (109 ∷ []) tt counting_server
    ≡ (some (pos 1), with_waiters ((pos 1, none) ∷ []))
unfolding start_request insert erase add_one_int64 frame_header put_uint32 write_raw ◌>>◌ write skip
first_request = refl

other_ignored :
    handle_callback_response tiny other_response (with_waiters ((pos 1, none) ∷ []))
    ≡ some (with_waiters ((pos 1, none) ∷ []))
unfolding handle_callback_response lookup
other_ignored = refl

response_taken :
    handle_callback_response tiny response_frame (with_waiters ((pos 1, none) ∷ []))
    ≡ some (with_waiters ((pos 1, some response_frame) ∷ []))
unfolding handle_callback_response lookup insert erase
response_taken = refl

request_answered_example :
    (((finish_request tiny (pos 1) true false (with_waiters ((pos 1, some response_frame) ∷ []))).0
        ≡ some (response_result response_frame))
      ⊎ ((true ≡ true)
          × (false ≡ true)
          × ((finish_request tiny
                (pos 1)
                true
                false
                (with_waiters ((pos 1, some response_frame) ∷ []))).0
              ≡ some (err (codes "connection closed")))))
    × (lookup
          (pos 1)
          (finish_request tiny
            (pos 1)
            true
            false
            (with_waiters ((pos 1, some response_frame) ∷ []))).1.waiters
        ≡ none)
request_answered_example =
    request_answered tiny (109 ∷ []) tt true false (other_response ∷ []) response_frame
      counting_server (with_waiters ((pos 1, none) ∷ [])) (with_waiters ((pos 1, none) ∷ []))
      (with_waiters ((pos 1, some response_frame) ∷ [])) first_request (refl, tt)
      (rw (other_ignored, deliver_all)) response_taken

second_response_blocks_example :
    handle_callback_response tiny response_frame (with_waiters ((pos 1, some response_frame) ∷ []))
    ≡ none
second_response_blocks_example =
    second_response_blocks tiny (109 ∷ []) tt response_frame response_frame counting_server
      (with_waiters ((pos 1, none) ∷ [])) (with_waiters ((pos 1, some response_frame) ∷ []))
      first_request response_taken refl
