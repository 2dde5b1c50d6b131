-- ===== src/Flitrpc/Server.antt =====
-- server/flitrpc/flitrpc.go: the server's state, its dispatch and the messages that it sends.
-- A handler is a function of the application's state `S`; what it returns besides the state is its
-- result and payload, or the text of its error. Log output is left out.
pub mod Replies
pub mod Loop
pub mod Requests
use flit_el.Prelude.{
  ℕ, zero, suc, ◌<◌, ◌≡◌, Bool, true, false, Option, none, some, List, [], ◌∷◌, ◌++◌, Bytes, Text,
  codes, text_eq, length, is_empty, ltb, ◌==◌, if◌then◌else◌,
}
use flit_el.Prelude.GoMap.{GoMap, lookup, insert, erase}
use flit_el.Prelude.Int64.{ℤ, pos, negsuc, int_eq, add_one_int64, neg_int64}
use flit_el.Prelude.Results.{Result, ok, err}
use flit_el.Flitrpc.Sink.{Sink, IoResult, done, failed, Action}
use flit_el.Flitrpc.Frame.{Frame, Meta, ErrorInfo, FrameError, read_frame, write_raw}
use flit_el.Flitrpc.Chunk.{
  OutMeta, request, response, error_response, notification, chunk_size, write_chunked,
}
use flit_el.Flitrpc.Codec.{Codec, type_request, type_response, type_notification}

abbrev pub method_not_found : ℤ
method_not_found = negsuc 32600

abbrev pub internal_error : ℤ
internal_error = negsuc 32602

abbrev pub not_found_message : Text → Text
not_found_message method = codes "method not found: " ++ method

module _ (Value S : Type 0) where
  -- Handler
  abbrev pub Handler : Type 0
  Handler = Bytes → Bytes → S → Result Text (Value × Bytes) × S

  -- Server. A channel in `waiters` holds one frame at most.
  pub record Server : Type 0 where
    pub handlers : GoMap Text Handler
    pub request_handler : Option (Text → Handler)
    pub next_id : ℤ
    pub waiters : GoMap ℤ (Option (Frame (Meta Value)))
    pub sink : Sink
    pub app : S

-- The choice between writeChunked and writeRaw that sendResult and NotifyWithPayload make.
unfoldable pub write_message : {Value : Type 0} → Codec Value → ℤ → Bytes → Bytes → Action
write_message c id payload meta_buf =
    if ltb chunk_size (length payload)
    then write_chunked c.encode id meta_buf payload
    else write_raw meta_buf payload

module _ {Value S : Type 0} (c : Codec Value) where
  -- An action on the writer whose error is only logged.
  unfoldable pub do_write : Action → Server Value S → Server Value S
  do_write m sv = record sv { sink = (m sv.sink).1 }

  -- NewServer
  unfoldable pub new_server : Sink → S → Server Value S
  new_server out app = record {
    handlers = [];
    request_handler = none;
    next_id = pos 0;
    waiters = [];
    sink = out;
    app = app;
  }

  -- Handle
  unfoldable pub handle : Text → Handler Value S → Server Value S → Server Value S
  handle method h sv = record sv { handlers = insert method h sv.handlers }

  -- What follows marshalMsgpack: its error is only logged.
  unfoldable pub write_encoded : (Bytes → Action) → Option Bytes → Server Value S → Server Value S
  unfolding do_write
  write_encoded m none sv = sv
  write_encoded m (some meta_buf) sv = do_write (m meta_buf) sv

  -- sendResult
  unfoldable pub send_result : ℤ → Value → Bytes → Server Value S → Server Value S
  unfolding write_encoded
  send_result id result payload sv =
      let chunked = ltb chunk_size (length payload) in
      write_encoded (write_message c id payload) (c.encode (response id result chunked)) sv

  -- sendError
  unfoldable pub send_error : ℤ → ℤ → Text → Server Value S → Server Value S
  unfolding write_encoded
  send_error id code message sv =
      write_encoded (λ meta_buf. write_raw meta_buf []) (c.encode (error_response id code message))
        sv

  -- The part that handleRequest and handleWithFallback share: what follows the handler's return.
  after_handler :
      Frame (Meta Value) → Result Text (Value × Bytes) × S → Server Value S → Server Value S
  unfolding send_error send_result
  after_handler frame (err message, app) sv =
      send_error frame.meta.id internal_error message (record sv { app = app })
  after_handler frame (ok (result, payload), app) sv =
      if frame.meta.type == type_notification
      then record sv { app = app }
      else send_result frame.meta.id result payload (record sv { app = app })

  run_handler : Handler Value S → Frame (Meta Value) → Server Value S → Server Value S
  unfolding after_handler
  run_handler h frame sv = after_handler frame (h frame.meta.params frame.payload sv.app) sv

  -- handleWithFallback, where RequestHandler is set
  unfoldable pub handle_with_fallback :
      (Text → Handler Value S) → Frame (Meta Value) → Server Value S → Server Value S
  unfolding run_handler
  handle_with_fallback h frame sv = run_handler (h frame.meta.method) frame sv

  -- The rest of handleRequest, given the handler's entry and RequestHandler.
  dispatch :
      Option (Handler Value S)
      → Option (Text → Handler Value S)
      → Frame (Meta Value)
      → Server Value S
      → Server Value S
  unfolding run_handler handle_with_fallback send_error
  dispatch (some h) fallback frame sv = run_handler h frame sv
  dispatch none (some h) frame sv = handle_with_fallback h frame sv
  dispatch none none frame sv =
      send_error frame.meta.id method_not_found (not_found_message frame.meta.method) sv

  -- handleRequest
  unfoldable pub handle_request : Frame (Meta Value) → Server Value S → Server Value S
  unfolding dispatch
  handle_request frame sv =
      dispatch (lookup frame.meta.method sv.handlers) sv.request_handler frame sv

  -- `return s.writer.write…(…)`
  finish_notify : (Bytes → Action) → Option Bytes → Server Value S → IoResult × Server Value S
  finish_notify m none sv = (failed, sv)
  finish_notify m (some meta_buf) sv =
      ((m meta_buf sv.sink).0, record sv { sink = (m meta_buf sv.sink).1 })

  -- NotifyWithPayload, with the error that it returns
  unfoldable pub notify_with_payload :
      Text → Value → Bytes → Server Value S → IoResult × Server Value S
  unfolding finish_notify
  notify_with_payload method params payload sv =
      let next = add_one_int64 sv.next_id in
      let id = neg_int64 next in
      let chunked = ltb chunk_size (length payload) in
      finish_notify (write_message c id payload) (c.encode (notification id method params chunked))
        (record sv { next_id = next })

  -- Notify
  unfoldable pub notify : Text → Value → Server Value S → IoResult × Server Value S
  unfolding notify_with_payload
  notify method params sv = notify_with_payload method params [] sv

  deliver :
      Option (Option (Frame (Meta Value)))
      → Frame (Meta Value)
      → Server Value S
      → Option (Server Value S)
  deliver none frame sv = some sv
  deliver (some none) frame sv =
      some (record sv { waiters = insert frame.meta.id (some frame) sv.waiters })
  deliver (some (some earlier)) frame sv = none

  -- handleCallbackResponse; `none` when the send to the waiter's channel blocks, because the channel
  -- already holds a frame
  unfoldable pub handle_callback_response :
      Frame (Meta Value) → Server Value S → Option (Server Value S)
  unfolding deliver
  handle_callback_response frame sv = deliver (lookup frame.meta.id sv.waiters) frame sv
