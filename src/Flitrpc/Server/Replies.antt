-- ===== src/Flitrpc/Server/Replies.antt =====
-- What a request is answered with: server/flitrpc/flitrpc.go.
use flit_el.Prelude.{
  ℕ, ◌+◌, ◌<◌, ◌≡◌, refl, ap, ◌∙◌, ◌⊎◌, inl, inr, false, Option, none, some, [], ◌++◌, Bytes, Text,
  text_eq, length, ltb, ◌==◌, if◌then◌else◌, Bool-cases,
}
use mathlib.Core.List.{append-nil}
use flit_el.Prelude.GoMap.{lookup}
use flit_el.Prelude.Int64.{
  ℤ, pos, negsuc, max_int64, int_eq, add_one_int64, neg_int64, add_one_int64_pos, neg-add_one,
}
use flit_el.Prelude.Results.{Result, ok, err}
use flit_el.Flitrpc.Sink.{Sink, IoResult, done, Emits}
use flit_el.Flitrpc.Frame.{Frame, Meta}
use flit_el.Flitrpc.Frame.RoundTrip.{frame_bytes, write_raw-Emits}
use flit_el.Flitrpc.Chunk.{OutMeta, response, error_response, notification, chunk_size}
use flit_el.Flitrpc.Chunk.Frames.{stream, chunked_frames, write_chunked-Emits}
use flit_el.Flitrpc.Codec.{Codec, type_response, type_notification, type_of, id_of}
use flit_el.Flitrpc.Server.{
  Server, Handler, write_message, write_encoded, send_result, send_error, after_handler,
  handle_request, finish_notify, notify_with_payload, dispatch, method_not_found, not_found_message,
  internal_error,
}

module _ {Value : Type 0} (c : Codec Value) where
  -- The bytes of one message: a frame, or the frames of a chunked message if the payload is longer
  -- than a chunk; none where the metadata does not encode.
  abbrev pub message_bytes : ℤ → Bytes → Bytes → Bytes
  message_bytes id p b =
      if ltb chunk_size (length p) then stream (chunked_frames c.encode id b p) else frame_bytes b p

  abbrev encoded_bytes : ℤ → Bytes → Option Bytes → Bytes
  encoded_bytes id p none = []
  encoded_bytes id p (some b) = message_bytes id p b

  pub message : OutMeta Value → Bytes → Bytes
  message o p = encoded_bytes (id_of o) p (c.encode o)

  -- A message is sent whole: as one frame, or as a chunked message.
  pub write_message-Emits :
      (id : ℤ) (p b : Bytes) → Emits (message_bytes id p b) (write_message c id p b)
  unfolding write_message
  write_message-Emits id p b = elim (Bool-cases (ltb chunk_size (length p))) [
    | inl t ↦ rw t (write_chunked-Emits c.encode id b p)
    | inr t ↦ rw t (write_raw-Emits b p)
  ]

module _ {Value S : Type 0} (c : Codec Value) where
  -- A server whose writer has the bytes `w` and reports no error.
  abbrev pub IsHealthy : Bytes → Server Value S → Type 0
  IsHealthy w sv = sv.sink ≡ record { written = w; outcomes = [] }

  write_encoded-IsHealthy :
      (sv : Server Value S) (w p : Bytes) (id : ℤ) (m : Bytes → Sink → IoResult × Sink)
      (eb : Option Bytes)
      → IsHealthy w sv
      → ((b : Bytes) → Emits (message_bytes c id p b) (m b))
      → IsHealthy (w ++ encoded_bytes c id p eb) (write_encoded c m eb sv)
  unfolding write_encoded
  write_encoded-IsHealthy sv w p id m none h e = rw append-nil h
  write_encoded-IsHealthy sv w p id m (some b) h e = rw (h, (e b).complete w)

  send_error_sends :
      (id code : ℤ) (text : Text) (sv : Server Value S) (w : Bytes)
      → IsHealthy w sv
      → IsHealthy (w ++ message c (error_response id code text) []) (send_error c id code text sv)
  unfolding send_error message
  send_error_sends id code text sv w h =
      write_encoded-IsHealthy sv w [] id _ _ h (λ b. write_raw-Emits b [])

  send_result_sends :
      (id : ℤ) (v : Value) (p : Bytes) (sv : Server Value S) (w : Bytes)
      → IsHealthy w sv
      → IsHealthy
          (w ++ message c (response id v (ltb chunk_size (length p))) p)
          (send_result c id v p sv)
  unfolding send_result message
  send_result_sends id v p sv w h =
      write_encoded-IsHealthy sv w p id _ _ h (write_message-Emits c id p)

  -- The message has been written after `w`; or its metadata does not encode, and nothing has.
  abbrev pub Sent : OutMeta Value → Bytes → Bytes → Server Value S → Type 0
  Sent o p w sv =
      ((b : Bytes) × (c.encode o ≡ some b) × IsHealthy (w ++ message_bytes c (id_of o) p b) sv)
      ⊎ ((c.encode o ≡ none) × IsHealthy w sv)

  message-Sent :
      (o : OutMeta Value) (p w : Bytes) (sv : Server Value S)
      → IsHealthy (w ++ message c o p) sv
      → Sent o p w sv
  unfolding message
  message-Sent o p w sv h = sent (c.encode o) refl
    where
      sent : (eb : Option Bytes) → c.encode o ≡ eb → Sent o p w sv
      sent none e = inr (
        e,
        h
            ∙ ap
                (λ (x : Option Bytes). record {
                  written = w ++ encoded_bytes c (id_of o) p x;
                  outcomes = [];
                })
                e
            ∙ ap (λ (x : Bytes). record { written = x; outcomes = [] }) (append-nil w),
      )
      sent (some b) e = inl (
        b,
        e,
        h
            ∙ ap
                (λ (x : Option Bytes). record {
                  written = w ++ encoded_bytes c (id_of o) p x;
                  outcomes = [];
                })
                e,
      )

  -- One response with the id has been sent after `w`, if its metadata encodes.
  abbrev pub Responded : ℤ → Bytes → Server Value S → Type 0
  Responded id w sv =
      (o : OutMeta Value) × (p : Bytes) × (type_of o ≡ type_response)
      × (id_of o ≡ id)
      × Sent o p w sv

  after_handler_responds :
      (f : Frame (Meta Value)) (r : Result Text (Value × Bytes) × S) (sv : Server Value S)
      (w : Bytes)
      → (f.meta.type == type_notification) ≡ false
      → IsHealthy w sv
      → Responded f.meta.id w (after_handler c f r sv)
  unfolding after_handler
  after_handler_responds f (err text, app) sv w t h = (
    error_response f.meta.id internal_error text,
    [],
    refl,
    refl,
    message-Sent (error_response f.meta.id internal_error text) [] w
        (send_error c f.meta.id internal_error text (record sv { app = app }))
        (send_error_sends f.meta.id internal_error text (record sv { app = app }) w h),
  )
  after_handler_responds f (ok (v, p), app) sv w t h = (
    response f.meta.id v (ltb chunk_size (length p)),
    p,
    refl,
    refl,
    rw t (
        message-Sent (response f.meta.id v (ltb chunk_size (length p))) p w
          (send_result c f.meta.id v p (record sv { app = app }))
          (send_result_sends f.meta.id v p (record sv { app = app }) w h)),
  )

  dispatch_responds :
      (e : Option (Handler Value S)) (fb : Option (Text → Handler Value S)) (f : Frame (Meta Value))
      (sv : Server Value S) (w : Bytes)
      → (f.meta.type == type_notification) ≡ false
      → IsHealthy w sv
      → Responded f.meta.id w (dispatch c e fb f sv)
  unfolding dispatch
  dispatch_responds (some h) fb f sv w t k = after_handler_responds f _ sv w t k
  dispatch_responds none (some h) f sv w t k = after_handler_responds f _ sv w t k
  dispatch_responds none none f sv w t k = (
    error_response f.meta.id method_not_found (not_found_message f.meta.method),
    [],
    refl,
    refl,
    message-Sent (error_response f.meta.id method_not_found (not_found_message f.meta.method)) [] w
        (send_error c f.meta.id method_not_found (not_found_message f.meta.method) sv)
        (send_error_sends f.meta.id method_not_found (not_found_message f.meta.method) sv w k),
  )

  -- Whatever its method and whatever its handler does, a frame that is no notification is answered
  -- with one response, which has its id, if the writer reports no error and the metadata of the
  -- response encodes; where it does not, nothing is sent.
  pub handle_request_responds :
      (f : Frame (Meta Value)) (sv : Server Value S) (w : Bytes)
      → (f.meta.type == type_notification) ≡ false
      → IsHealthy w sv
      → Responded f.meta.id w (handle_request c f sv)
  unfolding handle_request
  handle_request_responds f sv w t h =
      dispatch_responds (lookup f.meta.method sv.handlers) sv.request_handler f sv w t h

  -- A notification whose handler returns no error is not answered: only the application's state
  -- may change.
  pub notification_silent :
      (f : Frame (Meta Value)) (h : Handler Value S) (sv : Server Value S) (v : Value) (p : Bytes)
      (app : S)
      → f.meta.type ≡ type_notification
      → lookup f.meta.method sv.handlers ≡ some h
      → h f.meta.params f.payload sv.app ≡ (ok (v, p), app)
      → handle_request c f sv ≡ record sv { app = app }
  unfolding handle_request after_handler
  notification_silent f h sv v p app t e r = rw (e, dispatch, r, t)

  -- A notification whose handler returns an error is answered with an error response.
  pub notification_error_answered :
      (f : Frame (Meta Value)) (h : Handler Value S) (sv : Server Value S) (text : Text) (app : S)
      (w : Bytes)
      → IsHealthy w sv
      → f.meta.type ≡ type_notification
      → lookup f.meta.method sv.handlers ≡ some h
      → h f.meta.params f.payload sv.app ≡ (err text, app)
      → (handle_request c f sv).sink ≡ record {
        written = w ++ message c (error_response f.meta.id internal_error text) [];
        outcomes = [];
      }
  unfolding handle_request after_handler
  notification_error_answered f h sv text app w k t e r =
      rw (e, dispatch, r)
        (send_error_sends f.meta.id internal_error text (record sv { app = app }) w k)

  -- A notification goes out as one message with a fresh negative id, while the counter has not
  -- reached the largest int64; the flag `chunked` says whether it is sent as a chunked message.
  pub notify_with_payload_sends :
      (method : Text) (params : Value) (p b w : Bytes) (n : ℕ) (sv : Server Value S)
      → IsHealthy w sv
      → sv.next_id ≡ pos n
      → n < max_int64
      → c.encode (notification (negsuc n) method params (ltb chunk_size (length p))) ≡ some b
      → notify_with_payload c method params p sv ≡ (
        done,
        record sv {
          next_id = pos (n + 1);
          sink = record { written = w ++ message_bytes c (negsuc n) p b; outcomes = [] };
        },
      )
  unfolding notify_with_payload
  notify_with_payload_sends method params p b w n sv h i l e =
      let fresh = ap (λ (x : ℤ). neg_int64 (add_one_int64 x)) i ∙ neg-add_one n l in
      let next = ap add_one_int64 i ∙ add_one_int64_pos n l in
      rw
        (fresh, e, finish_notify, fresh, h, (write_message-Emits c (negsuc n) p b).complete w, next)
