-- ===== src/Flitrpc/Server/Loop/Unblocked.antt =====
-- Serve of a server that waits for no response: server/flitrpc/flitrpc.go.
use flit_el.Prelude.{
  ℕ, zero, suc, ◌≡◌, refl, sym, ap, ◌∙◌, inl, inr, true, false, Option, none, some, [], ◌∷◌, Bytes,
  Text, text_eq, if◌then◌else◌, ◌==◌, arith, ◌<◌, ◌++◌, length, Bool-cases,
}
use mathlib.Core.Path.{subst}
use flit_el.Flitrpc.Frame.Shrinks.{length-read_frame}
use flit_el.Flitrpc.Server.Loop.Order.{input-receive}
use flit_el.Prelude.GoMap.{GoMap, lookup}
use flit_el.Prelude.Int64.{ℤ, int_eq}
use flit_el.Prelude.Results.{Result, ok, err}
use flit_el.Flitrpc.Sink.{Action}
use flit_el.Flitrpc.Frame.{Frame, Meta, FrameError, read_frame, write_raw}
use flit_el.Flitrpc.Codec.{Codec, type_request, type_response, type_notification}
use flit_el.Flitrpc.Server.{
  Server, Handler, write_message, handle_request, do_write, write_encoded, send_result, send_error,
  after_handler, run_handler, handle_with_fallback, dispatch, deliver, handle_callback_response,
}
use flit_el.Flitrpc.Server.Loop.{
  after_callback, Conn, Outcome, returned, receive, go_on, round, serve,
}

module _ {Value S : Type 0} (c : Codec Value) where
  -- Nothing waits for a response.
  abbrev pub IsUnawaited : Server Value S → Type 0
  IsUnawaited sv = sv.waiters ≡ []

  write_encoded-waiters :
      (m : Bytes → Action) (o : Option Bytes) (sv : Server Value S)
      → (write_encoded c m o sv).waiters ≡ sv.waiters
  unfolding write_encoded do_write
  write_encoded-waiters m none sv = refl
  write_encoded-waiters m (some b) sv = refl

  after_handler-waiters :
      (f : Frame (Meta Value)) (r : Result Text (Value × Bytes) × S) (sv : Server Value S)
      → (after_handler c f r sv).waiters ≡ sv.waiters
  unfolding after_handler send_error send_result
  after_handler-waiters f (err t, app) sv =
      write_encoded-waiters (λ meta_buf. write_raw meta_buf []) _ (record sv { app = app })
  after_handler-waiters f (ok x, app) sv =
      elim (f.meta.type == type_notification)
        as (λ b.
          (if b
            then record sv { app = app }
            else send_result c f.meta.id x.0 x.1 (record sv { app = app })).waiters
          ≡ sv.waiters) [
            | true ↦ refl
            | false ↦
                write_encoded-waiters (write_message c f.meta.id x.1) _ (record sv { app = app })
          ]

  dispatch-waiters :
      (o : Option (Handler Value S)) (q : Option (Text → Handler Value S)) (f : Frame (Meta Value))
      (sv : Server Value S)
      → (dispatch c o q f sv).waiters ≡ sv.waiters
  unfolding dispatch run_handler handle_with_fallback send_error
  dispatch-waiters (some h) q f sv = after_handler-waiters f _ sv
  dispatch-waiters none (some h) f sv = after_handler-waiters f _ sv
  dispatch-waiters none none f sv = write_encoded-waiters (λ meta_buf. write_raw meta_buf []) _ sv

  -- A request does not change who waits for a response.
  pub handle_request-waiters :
      (f : Frame (Meta Value)) (sv : Server Value S) → (handle_request c f sv).waiters ≡ sv.waiters
  unfolding handle_request
  handle_request-waiters f sv =
      dispatch-waiters (lookup f.meta.method sv.handlers) sv.request_handler f sv

  callback_ignored :
      (f : Frame (Meta Value)) (ws : GoMap ℤ (Option (Frame (Meta Value)))) (sv : Server Value S)
      → ws ≡ []
      → deliver c (lookup f.meta.id ws) f sv ≡ some sv
  unfolding lookup deliver
  callback_ignored f ws sv e = rw e refl

  -- Each frame is received, and still nothing waits.
  receive-IsUnawaited :
      (f : Frame (Meta Value)) (conn : Conn Value S)
      → IsUnawaited conn.server
      → (conn' : Conn Value S) × (receive c f conn ≡ some conn') × IsUnawaited conn'.server
  unfolding receive after_callback handle_callback_response
  receive-IsUnawaited f conn h = elim (Bool-cases (f.meta.type == type_request)) [
    | inl q ↦ (record conn { spawned = conn.spawned ++ f ∷ [] }, rw q refl, h)
    | inr q ↦ elim (Bool-cases (f.meta.type == type_response)) [
      | inl r ↦ (
        record conn { server = conn.server },
        rw (q, r, callback_ignored f conn.server.waiters conn.server h) refl,
        h,
      )
      | inr r ↦ elim (Bool-cases (f.meta.type == type_notification)) [
        | inl n ↦ (
          record conn { server = handle_request c f conn.server },
          rw (q, r, n) refl,
          handle_request-waiters f conn.server ∙ h,
        )
        | inr n ↦ (conn, rw (q, r, n) refl, h)
      ]
    ]
  ]

  -- How Serve ends on an input: an error of the reader, and nothing waits for a response.
  abbrev pub EndsUnawaited : Outcome × Conn Value S → Type 0
  EndsUnawaited (o, conn) = (e : FrameError) × (o ≡ returned e) × IsUnawaited conn.server

  round-EndsUnawaited :
      (fuel : ℕ) (conn : Conn Value S) (r : Result FrameError (Frame (Meta Value) × Bytes))
      → read_frame c.decode conn.input ≡ r
      → length conn.input < suc fuel
      → IsUnawaited conn.server
      → ((conn' : Conn Value S)
          → length conn'.input < fuel
          → IsUnawaited conn'.server
          → EndsUnawaited (serve c fuel conn'))
      → EndsUnawaited (round c (serve c fuel) conn r)
  unfolding round go_on
  round-EndsUnawaited fuel conn (err e) q l h ih = (e, refl, h)
  round-EndsUnawaited fuel conn (ok (f, rest)) q l h ih =
      let (conn', e, h') = receive-IsUnawaited f (record conn { input = rest }) h in
      subst (λ o. EndsUnawaited (go_on c (serve c fuel) (record conn { input = rest }) o)) (sym e)
        (ih conn'
          (omega (
            arith,
            length-read_frame c.decode conn.input rest f q,
            ap (λ (x : Bytes). length x) (input-receive c f (record conn { input = rest }) conn' e),
          ))
          h')

  -- While nothing waits for a response, Serve with more fuel than the reader has bytes returns an error
  -- of the reader.
  pub serve-EndsUnawaited :
      (fuel : ℕ) (conn : Conn Value S)
      → length conn.input < fuel
      → IsUnawaited conn.server
      → EndsUnawaited (serve c fuel conn)
  unfolding serve
  serve-EndsUnawaited zero conn l h = elim l [ ]
  serve-EndsUnawaited (suc fuel) conn l h =
      round-EndsUnawaited fuel conn (read_frame c.decode conn.input) refl l h
        (serve-EndsUnawaited fuel)
