-- ===== src/Flitrpc/Server/Loop.antt =====
-- server/flitrpc/flitrpc.go: Serve, the loop that reads and dispatches frames.
-- `go s.handleRequest(frame)` puts the frame on a list; `run_spawned` is such a goroutine's run, at
-- any later time.
pub mod Order
pub mod Unblocked
use flit_el.Prelude.{
  ℕ, zero, suc, ◌≡◌, Option, none, some, List, [], ◌∷◌, ◌++◌, Bytes, ◌==◌, if◌then◌else◌,
}
use flit_el.Prelude.Int64.{int_eq}
use flit_el.Prelude.Results.{Result, ok, err}
use flit_el.Flitrpc.Frame.{Frame, Meta, FrameError, read_frame}
use flit_el.Flitrpc.Codec.{Codec, type_request, type_response, type_notification}
use flit_el.Flitrpc.Server.{Server, handle_request, handle_callback_response}

-- A connection: the bytes left in the reader, the server, and the requests whose goroutines have
-- not run yet.
pub record Conn (Value S : Type 0) : Type 0 where
  pub input : Bytes
  pub server : Server Value S
  pub spawned : List (Frame (Meta Value))

-- How Serve ends: it returns an error of ReadFrame, or it waits
-- to hand over a response to a requester whose channel already holds one.
pub data Outcome : Type 0 where
  returned : FrameError → Outcome
  blocked out_of_fuel : Outcome

module _ {Value S : Type 0} (c : Codec Value) where
  after_callback : Conn Value S → Option (Server Value S) → Option (Conn Value S)
  after_callback conn none = none
  after_callback conn (some sv) = some (record conn { server = sv })

  -- The switch on the frame's type; `none` where the loop blocks.
  unfoldable pub receive : Frame (Meta Value) → Conn Value S → Option (Conn Value S)
  unfolding after_callback
  receive f conn =
      if f.meta.type == type_request
      then some (record conn { spawned = conn.spawned ++ f ∷ [] })
      else if f.meta.type == type_response
      then after_callback conn (handle_callback_response c f conn.server)
      else if f.meta.type == type_notification
      then some (record conn { server = handle_request c f conn.server })
      else some conn

  -- One of the goroutines that wait runs to its end.
  unfoldable pub run_spawned :
      List (Frame (Meta Value))
      → Frame (Meta Value)
      → List (Frame (Meta Value))
      → Conn Value S
      → Conn Value S
  run_spawned before f after conn = record conn {
    spawned = before ++ after;
    server = handle_request c f conn.server;
  }

  go_on :
      (Conn Value S → Outcome × Conn Value S)
      → Conn Value S
      → Option (Conn Value S)
      → Outcome × Conn Value S
  go_on next conn none = (blocked, conn)
  go_on next conn (some conn') = next conn'

  round :
      (Conn Value S → Outcome × Conn Value S)
      → Conn Value S
      → Result FrameError (Frame (Meta Value) × Bytes)
      → Outcome × Conn Value S
  unfolding go_on receive
  round next conn (err e) = (returned e, conn)
  round next conn (ok (f, rest)) =
      go_on next (record conn { input = rest }) (receive f (record conn { input = rest }))

  -- Serve. Each round reads eight bytes at least, so the input's length is enough fuel.
  unfoldable pub serve : ℕ → Conn Value S → Outcome × Conn Value S
  unfolding round
  serve zero conn = (out_of_fuel, conn)
  serve (suc fuel) conn = round (serve fuel) conn (read_frame c.decode conn.input)
