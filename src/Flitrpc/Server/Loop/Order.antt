-- ===== src/Flitrpc/Server/Loop/Order.antt =====
-- The order in which Serve handles frames, and its end: server/flitrpc/flitrpc.go.
use flit_el.Prelude.{
  ℕ, zero, suc, ◌<◌, ◌≡◌, refl, sym, ap, ◌∙◌, ◌⊎◌, inl, inr, true, false, Option, none, some, List,
  [], ◌∷◌, ◌++◌, arith, All, Bytes, length, if◌then◌else◌, ◌==◌,
}
use mathlib.Core.List.{append-nil, append_assoc}
use flit_el.Prelude.Int64.{ℤ, pos, negsuc, int_eq}
use flit_el.Prelude.Results.{Result, ok, err}
use flit_el.Flitrpc.Frame.{Frame, Meta, FrameError, read_frame}
use flit_el.Flitrpc.Frame.Shrinks.{length-read_frame}
use flit_el.Flitrpc.Chunk.RoundTrip.{Reads, stop, read}
use flit_el.Flitrpc.Codec.{Codec, type_request, type_response, type_notification}
use flit_el.Flitrpc.Server.{Server, handle_request}
use flit_el.Flitrpc.Server.Loop.{
  after_callback, Conn, Outcome, returned, blocked, out_of_fuel, receive, go_on, round, serve,
}

-- A frame's type is that of a request, or of a notification, or neither.
type_cases :
    (t : ℤ)
    → (((t == type_request) ≡ true) × ((t == type_notification) ≡ false))
      ⊎ (((t == type_request) ≡ false) × ((t == type_notification) ≡ true))
      ⊎ (((t == type_request) ≡ false) × ((t == type_notification) ≡ false))
type_cases (pos n) = ground arith
type_cases (negsuc n) = ground arith

module _ {Value : Type 0} where
  -- The frames among `fs` that Serve handles itself, and those for which it starts a goroutine.
  abbrev pub notifications : List (Frame (Meta Value)) → List (Frame (Meta Value))
  notifications [] = []
  notifications (f ∷ fs) =
      if f.meta.type == type_notification then f ∷ notifications fs else notifications fs

  abbrev pub requests : List (Frame (Meta Value)) → List (Frame (Meta Value))
  requests [] = []
  requests (f ∷ fs) = if f.meta.type == type_request then f ∷ requests fs else requests fs

  abbrev pub IsNoResponse : Frame (Meta Value) → Type 0
  IsNoResponse f = (f.meta.type == type_response) ≡ false

module _ {Value S : Type 0} (c : Codec Value) where
  abbrev pub handle_all : List (Frame (Meta Value)) → Server Value S → Server Value S
  handle_all [] sv = sv
  handle_all (f ∷ fs) sv = handle_all fs (handle_request c f sv)

  receive_no_response :
      (f : Frame (Meta Value)) (fs : List (Frame (Meta Value))) (conn : Conn Value S)
      → IsNoResponse f
      → (conn' : Conn Value S) × (receive c f conn ≡ some conn')
        × (conn'.input ≡ conn.input)
        × (handle_all (notifications fs) conn'.server
            ≡ handle_all (notifications (f ∷ fs)) conn.server)
        × (conn'.spawned ++ requests fs ≡ conn.spawned ++ requests (f ∷ fs))
  unfolding receive
  receive_no_response f fs conn h = elim (type_cases f.meta.type) [
    | inl (q, n) ↦ (
      record conn { spawned = conn.spawned ++ f ∷ [] },
      rw q,
      refl,
      rw n,
      rw q (append_assoc conn.spawned (f ∷ []) (requests fs)),
    )
    | inr (inl (q, n)) ↦
        (record conn { server = handle_request c f conn.server }, rw (q, h, n), refl, rw n, rw q)
    | inr (inr (q, n)) ↦ (conn, rw (q, h, n), refl, rw n, rw q)
  ]

  -- While the peer sends no responses, Serve handles the notifications in the order in which they
  -- were sent, starts a goroutine for each request in that order, ignores all else, and returns the
  -- error that ReadFrame then has; one more round than frames is enough fuel.
  pub serve_order :
      (fuel : ℕ) (fs : List (Frame (Meta Value))) (r rest : Bytes) (e : FrameError)
      (conn : Conn Value S)
      → Reads c.decode r fs rest
      → All IsNoResponse fs
      → read_frame c.decode rest ≡ err e
      → length fs < fuel
      → conn.input ≡ r
      → serve c fuel conn ≡ (
        returned e,
        record conn {
          input = rest;
          server = handle_all (notifications fs) conn.server;
          spawned = conn.spawned ++ requests fs;
        },
      )
  unfolding serve
  serve_order zero fs r rest e conn rd h er l i = elim l [ ]
  serve_order (suc fuel) fs r rest e conn stop h er l i =
      rw (i, er, round)
        (λ k. (returned e, record conn { input = i k; spawned = sym (append-nil conn.spawned) k }))
  serve_order (suc fuel) fs r rest e conn (read {s = s} {f = f} {fs = gs} rf rd) h er l i =
      let (next, eq, ei, es, ep) = receive_no_response f gs (record conn { input = s }) h.0 in
      rw (i, rf, round, eq, go_on)
        (serve_order fuel gs s rest e next rd h.1 er (omega arith) ei
          ∙ (λ k. (returned e, record { input = rest; server = es k; spawned = ep k })))

-- The result of a `serve` is an error of the reader, or a wait to hand over a response.
abbrev pub Ends : Outcome → Type 0
Ends (returned e) = Unit
Ends blocked = Unit
Ends out_of_fuel = ⊥

module _ {Value S : Type 0} (c : Codec Value) where
  go_on-Ends :
      (next : Conn Value S → Outcome × Conn Value S) (conn : Conn Value S)
      (o : Option (Conn Value S))
      → ((conn' : Conn Value S) → o ≡ some conn' → Ends (next conn').0)
      → Ends (go_on c next conn o).0
  unfolding go_on
  go_on-Ends next conn none h = tt
  go_on-Ends next conn (some conn') h = h conn' refl

  pub input-receive :
      (f : Frame (Meta Value)) (conn conn' : Conn Value S)
      → receive c f conn ≡ some conn'
      → conn'.input ≡ conn.input
  unfolding receive after_callback
  input-receive f conn conn' e = ground (arith)

  round-Ends :
      (fuel : ℕ) (conn : Conn Value S) (r : Result FrameError (Frame (Meta Value) × Bytes))
      → read_frame c.decode conn.input ≡ r
      → length conn.input < suc fuel
      → ((conn' : Conn Value S) → length conn'.input < fuel → Ends (serve c fuel conn').0)
      → Ends (round c (serve c fuel) conn r).0
  unfolding round
  round-Ends fuel conn (err e) q l ih = tt
  round-Ends fuel conn (ok (f, rest)) q l ih =
      go_on-Ends (serve c fuel) _ (receive c f (record conn { input = rest })) λ conn' e. ih conn' (
        omega (
          arith,
          length-read_frame c.decode conn.input rest f q,
          ap (λ (x : Bytes). length x) (input-receive f (record conn { input = rest }) conn' e),
        ))

  -- With more fuel than the reader has bytes, Serve ends by itself on any input: ReadFrame returns
  -- an error, or a response blocks the loop.
  pub serve-Ends :
      (fuel : ℕ) (conn : Conn Value S) → length conn.input < fuel → Ends (serve c fuel conn).0
  unfolding serve
  serve-Ends zero conn h = elim h [ ]
  serve-Ends (suc fuel) conn h =
      round-Ends fuel conn (read_frame c.decode conn.input) refl h (serve-Ends fuel)
