-- ===== src/Flitrpc/Server/Requests.antt =====
-- server/flitrpc/flitrpc.go: SendRequest, in its two halves: the part up to the `select`, and what
-- follows once a response has come or the connection has closed.
use flit_el.Prelude.{
  ◌≡◌, ◌∙◌, Bool, true, false, Option, none, some, List, [], ◌∷◌, All, arith, Bytes, Text, codes,
  ◌==◌, ==_self, Option-cases, inl, inr, ◌⊎◌, refl, ap,
}
use flit_el.Prelude.GoMap.{lookup, insert, erase, lookup-insert, lookup-erase}
use flit_el.Prelude.Int64.{ℤ, int_eq, add_one_int64}
use flit_el.Prelude.Results.{Result, ok, err}
use flit_el.Flitrpc.Sink.{Sink, IoResult, done, failed}
use flit_el.Flitrpc.Frame.{Frame, Meta, write_raw}
use flit_el.Flitrpc.Chunk.{request}
use flit_el.Flitrpc.Codec.{Codec}
use flit_el.Flitrpc.Server.{Server, deliver, handle_callback_response}

-- What SendRequest makes of a response: the text of its error, or its result.
unfoldable pub response_result : {Value : Type 0} → Frame (Meta Value) → Result Text (Option Value)
response_result f = elim f.meta.error [ some e ↦ err e.message | none ↦ ok f.meta.result ]

module _ {Value S : Type 0} (c : Codec Value) where
  -- The deferred `delete(s.callbackWaiters, id)`.
  unfoldable pub forget : ℤ → Server Value S → Server Value S
  forget id sv = record sv { waiters = erase id sv.waiters }

  after_request_write : ℤ → IoResult × Sink → Server Value S → Option ℤ × Server Value S
  unfolding forget
  after_request_write id (done, sink) sv = (some id, record sv { sink = sink })
  after_request_write id (failed, sink) sv = (none, forget id (record sv { sink = sink }))

  write_request : ℤ → Option Bytes → Server Value S → Option ℤ × Server Value S
  unfolding after_request_write
  write_request id none sv = (none, forget id sv)
  write_request id (some meta_buf) sv = after_request_write id (write_raw meta_buf [] sv.sink) sv

  -- SendRequest up to the `select`: the id that it waits for, or none after an error.
  unfoldable pub start_request : Text → Value → Server Value S → Option ℤ × Server Value S
  unfolding write_request
  start_request method params sv =
      let id = add_one_int64 sv.next_id in
      write_request id (c.encode (request id method params))
        (record sv { next_id = id; waiters = insert id none sv.waiters })

  select_response :
      ℤ
      → Bool
      → Bool
      → Option (Option (Frame (Meta Value)))
      → Server Value S
      → Option (Result Text (Option Value)) × Server Value S
  unfolding forget response_result
  select_response id true true w sv = (some (err (codes "connection closed")), forget id sv)
  select_response id closed first (some (some f)) sv = (some (response_result f), forget id sv)
  select_response id true first w sv = (some (err (codes "connection closed")), forget id sv)
  select_response id false first w sv = (none, sv)

  -- The `select`: none while there is neither a response nor the end of the connection. Where there
  -- are both, Go takes either: `first` says whether it takes the end of the connection.
  unfoldable pub finish_request :
      ℤ → Bool → Bool → Server Value S → Option (Result Text (Option Value)) × Server Value S
  unfolding select_response
  finish_request id closed first sv = select_response id closed first (lookup id sv.waiters) sv

  after_request_write-waits :
      (id i : ℤ) (r : IoResult × Sink) (sv sv' : Server Value S)
      → after_request_write id r sv ≡ (some i, sv')
      → (i ≡ id) × (sv'.waiters ≡ sv.waiters) × (sv'.next_id ≡ sv.next_id)
  unfolding after_request_write
  after_request_write-waits id i (done, sink) sv sv' e = ground arith
  after_request_write-waits id i (failed, sink) sv sv' e = ground arith

  write_request-waits :
      (id i : ℤ) (b : Option Bytes) (sv sv' : Server Value S)
      → write_request id b sv ≡ (some i, sv')
      → (i ≡ id) × (sv'.waiters ≡ sv.waiters) × (sv'.next_id ≡ sv.next_id)
  unfolding write_request
  write_request-waits id i none sv sv' e = ground arith
  write_request-waits id i (some b) sv sv' e = after_request_write-waits id i _ sv sv' e

  -- A request that has been sent waits under its own id.
  start_request-waits :
      (method : Text) (params : Value) (id : ℤ) (sv sv' : Server Value S)
      → start_request method params sv ≡ (some id, sv')
      → lookup id sv'.waiters ≡ some none
  unfolding start_request
  start_request-waits method params id sv sv' e =
      let own = add_one_int64 sv.next_id in
      let (i, w, n) = write_request-waits own id (c.encode (request own method params)) _ sv' e in
      rw (w, i, lookup-insert own own none sv.waiters, ==_self own)

  deliver_other :
      (id : ℤ) (o : Option (Option (Frame (Meta Value)))) (g : Frame (Meta Value))
      (sv sv' : Server Value S)
      → (g.meta.id == id) ≡ false
      → deliver c o g sv ≡ some sv'
      → lookup id sv'.waiters ≡ lookup id sv.waiters
  unfolding deliver
  deliver_other id none g sv sv' n e = ground arith
  deliver_other id (some none) g sv sv' n e =
      ground (arith, lookup-insert g.meta.id id (some g) sv.waiters)
  deliver_other id (some (some x)) g sv sv' n e = cc

  deliver_own :
      (f : Frame (Meta Value)) (sv sv' : Server Value S)
      → lookup f.meta.id sv.waiters ≡ some none
      → handle_callback_response c f sv ≡ some sv'
      → lookup f.meta.id sv'.waiters ≡ some (some f)
  unfolding handle_callback_response deliver
  deliver_own f sv sv' w e =
      ground (arith, lookup-insert f.meta.id f.meta.id (some f) sv.waiters, ==_self f.meta.id)

  -- The responses of a list arrive; `none` where one blocks the loop.
  abbrev pub deliver_all : List (Frame (Meta Value)) → Server Value S → Option (Server Value S)
  deliver_all [] sv = some sv
  deliver_all (g ∷ gs) sv = elim (handle_callback_response c g sv) [
    | none ↦ none
    | some sv' ↦ deliver_all gs sv'
  ]

  lookup-deliver_all :
      (id : ℤ) (gs : List (Frame (Meta Value))) (sv sv' : Server Value S)
      → All (λ g. (g.meta.id == id) ≡ false) gs
      → deliver_all gs sv ≡ some sv'
      → lookup id sv'.waiters ≡ lookup id sv.waiters
  unfolding handle_callback_response
  lookup-deliver_all id [] sv sv' h e = ground arith
  lookup-deliver_all id (g ∷ gs) sv sv' h e =
      elim (Option-cases (handle_callback_response c g sv)) [
        | inl n ↦ cc n
        | inr (next, q) ↦
            lookup-deliver_all id gs next sv' h.1 (rw (q, deliver_all) at e)
            ∙ deliver_other id (lookup g.meta.id sv.waiters) g sv next h.0 q
      ]

  select_own :
      (id : ℤ) (closed first : Bool) (f : Frame (Meta Value))
      (o : Option (Option (Frame (Meta Value)))) (sv : Server Value S)
      → o ≡ some (some f)
      → (((select_response id closed first o sv).0 ≡ some (response_result f))
          ⊎ ((closed ≡ true)
              × (first ≡ true)
              × ((select_response id closed first o sv).0
                  ≡ some (err (codes "connection closed")))))
        × ((select_response id closed first o sv).1 ≡ forget id sv)
  unfolding select_response
  select_own id true true f o sv e = (inr (refl, refl, refl), refl)
  select_own id true false f o sv e = rw e (inl refl, refl)
  select_own id false first f o sv e = rw e (inl refl, refl)

  -- A request that has been sent returns what the response with its id says, whatever responses to
  -- other ids arrive before it, or that the connection is closed, which it returns only where the
  -- connection has closed as well; either way it then waits no more.
  pub request_answered :
      (method : Text) (params : Value) (closed first : Bool) (gs : List (Frame (Meta Value)))
      (f : Frame (Meta Value)) (sv sv1 sv2 sv3 : Server Value S)
      → start_request method params sv ≡ (some f.meta.id, sv1)
      → All (λ g. (g.meta.id == f.meta.id) ≡ false) gs
      → deliver_all gs sv1 ≡ some sv2
      → handle_callback_response c f sv2 ≡ some sv3
      → (((finish_request f.meta.id closed first sv3).0 ≡ some (response_result f))
          ⊎ ((closed ≡ true)
              × (first ≡ true)
              × ((finish_request f.meta.id closed first sv3).0
                  ≡ some (err (codes "connection closed")))))
        × (lookup f.meta.id (finish_request f.meta.id closed first sv3).1.waiters ≡ none)
  unfolding finish_request forget
  request_answered method params closed first gs f sv sv1 sv2 sv3 e1 ng e2 e3 =
      let waits =
        lookup-deliver_all f.meta.id gs sv1 sv2 ng e2
        ∙ start_request-waits method params f.meta.id sv sv1 e1 in
      let own = deliver_own f sv2 sv3 waits e3 in
      let (answer, left) =
        select_own f.meta.id closed first f (lookup f.meta.id sv3.waiters) sv3 own in
      (
        answer,
        ap (λ (s : Server Value S). lookup f.meta.id s.waiters) left
            ∙ lookup-erase f.meta.id f.meta.id sv3.waiters
            ∙ rw (==_self f.meta.id) refl,
      )

  -- A second response with the same id, before the waiting request has taken the first, blocks the
  -- loop that reads the connection.
  pub second_response_blocks :
      (method : Text) (params : Value) (f g : Frame (Meta Value)) (sv sv1 sv2 : Server Value S)
      → start_request method params sv ≡ (some f.meta.id, sv1)
      → handle_callback_response c f sv1 ≡ some sv2
      → g.meta.id ≡ f.meta.id
      → handle_callback_response c g sv2 ≡ none
  unfolding handle_callback_response deliver
  second_response_blocks method params f g sv sv1 sv2 e1 e2 eg = rw (
    eg,
    deliver_own f sv1 sv2 (start_request-waits method params f.meta.id sv sv1 e1) e2,
    deliver,
  )
