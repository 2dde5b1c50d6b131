-- ===== src/Command/Accept.antt =====
-- The loop that accepts connections: server/cmd_server.go. A connection is named by a number.
use flit_el.Prelude.{
  ℕ, ◌≡◌, refl, ap, ◌∙◌, sym, Bool, true, false, Option, none, some, List, [], ◌∷◌, ◌++◌,
  if◌then◌else◌, arith, map,
}
use mathlib.Core.List.{append-nil, append_assoc}
use flit_el.Handlers.Lifetime.{Server, idle_tick, shutdown, connection_opened, connection_closed}

-- What happens while the loop runs: Accept returns a connection or an error, HandleConnection begins or
-- ends for a connection, a round of idleChecker, and the call of Shutdown that a shutdown request makes.
pub data Event : Type 0 where
  accepted : ℕ → Event
  failed : Event
  opens closes : ℕ → Event
  ticks : ℕ → Event
  shuts : Event

-- The loop has returned, waits in Accept, or the program has panicked.
pub data LoopState : Type 0 where
  returned waiting panicked : LoopState

go_on :
    (Server → LoopState × Server × List ℕ)
    → Server
    → List ℕ
    → Option Server
    → LoopState × Server × List ℕ
go_on next s handled none = (panicked, s, handled)
go_on next s handled (some s') = next s'

server_of : Option (Bool × Server) → Option Server
server_of none = none
server_of (some (goes_on, s)) = some s

-- The loop of runServer, with the connections that it has handed to HandleConnection
unfoldable pub accept_loop : List Event → Server → List ℕ → LoopState × Server × List ℕ
unfolding go_on server_of
accept_loop [] s handled = (waiting, s, handled)
accept_loop (accepted k ∷ es) s handled = accept_loop es s (handled ++ k ∷ [])
accept_loop (failed ∷ es) s handled =
    let rest = accept_loop es s handled in if s.done then (returned, s, handled) else rest
accept_loop (opens k ∷ es) s handled = accept_loop es (connection_opened k s) handled
accept_loop (closes k ∷ es) s handled = accept_loop es (connection_closed k s) handled
accept_loop (ticks now ∷ es) s handled =
    go_on (λ s'. accept_loop es s' handled) s handled (server_of (idle_tick now s))
accept_loop (shuts ∷ es) s handled = go_on (λ s'. accept_loop es s' handled) s handled (shutdown s)

abbrev pub accepts : List ℕ → List Event
accepts ks = map accepted ks

accept_each :
    (ks handled : List ℕ) (s : Server) (es : List Event)
    → accept_loop (accepts ks ++ es) s handled ≡ accept_loop es s (handled ++ ks)
unfolding accept_loop
accept_each [] handled s es = ap (accept_loop es s) (sym (append-nil handled))
accept_each (k ∷ ks) handled s es =
    accept_each ks (handled ++ k ∷ []) s es
    ∙ ap (accept_loop es s) (append_assoc handled (k ∷ []) ks)

-- A round of idleChecker that ends the checker leaves the server shut down.
idle_tick-done : (now : ℕ) (s s' : Server) → idle_tick now s ≡ some (false, s') → s'.done ≡ true
unfolding idle_tick shutdown
idle_tick-done now s s' e = ground (arith)

-- After a round of idleChecker that ends the checker, the server is shut down, but each connection that
-- Accept then returns is still handed to HandleConnection, and the loop waits for another: it returns
-- only when Accept returns an error.
pub idle_shutdown_keeps_accepting :
    (now : ℕ) (s s' : Server) (ks handled : List ℕ) (later : List Event)
    → idle_tick now s ≡ some (false, s')
    → (s'.done ≡ true)
      × (accept_loop (ticks now ∷ accepts ks) s handled ≡ (waiting, s', handled ++ ks))
      × (accept_loop (ticks now ∷ (accepts ks ++ failed ∷ later)) s handled
          ≡ (returned, s', handled ++ ks))
unfolding accept_loop
idle_shutdown_keeps_accepting now s s' ks handled later e =
    let ticked = λ (es : List Event).
      ap (λ o. go_on (λ t. accept_loop es t handled) s handled (server_of o)) e in
    (
      idle_tick-done now s s' e,
      ticked (accepts ks)
          ∙ ap (λ es. accept_loop es s' handled) (sym (append-nil (accepts ks)))
          ∙ accept_each ks handled s' [],
      ticked (accepts ks ++ failed ∷ later)
          ∙ accept_each ks handled s' (failed ∷ later)
          ∙ rw (idle_tick-done now s s' e) refl,
    )
