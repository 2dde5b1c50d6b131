-- ===== src/Command/Listens.antt =====
-- On which addresses runServer listens: server/cmd_server.go.
use flit_el.Prelude.{
  ℕ, suc, ◌<◌, ◌≡◌, refl, arith, Bool, true, false, Option, none, some, [], ◌∷◌, ◌++◌, Text,
  if◌then◌else◌, ◌==◌, nat_eq, sym, ◌∙◌, Bool-cases, Option-cases, inl, inr,
}
use flit_el.FsHandler.Stat.{int_text}
use flit_el.Handlers.Lifetime as lifetime
use flit_el.Command.{
  Flags, Net, Logs, on_tcp, address_of, is_true, listen_tcp, log_setup, after_logs, run_server,
  timeout_of,
}

abbrev pub colons : Text → ℕ
colons [] = 0
colons (c ∷ t) = let rest = colons t in if c == 58 then suc rest else rest

abbrev pub begins_bracket : Text → Bool
begins_bracket [] = false
begins_bracket (c ∷ t) = c == 91

-- What package net documents of addresses: a host that holds a colon stands in brackets.
abbrev pub NeedsBrackets : Net → Type 0
NeedsBrackets net =
    (address : Text)
    → begins_bracket address ≡ false
    → 1 < colons address
    → net.listens address ≡ false

-- No loopback address as net.ParseIP reads it begins with a bracket.
abbrev pub ParsesBare : Net → Type 0
ParsesBare net = (host : Text) → begins_bracket host ≡ true → net.loopback host ≡ none

colons-append_port : (host port : Text) → colons host < colons (host ++ 58 ∷ port)
colons-append_port [] port = omega arith
colons-append_port (c ∷ host) port = ground (arith, colons-append_port host port)

begins_bracket-append_port :
    (host port : Text) → begins_bracket (host ++ 58 ∷ port) ≡ begins_bracket host
begins_bracket-append_port [] port = refl
begins_bracket-append_port (c ∷ host) port = refl

listen_tcp-on_tcp :
    (net : Net) (srv srv' : lifetime.Server) (logs logs' : Logs) (f : Flags) (address : Text)
    → listen_tcp net srv logs f ≡ on_tcp address srv' logs'
    → (net.loopback f.host ≡ some true)
      × (address ≡ address_of f)
      × (net.listens (address_of f) ≡ true)
      × (srv' ≡ srv)
unfolding listen_tcp is_true
listen_tcp-on_tcp net srv srv' logs logs' f address e = elim (Option-cases (net.loopback f.host)) [
  | inl h ↦ ground (arith, h, e)
  | inr (b, h) ↦ ground (arith, h, e)
]

after_logs-tcp :
    (net : Net) (now : ℕ) (f : Flags) (l : Logs)
    → f.stdio ≡ false
    → after_logs net now f (some l) ≡ listen_tcp net (lifetime.new f.idle_timeout now) l f
unfolding after_logs timeout_of
after_logs-tcp net now f l b = rw (b, timeout_of) refl

after_logs-on_tcp :
    (net : Net) (now : ℕ) (f : Flags) (o : Option Logs) (srv : lifetime.Server) (logs : Logs)
    (address : Text)
    → after_logs net now f o ≡ on_tcp address srv logs
    → (f.stdio ≡ false)
      × ((logs' : Logs) × (listen_tcp net (lifetime.new f.idle_timeout now) logs' f
            ≡ on_tcp address srv logs))
unfolding after_logs timeout_of
after_logs-on_tcp net now f none srv logs address e = cc
after_logs-on_tcp net now f (some l) srv logs address e = elim (Bool-cases f.stdio) [
  | inl b ↦ ground (arith, b, e)
  | inr b ↦ (b, (l, sym (after_logs-tcp net now f l b) ∙ e))
]

no_colon :
    (net : Net) (f : Flags)
    → NeedsBrackets net
    → ParsesBare net
    → net.loopback f.host ≡ some true
    → net.listens (address_of f) ≡ true
    → colons f.host ≡ 0
unfolding address_of
no_colon net f brackets bare l ls =
    let bare_host =
      elim (Bool-cases (begins_bracket f.host)) as (λ x. begins_bracket f.host ≡ false) [
        | inl b ↦ ground (arith, bare f.host b, l)
        | inr b ↦ b
      ] in
    ground (
      arith,
      colons-append_port f.host (int_text f.port),
      brackets (address_of f) (begins_bracket-append_port f.host (int_text f.port) ∙ bare_host),
      ls,
    )

-- Where runServer comes to accept connections, it is not in the mode of standard input and output, the
-- host is a loopback address, the address is the host and the port, and the server has the idle timeout
-- of the flags; and as net.Listen needs brackets around a host with a colon, the host has no colon: no
-- address of IPv6 is listened on.
pub listens_on_loopback :
    (net : Net) (created : Bool) (now : ℕ) (f : Flags) (address : Text) (srv : lifetime.Server)
    (logs : Logs)
    → NeedsBrackets net
    → ParsesBare net
    → run_server net created now f ≡ on_tcp address srv logs
    → (f.stdio ≡ false)
      × (net.loopback f.host ≡ some true)
      × (address ≡ address_of f)
      × (srv ≡ lifetime.new f.idle_timeout now)
      × (colons f.host ≡ 0)
unfolding run_server
listens_on_loopback net created now f address srv logs brackets bare e =
    let (tcp, (logs', listening)) =
      after_logs-on_tcp net now f (log_setup created f) srv logs address e in
    let (loop, at, ls, same) =
      listen_tcp-on_tcp net (lifetime.new f.idle_timeout now) srv logs' logs f address listening in
    (tcp, loop, at, same, no_colon net f brackets bare loop ls)
