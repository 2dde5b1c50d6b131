-- ===== src/Notices/World.antt =====
-- A session, the system that it runs on, and the notifications that it has sent:
-- server/server/jsonrpc.go.
use flit_el.Prelude.{Bool, Option, List, [], ◌∷◌, ◌++◌, Text, Bytes}
use flit_el.Watcher.{EventType}
use flit_el.Session.{Session}
use flit_el.FsHandler.Types.{CacheEntry}

-- The notifications fs/changed, fs/entryInfo and fs/ancestorInfo, with the content that is sent
-- beside their cache entries.
pub data Notice : Type 0 where
  changed : Text → EventType → List CacheEntry → Option Bytes → Notice
  entry_info : Text → List CacheEntry → Option Bytes → Notice
  ancestor_info : List CacheEntry → Notice

-- `notifying` is false where `notify` is nil: before SetNotifier.
pub record World (F S : Type 0) : Type 0 where
  pub sess : Session F
  pub sys : S
  pub sent : List Notice
  pub notifying : Bool

module _ {F S : Type 0} where
  -- A call of `notify` or of `notifyWithPayload`, whose error is ignored.
  unfoldable pub send : Notice → World F S → World F S
  send x w = record w { sent = w.sent ++ (x ∷ []) }

  abbrev pub with_sess : (Session F → Session F) → World F S → World F S
  with_sess f w = record w { sess = f w.sess }

  -- What the file system handler or the system answers.
  abbrev pub ask : {A : Type 0} → (S → A × S) → World F S → A × World F S
  ask m w = let r = m w.sys in (r.0, record w { sys = r.1 })

  -- A method of the session.
  abbrev pub in_sess : {A : Type 0} → (Session F → A × Session F) → World F S → A × World F S
  in_sess m w = let r = m w.sess in (r.0, record w { sess = r.1 })
