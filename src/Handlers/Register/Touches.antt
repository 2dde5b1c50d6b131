-- ===== src/Handlers/Register/Touches.antt =====
-- Which requests note the time: server/server/jsonrpc.go.
use flit_el.Prelude.{
  ◌≡◌, ◌≢◌, refl, sym, ◌∙◌, ap, ◌⊎◌, none, some, List, [], ◌∷◌, ◌++◌, Bytes, Text, codes, text_eq,
}
use flit_el.Prelude.GoMap.{lookup, lookup-insert_rule, lookup-empty}
use flit_el.Prelude.Results.{Result, err}
use flit_el.Watcher.Interface.{Fsnotify}
use flit_el.FsHandler.Os.{Os}
use flit_el.Flitrpc.Codec.{Codec}
use flit_el.Flitrpc.Server.{Server, handle}
use flit_el.Handlers.App.{HereApp, in_world}
use flit_el.FsHandler.Io.{Failure}
use flit_el.Handlers.Files.{fs_open}
use flit_el.Notices.Changes.{Here}
use flit_el.Handlers.Protocol.{Decoders, Encoders, System}
use flit_el.Handlers.Register.{
  process_methods, tunnel_methods, host_methods, active_methods, shut_down, register_each,
  register_handlers,
}
use flit_el.Handlers.FileMethods.{file_methods, session_methods, on_path, open_path, open_and_watch}
use flit_el.Handlers.Answers.{H, giving, with_procs, with_tunnels}
use flit_el.Handlers.Register.Notes.{
  Notes, touched-Notes, or_crash-Keeps, opened-Keeps, EachNotes, handle_typed-EachNotes,
  simple-EachNotes, typed-EachNotes, func-EachNotes, raw-EachNotes,
}

-- Two facts, to be chained.
infixr 4 ◌&◌
abbrev ◌&◌ : {A B : Type 0} → A → B → A × B
a & b = (a, b)

module _ (n : Fsnotify) (os : Os) where
  module _ {Value : Type 0} (d : Decoders) (e : Encoders Value) (sys : System) where
    open os use {State}

    abbrev AllNote : List (Text × H n os d e sys) → Type 0
    AllNote [] = Unit
    AllNote ((method, h) ∷ hs) = EachNotes n os d e sys h × AllNote hs

    file_methods-AllNote : AllNote (file_methods n os d e sys)
    unfolding file_methods giving
    file_methods-AllNote =
        simple-EachNotes n os d e sys _ _
        & raw-EachNotes n os d e sys _ (λ raw payload app. refl)
        & simple-EachNotes n os d e sys _ _
        & simple-EachNotes n os d e sys _ _
        & simple-EachNotes n os d e sys _ _
        & simple-EachNotes n os d e sys _ _
        & simple-EachNotes n os d e sys _ _
        & simple-EachNotes n os d e sys _ _
        & simple-EachNotes n os d e sys _ _
        & raw-EachNotes n os d e sys _ (λ raw payload app. refl)
        & simple-EachNotes n os d e sys _ _
        & tt

    on_path-EachNotes :
        (f : Text → Here n os → Result Failure Text × Here n os) (key : Text)
        → EachNotes n os d e sys (on_path n os d e sys f key)
    unfolding on_path giving
    on_path-EachNotes f key =
        typed-EachNotes n os d e sys [] d.text
          (λ path. giving n os d e sys (e.named key) (in_world n os (f path))) (λ path app. refl)

    open_path-Notes : (path : Text) → Notes n os (open_path n os d e sys path)
    unfolding open_path open_and_watch
    open_path-Notes path =
        touched-Notes n os (open_and_watch n os d e sys path) (λ app.
          let r = in_world n os (fs_open n os path) app in opened-Keeps n os d e sys r.0 r.1)

    session_methods-AllNote : AllNote (session_methods n os d e sys)
    unfolding session_methods giving
    session_methods-AllNote =
        func-EachNotes n os d e sys _ (λ raw app. refl)
        & raw-EachNotes n os d e sys _ (λ raw payload app. refl)
        & raw-EachNotes n os d e sys _ (λ raw payload app. refl)
        & typed-EachNotes n os d e sys _ _ _ (λ path app. refl)
        & on_path-EachNotes _ _
        & on_path-EachNotes _ _
        & handle_typed-EachNotes n os d e sys _ _ _ open_path-Notes
        & on_path-EachNotes _ _
        & on_path-EachNotes _ _
        & func-EachNotes n os d e sys _ (λ raw app. refl)
        & tt

    process_methods-AllNote : AllNote (process_methods n os d e sys)
    unfolding process_methods giving with_procs
    process_methods-AllNote =
        typed-EachNotes n os d e sys _ _ _ (λ p app. refl)
        & raw-EachNotes n os d e sys _
            (λ raw payload app. or_crash-Keeps n os d e sys _ (λ app'. refl) app)
        & typed-EachNotes n os d e sys _ _ _ (λ p app. refl)
        & typed-EachNotes n os d e sys _ _ _ (λ p app. refl)
        & typed-EachNotes n os d e sys _ _ _ (λ p app. refl)
        & tt

    tunnel_methods-AllNote : AllNote (tunnel_methods n os d e sys)
    unfolding tunnel_methods giving with_tunnels
    tunnel_methods-AllNote =
        typed-EachNotes n os d e sys _ _ _ (λ p app. refl)
        & typed-EachNotes n os d e sys _ _ _ (λ p app. refl)
        & typed-EachNotes n os d e sys _ _ _ (λ p app. refl)
        & raw-EachNotes n os d e sys _
            (λ raw payload app. or_crash-Keeps n os d e sys _ (λ app'. refl) app)
        & typed-EachNotes n os d e sys _ _ _ (λ p app. refl)
        & tt

    host_methods-AllNote : AllNote (host_methods n os d e sys)
    unfolding host_methods giving
    host_methods-AllNote =
        func-EachNotes n os d e sys _ (λ raw app. refl)
        & func-EachNotes n os d e sys _ (λ raw app. refl)
        & tt

    AllNote-append :
        (hs ks : List (Text × H n os d e sys)) → AllNote hs → AllNote ks → AllNote (hs ++ ks)
    AllNote-append [] ks a b = b
    AllNote-append ((method, h) ∷ hs) ks (x, a) b = (x, AllNote-append hs ks a b)

    active_methods-AllNote : AllNote (active_methods n os d e sys)
    unfolding active_methods
    active_methods-AllNote = AllNote-append _ _ file_methods-AllNote (
        AllNote-append _ _ session_methods-AllNote (
          AllNote-append _ _ process_methods-AllNote
            (AllNote-append _ _ host_methods-AllNote tunnel_methods-AllNote)))

    -- What each entry of the table does, but for `shutdown`.
    abbrev EntryNotes : Text → H n os d e sys → Type 0
    EntryNotes method h = method ≢ codes "shutdown" → EachNotes n os d e sys h

    abbrev TableNotes : Server Value (HereApp n os) → Type 0
    TableNotes sv =
        (method : Text) (h : H n os d e sys)
        → lookup method sv.handlers ≡ some h
        → EntryNotes method h

    handle-TableNotes :
        (c : Codec Value) (method : Text) (h : H n os d e sys) (sv : Server Value (HereApp n os))
        → EntryNotes method h
        → TableNotes sv
        → TableNotes (handle c method h sv)
    unfolding handle
    handle-TableNotes c method h sv new old other h' at =
        lookup-insert_rule EntryNotes method other h h' sv.handlers at new (old other h')

    register_each-TableNotes :
        (c : Codec Value) (hs : List (Text × H n os d e sys)) (sv : Server Value (HereApp n os))
        → AllNote hs
        → TableNotes sv
        → TableNotes (register_each c hs sv)
    register_each-TableNotes c [] sv a t = t
    register_each-TableNotes c ((method, h) ∷ hs) sv (x, a) t =
        register_each-TableNotes c hs (handle c method h sv) a
          (handle-TableNotes c method h sv (λ ne. x) t)

    register_each-append :
        (c : Codec Value) (hs ks : List (Text × H n os d e sys)) (sv : Server Value (HereApp n os))
        → register_each c (hs ++ ks) sv ≡ register_each c ks (register_each c hs sv)
    register_each-append c [] ks sv = refl
    register_each-append c ((method, h) ∷ hs) ks sv =
        register_each-append c hs ks (handle c method h sv)

    none-TableNotes : (sv : Server Value (HereApp n os)) → sv.handlers ≡ [] → TableNotes sv
    none-TableNotes sv none_yet method h at =
        absurd (not_found (sym (lookup-empty method) ∙ ap (lookup method) (sym none_yet) ∙ at))
      where
        not_found : none ≡ some h → ⊥
        not_found e' = cc

    -- Every handler that registerHandlers registers with a new server, but for that of shutdown, notes
    -- the time of each request as that of the last activity, whatever the params and the payload; or it
    -- answers that the params are invalid, and changes nothing.
    pub registered_note_activity :
        (c : Codec Value) (sv : Server Value (HereApp n os)) (method : Text) (h : H n os d e sys)
        (raw payload : Bytes) (app : HereApp n os)
        → sv.handlers ≡ []
        → lookup method (register_handlers n os d e sys c sv).handlers ≡ some h
        → method ≢ codes "shutdown"
        → ((h raw payload app).1.server.last_activity ≡ app.clock)
          ⊎ (((t : Text) × ((h raw payload app).0 ≡ err (codes "invalid params: " ++ t)))
              × ((h raw payload app).1 ≡ app))
    unfolding register_handlers
    registered_note_activity c sv method h raw payload app none_yet at ne =
        let hs = active_methods n os d e sys in
        let stop = shut_down n os d e sys in
        let found =
          ap (λ (s : Server Value (HereApp n os)). lookup method s.handlers)
            (register_each-append c hs ((codes "shutdown", stop) ∷ []) sv) in
        handle-TableNotes c (codes "shutdown") stop (register_each c hs sv)
          (λ ne'. absurd (ne' refl))
          (register_each-TableNotes c hs sv active_methods-AllNote (none-TableNotes sv none_yet))
          method h (sym found ∙ at) ne raw payload app
