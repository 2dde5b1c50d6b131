-- ===== src/Handlers/Register/Notes.antt =====
-- Which handlers note the time, by the way in which they are registered: server/server/jsonrpc.go.
use flit_el.Prelude.{
  ◌≡◌, refl, ◌∙◌, ap, ◌⊎◌, inl, inr, Bool, true, false, [], ◌∷◌, ◌++◌, Bytes, Text, codes, text_eq,
}
use flit_el.Prelude.Results.{Result, ok, err}
use flit_el.Watcher.Interface.{Fsnotify}
use flit_el.FsHandler.Os.{Os}
use flit_el.Handlers.App.{HereApp, Work, touched, in_fs, ensure_eden_watching-server}
use flit_el.FsHandler.Io.{Io, Failure}
use flit_el.Handlers.Lifetime
use flit_el.Handlers.Lifetime.{touch}
use flit_el.Handlers.Protocol.{Decoders, Encoders, System}
use flit_el.Handlers.FileMethods.{opened}
use flit_el.Handlers.Answers.{
  H, map_ok, giving, handle_func, handle_typed, decoded_params, simple, after_send, or_crash,
}

module _ (n : Fsnotify) (os : Os) where
  -- The server's part of the application is left as it is.
  abbrev pub Keeps : {A : Type 0} → Work n os A → Type 0
  Keeps m = (app : HereApp n os) → (m app).1.server ≡ app.server

  -- The time of the last activity is now.
  abbrev pub Notes : {A : Type 0} → Work n os A → Type 0
  Notes m = (app : HereApp n os) → (m app).1.server.last_activity ≡ app.clock

  -- The same, or the params are invalid and nothing changes.
  abbrev pub NotesOrRefuses : {A : Type 0} → Work n os A → Type 0
  NotesOrRefuses m =
      (app : HereApp n os)
      → ((m app).1.server.last_activity ≡ app.clock)
        ⊎ (((t : Text) × ((m app).0 ≡ err (codes "invalid params: " ++ t))) × ((m app).1 ≡ app))

  pub touched-Notes : {A : Type 0} (m : Work n os A) → Keeps m → Notes (touched n os m)
  unfolding touched touch
  touched-Notes m k app =
      ap (λ (s : Lifetime.Server). s.last_activity)
        (k (record app { server = touch app.clock app.server }))

  module _ {Value : Type 0} (d : Decoders) (e : Encoders Value) (sys : System) where
    giving-Notes :
        {A B : Type 0} (f : A → B) (m : Work n os A) → Notes m → Notes (giving n os d e sys f m)
    unfolding giving
    giving-Notes f m h app = h app

    after_send-Keeps :
        (r : Result Text (Result Text (Unit {0}) × Bool)) → Keeps (after_send n os d e sys r)
    unfolding after_send
    after_send-Keeps (ok (result, true)) app = refl
    after_send-Keeps (ok (result, false)) app = refl
    after_send-Keeps (err t) app = refl

    pub or_crash-Keeps :
        (m : Work n os (Result Text (Unit {0}) × Bool)) → Keeps m → Keeps (or_crash n os d e sys m)
    unfolding or_crash
    or_crash-Keeps m k app = after_send-Keeps (m app).0 (m app).1 ∙ k app

    pub opened-Keeps : (r : Result Text Text) → Keeps (opened n os d e sys r)
    unfolding opened
    opened-Keeps (ok p) app = ensure_eden_watching-server n os p app
    opened-Keeps (err t) app = refl

    -- A handler's work on every request.
    abbrev pub EachNotes : H n os d e sys → Type 0
    EachNotes h = (raw payload : Bytes) → NotesOrRefuses (h raw payload)

    handle_func-EachNotes :
        (f : Bytes → Work n os Value)
        → ((raw : Bytes) → Notes (f raw))
        → EachNotes (handle_func n os d e sys f)
    unfolding handle_func
    handle_func-EachNotes f h raw payload app = inl (h raw app)

    decoded_params-NotesOrRefuses :
        {P : Type 0} (f : P → Work n os Value) (r : Result Text P)
        → ((p : P) → Notes (f p))
        → NotesOrRefuses (decoded_params n os d e sys f r)
    unfolding decoded_params
    decoded_params-NotesOrRefuses f (ok p) h app = inl (h p app)
    decoded_params-NotesOrRefuses f (err t) h app = inr ((t, refl), refl)

    giving-NotesOrRefuses :
        {A B : Type 0} (f : A → B) (m : Work n os A)
        → NotesOrRefuses m
        → NotesOrRefuses (giving n os d e sys f m)
    unfolding giving map_ok
    giving-NotesOrRefuses f m h app = elim (h app) [
      | inl note ↦ inl note
      | inr ((t, refused), same) ↦ inr ((t, ap (map_ok f) refused), same)
    ]

    pub handle_typed-EachNotes :
        {P : Type 0} (zero : P) (unmarshal : Bytes → Result Text P) (f : P → Work n os Value)
        → ((p : P) → Notes (f p))
        → EachNotes (handle_typed n os d e sys zero unmarshal f)
    unfolding handle_typed
    handle_typed-EachNotes zero unmarshal f h [] payload app = inl (h zero app)
    handle_typed-EachNotes zero unmarshal f h (b ∷ raw) payload app =
        giving-NotesOrRefuses (λ v. (v, [])) (decoded_params n os d e sys f (unmarshal (b ∷ raw)))
          (decoded_params-NotesOrRefuses f (unmarshal (b ∷ raw)) h) app

    open os use {State}

    pub simple-EachNotes :
        {A : Type 0} (enc : A → Value) (f : Bytes → Io State Failure A)
        → EachNotes (simple n os d e sys enc f)
    unfolding simple giving
    simple-EachNotes enc f =
        handle_func-EachNotes (λ raw. touched n os (giving n os d e sys enc (in_fs n os (f raw))))
          (λ raw. touched-Notes (giving n os d e sys enc (in_fs n os (f raw))) (λ app. refl))

    -- The three ways of registering a handler that touches first.
    pub typed-EachNotes :
        {P : Type 0} (zero : P) (unmarshal : Bytes → Result Text P) (f : P → Work n os Value)
        → ((p : P) → Keeps (f p))
        → EachNotes (handle_typed n os d e sys zero unmarshal (λ p. touched n os (f p)))
    typed-EachNotes zero unmarshal f k =
        handle_typed-EachNotes zero unmarshal (λ p. touched n os (f p))
          (λ p. touched-Notes (f p) (k p))

    pub func-EachNotes :
        (f : Bytes → Work n os Value)
        → ((raw : Bytes) → Keeps (f raw))
        → EachNotes (handle_func n os d e sys (λ raw. touched n os (f raw)))
    func-EachNotes f k =
        handle_func-EachNotes (λ raw. touched n os (f raw)) (λ raw. touched-Notes (f raw) (k raw))

    pub raw-EachNotes :
        (f : Bytes → Bytes → Work n os (Value × Bytes))
        → ((raw payload : Bytes) → Keeps (f raw payload))
        → EachNotes (λ raw payload. touched n os (f raw payload))
    raw-EachNotes f k raw payload app = inl (touched-Notes (f raw payload) (k raw payload) app)
