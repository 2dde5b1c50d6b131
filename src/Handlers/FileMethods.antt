-- ===== src/Handlers/FileMethods.antt =====
-- The requests on files and on watches, in the table of registerHandlers: server/server/jsonrpc.go.
use flit_el.Prelude.{List, [], ◌∷◌, Text, codes}
use flit_el.Prelude.Results.{Result, ok, err}
use flit_el.Watcher.Interface.{Fsnotify}
use flit_el.FsHandler.Os.{Os}
use flit_el.FsHandler.Io.{Failure}
use flit_el.FsHandler.Stat.{stat, read, exists, realpath}
use flit_el.FsHandler.Files.{mkdir, delete, rename, copy, chmod, touch}
use flit_el.FsHandler.CopyDir.{copy_dir}
use flit_el.Notices.Changes.{Here}
use flit_el.Handlers.App.{Work, touched, in_world, in_fs, time_of, seconds_of, ensure_eden_watching}
use flit_el.Handlers.Files.{
  fs_write, fs_info, fs_open_dir, fs_watch, fs_unwatch, fs_open, fs_close, fs_batch,
  session_clear_cache,
}
use flit_el.Handlers.Protocol.{Decoders, Encoders, System}
use flit_el.Handlers.Answers.{giving, handle_func, handle_typed, simple, H, content_of}

module _ (n : Fsnotify) (os : Os) {Value : Type 0} (d : Decoders) (e : Encoders Value)
    (sys : System) where
  open os use {State}

  -- The requests on files that the file system handler answers by itself.
  unfoldable pub file_methods : List (Text × H n os d e sys)
  file_methods =
      (codes "fs/stat", simple n os d e sys e.stat (λ raw. stat os (d.text raw)))
      ∷ (
        codes "fs/read",
        λ raw payload.
            touched n os (
              giving n os d e sys (λ r. (e.read r, r.payload)) (in_fs n os (read os (d.text raw)))),
      )
      ∷ (codes "fs/mkdir", simple n os d e sys (λ u. e.done) (λ raw. mkdir os (d.mkdir raw)))
      ∷ (codes "fs/delete", simple n os d e sys (λ u. e.done) (λ raw. delete os (d.delete raw)))
      ∷ (codes "fs/rename", simple n os d e sys (λ u. e.done) (λ raw. rename os (d.rename raw)))
      ∷ (codes "fs/copy", simple n os d e sys e.count (λ raw. copy os (d.copy raw)))
      ∷ (codes "fs/exists", simple n os d e sys e.flag (λ raw. exists os (d.text raw)))
      ∷ (
        codes "fs/realpath",
        simple n os d e sys (e.named (codes "path")) (λ raw. realpath os (d.text raw)),
      )
      ∷ (codes "fs/chmod", simple n os d e sys (λ u. e.done) (λ raw. chmod os (d.chmod raw)))
      ∷ (
        codes "fs/touch",
        λ raw payload. touched n os (λ app.
            giving n os d e sys (λ u. (e.done, []))
              (in_fs n os (touch os (time_of app.clock) (d.touch raw))) app),
      )
      ∷ (
        codes "fs/copy-dir",
        simple n os d e sys e.copied (λ raw. copy_dir os sys.visits (d.copy_dir raw)),
      )
      ∷ []

  -- A typed handler with one text, of the session.
  unfoldable pub on_path :
      (Text → Here n os → Result Failure Text × Here n os) → Text → H n os d e sys
  unfolding handle_typed giving touched
  on_path f key =
      handle_typed n os d e sys [] d.text
        (λ path. touched n os (giving n os d e sys (e.named key) (in_world n os (f path))))

  unfoldable pub opened : Result Text Text → Work n os Value
  opened (ok p) app = (ok (e.named (codes "opened") p), ensure_eden_watching n os p app)
  opened (err t) app = (err t, app)

  unfoldable pub open_and_watch : Text → Work n os Value
  unfolding opened
  open_and_watch path app = let r = in_world n os (fs_open n os path) app in opened r.0 r.1

  -- fs/open, with EnsureEdenWatching where OpenFile returns no error
  unfoldable pub open_path : Text → Work n os Value
  unfolding open_and_watch touched
  open_path path = touched n os (open_and_watch path)

  -- The requests on files that go through the session.
  unfoldable pub session_methods : List (Text × H n os d e sys)
  unfolding content_of
  session_methods =
      (
        codes "fs/batch",
        handle_func n os d e sys (λ raw.
            touched n os
              (giving n os d e sys (λ u. e.done) (in_world n os (fs_batch n os (d.texts raw))))),
      )
      ∷ (
        codes "fs/write",
        λ raw payload. touched n os (λ app.
            giving n os d e sys (λ r. (e.written r, []))
              (in_world n os (fs_write n os (seconds_of app.clock) (d.write raw) payload)) app),
      )
      ∷ (
        codes "fs/info",
        λ raw payload. touched n os (
            giving n os d e sys (λ r. (e.info r.1, content_of r.0))
              (in_world n os (fs_info n os (d.text raw)))),
      )
      ∷ (
        codes "fs/openDir",
        handle_typed n os d e sys [] d.text (λ path.
            touched n os (giving n os d e sys e.info (in_world n os (fs_open_dir n os path)))),
      )
      ∷ (codes "fs/watch", on_path (fs_watch n os) (codes "watching"))
      ∷ (codes "fs/unwatch", on_path (fs_unwatch n os) (codes "unwatched"))
      ∷ (codes "fs/open", handle_typed n os d e sys [] d.text open_path)
      ∷ (codes "fs/close", on_path (fs_close n os) (codes "closed"))
      ∷ (codes "fs/forget", on_path (fs_unwatch n os) (codes "forgotten"))
      ∷ (
        codes "session/clearCache",
        handle_func n os d e sys (λ raw.
            touched n os
              (λ app. (ok e.done, record app { world = session_clear_cache n os app.world }))),
      )
      ∷ []
