-- ===== src/FsHandler/Write/RoundTrip.antt =====
-- What fs/write has written, fs/read reads: server/fs/handler.go.
use flit_el.Prelude.{
  ℕ, ◌≡◌, refl, ◌∙◌, inl, inr, ap, sym, true, false, Option, none, some, Text, Bytes, Bool-cases,
}
use flit_el.Prelude.Results.{Result, ok}
use flit_el.FsHandler.Os.{Os, FileInfo, FileKind, regular_kind, OpenFlag, o_trunc}
use flit_el.FsHandler.Io.{
  Io, Failure, rpc, pure, ◌>>=◌, ◌>>◌, checked, deferred, file_error, resolve,
}
use flit_el.FsHandler.Types.{
  WriteParams, WriteResult, written, InfoResponse, ReadResult, build_cache_entries, info_of_path,
}
use flit_el.FsHandler.Stat.{or_empty, read, populate_stat_from_file_info}
use flit_el.FsHandler.Info.{get_info}
use flit_el.FsHandler.Info.Quiet.{get_info-Keeps}
use flit_el.FsHandler.Write.{
  is_guarded, is_mismatch, write_file, write_if_expected, write, mode_or, flag_of,
}
use flit_el.FsHandler.Write.Refused.{to_option, write-guarded, refuse-IsRefused}
use flit_el.FsHandler.Keeps.{Keeps, ReadsKeep, pure-Keeps, >>=-Keeps}
use flit_el.FsHandler.Total.{
  go_on-eq_ok, go_on_ok, map_error-eq_ok, map_error_ok, map_error-state, populate-Total,
  resolve-Total, Total, >>=-Total, pure-Total,
}
use flit_el.FsHandler.Yields.{Yields, pure-Yields, >>=-Yields}

-- The path names a file that keeps what this process writes to it after it was truncated, until the next
-- call that writes, and that this process may read, which returns all of it.
pub record Stores (os : Os) (path : Text) (mode : FileKind × ℕ) (contents : os.State → Option Bytes)
    : Type 0 where
  pub stored :
      (f : os.File) (c : Bytes) (s : os.State)
      → (os.open_file path o_trunc mode s).0 ≡ ok f
      → (os.file_write f c (os.open_file path o_trunc mode s).1).0 ≡ ok tt
      → contents (os.file_write f c (os.open_file path o_trunc mode s).1).1 ≡ some c
  pub closed : (f : os.File) (s : os.State) → contents (os.close_file f s) ≡ contents s
  pub read_back : (c : Bytes) (s : os.State) → contents s ≡ some c → (os.read_file path s).0 ≡ ok c
  pub present :
      (c : Bytes) (s : os.State)
      → contents s ≡ some c
      → (i : FileInfo) × ((os.lstat path s).0 ≡ ok i)

module _ (os : Os) (p : WriteParams) (contents : os.State → Option Bytes)
    (stores : Stores os p.path (regular_kind, mode_or 420 p.mode) contents)
    (quiet : ReadsKeep os contents) where
  open os use {State}

  -- From the getInfo after the write on.
  abbrev answer : Io State Failure WriteResult
  answer = do
    info ← get_info os p.path
    let info' = record info { content = none }
    pure (written (record { info = info'; cache = build_cache_entries info' }))

  answer-Keeps : Keeps contents answer
  answer-Keeps = >>=-Keeps _ (get_info-Keeps os contents quiet p.path) (λ i. pure-Keeps _ _)

  contents_after_write :
      (flag : OpenFlag) (f : os.File) (s : State) (r : WriteResult)
      → flag ≡ o_trunc
      → (let r1 = os.open_file p.path flag (regular_kind, mode_or 420 p.mode) s in
          r1.0 ≡ ok f
          → ((checked (os.file_write f p.content) >> answer) r1.1).0 ≡ ok r
          → contents ((checked (os.file_write f p.content) >> answer) r1.1).1 ≡ some p.content)
  contents_after_write flag f s r fl = rw fl (λ o h.
      let s1 = (os.open_file p.path o_trunc (regular_kind, mode_or 420 p.mode) s).1 in
      let (u, w, e) = go_on-eq_ok (checked (os.file_write f p.content) s1) (λ _. answer) r h in
      rw e (
        answer-Keeps.kept _
        ∙ ap (contents) (map_error-state _ (os.file_write f p.content s1))
        ∙ stores.stored f p.content s o (map_error-eq_ok _ _ tt w)))

  contents_after :
      (s : State) (r : WriteResult)
      → p.append ≡ false
      → (write_file os p s).0 ≡ ok r
      → contents (write_file os p s).1 ≡ some p.content
  unfolding write_file
  contents_after s r a h =
      let mode : FileKind × ℕ = (regular_kind, mode_or 420 p.mode) in
      let opened = os.open_file p.path (flag_of p.append) mode s in
      let (f, o, e) =
        go_on-eq_ok (checked (os.open_file p.path (flag_of p.append) mode) s)
          (λ f. deferred (os.close_file f) (checked (os.file_write f p.content) >> answer)) r h in
      let st = map_error-state (λ e. rpc (file_error e)) opened in
      let body = checked (os.file_write f p.content) >> answer in
      let h' : (body opened.1).0 ≡ ok r = rw (← st) (ap (λ x. x.0) (sym e) ∙ h) in
      rw e (
        stores.closed f _
        ∙ rw st (
            contents_after_write (flag_of p.append) f s r (rw a refl) (map_error-eq_ok _ opened f o)
              h'))

  -- From the info of the file on, in Read.
  abbrev read_result : Text → Bytes → FileInfo → Io State Failure ReadResult
  read_result path content info = do
    f ← populate_stat_from_file_info os path info
    realpath ← resolve os path
    pure (record {
      stat = record (info_of_path path) {
        exists = true;
        fields = f.0;
        sys = f.1;
        realpath = or_empty realpath;
      };
      payload = content;
    })

  read_result-Total : (path : Text) (c : Bytes) (i : FileInfo) → Total (read_result path c i)
  read_result-Total path c i =
      >>=-Total (populate-Total os path i)
        (λ f. >>=-Total (resolve-Total os path) (λ r. pure-Total _))

  read_result-Yields :
      (path : Text) (c : Bytes) (i : FileInfo)
      → Yields (λ (q : ReadResult). q.payload ≡ c) (read_result path c i)
  read_result-Yields path c i =
      >>=-Yields (populate_stat_from_file_info os path i)
        (λ f. >>=-Yields (resolve os path) (λ r. pure-Yields refl))

  read-contents :
      (c : Bytes) (s : State)
      → contents s ≡ some c
      → (q : ReadResult) × ((read os (ok p.path) s).0 ≡ ok q) × (q.payload ≡ c)
  unfolding read
  read-contents c s h =
      let r1 = checked (os.read_file p.path) s in
      let e1 =
        go_on_ok r1 (λ c. checked (os.lstat p.path) >>= read_result p.path c) c
          (map_error_ok _ (os.read_file p.path s) c (stores.read_back c s h)) in
      let h1 : contents r1.1 ≡ some c =
        ap (contents) (map_error-state _ (os.read_file p.path s))
        ∙ (quiet.read_file_keeps p.path).kept s
        ∙ h in
      let (i, l) = stores.present c r1.1 h1 in
      let e2 =
        go_on_ok (checked (os.lstat p.path) r1.1) (read_result p.path c) i
          (map_error_ok _ (os.lstat p.path r1.1) i l) in
      let (q, d) = (read_result-Total p.path c i).value (checked (os.lstat p.path) r1.1).1 in
      (q, ap (λ x. x.0) e1 ∙ ap (λ x. x.0) e2 ∙ d, (read_result-Yields p.path c i).yielded _ q d)

  unrefused :
      (s : State) (r : InfoResponse)
      → is_guarded p ≡ true
      → (write_if_expected os p (to_option (os.stat p.path s).0) (os.stat p.path s).1).0
        ≡ ok (written r)
      → (s' : State) × (write os p s ≡ write_file os p s')
  unfolding write_if_expected
  unrefused s r g h = elim (Bool-cases (is_mismatch p (to_option (os.stat p.path s).0))) [
    | inr m ↦ ((os.stat p.path s).1, write-guarded os p s g ∙ rw (m, write_if_expected) refl)
    | inl m ↦
        let refused = refuse-IsRefused os p (to_option (os.stat p.path s).0) (os.stat p.path s).1 in
        absurd (cc (refused.1, rw (m, write_if_expected) at h))
  ]

  -- The part of Write that writes runs where Write does not report a mismatch.
  write-written :
      (s : State) (r : InfoResponse)
      → (write os p s).0 ≡ ok (written r)
      → (s' : State) × (write os p s ≡ write_file os p s')
  unfolding write
  write-written s r h = elim (Bool-cases (is_guarded p)) [
    | inr g ↦ (s, rw (g, write) refl)
    | inl g ↦ unrefused s r g (ap (λ x. x.0) (sym (write-guarded os p s g)) ∙ h)
  ]

  -- Where the path names a file that keeps what is written to it until the next write, and that may be
  -- read, and the calls that only read leave it as it is: after a Write that does not append has
  -- succeeded, Read of the path succeeds and its payload is what was written.
  pub write-read :
      (s : State) (r : InfoResponse)
      → p.append ≡ false
      → (write os p s).0 ≡ ok (written r)
      → (q : ReadResult) × ((read os (ok p.path) (write os p s).1).0 ≡ ok q)
        × (q.payload ≡ p.content)
  write-read s r a h =
      let (s', e) = write-written s r h in
      read-contents p.content _ (
        ap (λ (x : Result Failure WriteResult × State). contents x.1) e
        ∙ contents_after s' (written r) a (ap (λ x. x.0) (sym e) ∙ h))
