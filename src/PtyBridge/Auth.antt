-- ===== src/PtyBridge/Auth.antt =====
-- handleAuthAndWaitForReady, handlePasswordPrompt and handleDeploy: server/cmd_pty_bridge.go. What the
-- terminal's reads return is a list, after which a read is an error. JSON is an interface.
use flit_el.Prelude.{
  ℕ, zero, suc, ◌+◌, Bool, true, false, Option, none, some, List, [], ◌∷◌, ◌++◌, Text, codes, take,
  drop, length, is_empty, leb, nat_eq, ◌==◌, ◌||◌, ◌&&◌, if◌then◌else◌,
}
use flit_el.Prelude.Results.{Result, ok, err}
use flit_el.Prelude.Int64.{ℤ, pos, negsuc}
use flit_el.FsHandler.Io.{Io, ◌>>=◌, ◌>>◌, pure, fail}
use flit_el.FsHandler.Stat.{digits}
use flit_el.PtyBridge.Junk.{has_part, strip_pty_junk, is_password_prompt}

-- encoding/json, as far as the bridge uses it.
pub record Json : Type 1 where
  pub Object : Type 0
  pub parse_object : Text → Option Object
  pub has_key : Text → Object → Bool
  -- {"pty_password_prompt": prompt}
  pub prompt_object : Text → Text
  -- The field pty_password of an object of strings, if it is there; none where the text is no such object.
  pub password_of : Text → Option (Option Text)
  -- The size in flit_deploy, 0 where it is missing; none where the text does not parse.
  pub deploy_size_of : Text → Option ℤ

-- The reads of the terminal that are still to come, what the client still sends, and what has been
-- written to both; a write to the client is an error where `client_open` is false, and one to the
-- terminal where `pty_open` is.
pub record Bridge : Type 0 where
  pub reads : List Text
  pub client : Text
  pub client_open : Bool
  pub pty_open : Bool
  pub to_client : Text
  pub to_pty : Text

abbrev pub B : Type 0 → Type 0
B A = Io Bridge Text A

unfoldable pub read_from : List Text → Bridge → Result Text Text × Bridge
read_from [] b = (err (codes "read error"), record b { reads = [] })
read_from (r ∷ rs) b = (ok r, record b { reads = rs })

-- ptmx.Read
unfoldable pub read_pty : B Text
unfolding read_from
read_pty b = read_from b.reads b

-- writer.Write
unfoldable pub write_client : Text → Text → B (Unit {0})
write_client message t b =
    if b.client_open then (ok tt, record b { to_client = b.to_client ++ t }) else (err message, b)

-- ptmx.Write
unfoldable pub write_pty : Text → Text → B (Unit {0})
write_pty message t b =
    if b.pty_open then (ok tt, record b { to_pty = b.to_pty ++ t }) else (err message, b)

-- ptmx.Write, whose error is ignored
unfoldable pub write_password : Text → B (Unit {0})
unfolding write_pty
write_password t b = (ok tt, (write_pty [] t b).1)

-- The length of the first line with its end; none where no line ends.
unfoldable pub line_length : Text → Option ℕ
line_length [] = none
line_length (c ∷ s) =
    let rest = elim (line_length s) as (λ _. Option ℕ) [ none ↦ none | some n ↦ some (n + 1) ] in
    if c == 10 then some 1 else rest

-- reader.ReadString('\n')
unfoldable pub read_line : Text → B Text
unfolding line_length
read_line message b = elim (line_length b.client) [
  | none ↦ (err message, record b { client = [] })
  | some n ↦ (ok (take n b.client), record b { client = drop n b.client })
]

unfoldable pub or_fail : {A : Type 0} → Text → Option A → B A
or_fail message none = fail message
or_fail message (some a) = pure a

-- `size <= 0` is an error.
unfoldable pub positive : ℤ → B ℕ
positive (pos zero) = fail (codes "invalid deploy size")
positive (pos (suc n)) = pure (suc n)
positive (negsuc n) = fail (codes "invalid deploy size")

unfoldable pub wait_in : List Text → Bridge → Result Text (Unit {0}) × Bridge
unfolding has_part
wait_in [] b = (err (codes "failed to read deploy_ready signal"), record b { reads = [] })
wait_in (r ∷ rs) b =
    let rest = wait_in rs b in
    if has_part r (codes "deploy_ready") then (ok tt, record b { reads = rs }) else rest

-- The loop of handleDeploy that waits for the signal.
unfoldable pub wait_deploy_ready : B (Unit {0})
unfolding wait_in
wait_deploy_ready b = wait_in b.reads b

-- io.CopyN(ptmx, reader, size); where the terminal takes nothing, what was read is lost.
unfoldable pub copy_n : ℕ → B (Unit {0})
copy_n size b =
    let taken = record b { client = drop size b.client } in
    let b' = record taken {
      to_pty = (if b.pty_open then b.to_pty ++ take size b.client else b.to_pty);
    } in
    if b.pty_open && leb size (length b.client)
    then (ok tt, b')
    else (err (codes "failed to transfer binary"), b')

-- The lines of a text, as strings.Split gives them.
unfoldable pub split_lines : Text → List Text
split_lines [] = [] ∷ []
split_lines (c ∷ s) = elim (split_lines s) [
  | [] ↦ (c ∷ []) ∷ []
  | l ∷ ls ↦ if c == 10 then [] ∷ l ∷ ls else (c ∷ l) ∷ ls
]

-- The digits of an int64: nineteen at most.
unfoldable pub size_line : ℕ → Text
unfolding digits
size_line size = digits 19 size (10 ∷ [])

-- The data that has been read is passed on to the client, if there is any.
unfoldable pub forward : Text → B (Unit {0})
unfolding write_client
forward pending = elim (is_empty pending) [
  | true ↦ pure tt
  | false ↦ write_client (codes "failed to forward pending data") pending
]

-- What the lines say.
pub data Signal : Type 0 where
  ready : Signal
  deploy : Text → Signal
  nothing : Signal

module _ (j : Json) where
  open j use {Object}

  -- handlePasswordPrompt
  unfoldable pub handle_password_prompt : Text → B (Unit {0})
  unfolding write_client read_line or_fail write_password
  handle_password_prompt prompt = do
    write_client (codes "failed to send prompt") (j.prompt_object prompt ++ (10 ∷ []))
    line ← read_line (codes "failed to read password response")
    response ← or_fail (codes "failed to parse password response") (j.password_of line)
    password ← or_fail (codes "password response missing 'pty_password' field") response
    write_password (password ++ (10 ∷ []))

  -- The second half of handleDeploy: the client's answer is parsed, and the binary is passed on.
  unfoldable pub transfer : Text → B (Unit {0})
  unfolding or_fail write_pty positive wait_deploy_ready copy_n
  transfer response = do
    parsed ← or_fail (codes "failed to parse deploy response") (j.deploy_size_of response)
    size ← positive parsed
    write_pty (codes "failed to send deploy size to PTY") (size_line size)
    wait_deploy_ready
    copy_n size

  -- handleDeploy
  unfoldable pub handle_deploy : Text → B (Unit {0})
  unfolding write_client read_line transfer
  handle_deploy line = do
    write_client (codes "failed to relay deploy signal") (line ++ (10 ∷ []))
    response ← read_line (codes "failed to read deploy response")
    transfer response

  signal_of_object : Text → Option Object → Signal → Signal
  signal_of_object cleaned none rest = rest
  signal_of_object cleaned (some obj) rest =
      if j.has_key (codes "flit_ready") obj || j.has_key (codes "flit_deploy_done") obj
      then ready
      else if j.has_key (codes "flit_not_found") obj
      then deploy cleaned
      else rest

  -- The loop over the lines.
  unfoldable pub scan_lines : List Text → Signal
  unfolding strip_pty_junk signal_of_object
  scan_lines [] = nothing
  scan_lines (l ∷ ls) =
      let rest = scan_lines ls in
      let cleaned = strip_pty_junk l in
      if is_empty cleaned then rest else signal_of_object cleaned (j.parse_object cleaned) rest

  -- What follows a read; `loop` is the next round.
  unfoldable pub after_read : (Text → B Text) → Text → Text → B Text
  unfolding handle_password_prompt handle_deploy scan_lines split_lines is_password_prompt
  after_read loop pending output = elim (is_password_prompt output) [
    | true ↦ handle_password_prompt output >> loop []
    | false ↦ elim (scan_lines (split_lines (pending ++ output))) [
      | ready ↦ pure (pending ++ output)
      | deploy line ↦ handle_deploy line >> loop []
      | nothing ↦ loop (pending ++ output)
    ]
  ]

  -- The loop of handleAuthAndWaitForReady, with one round of fuel for each read.
  unfoldable pub auth_loop : ℕ → Text → B Text
  unfolding read_pty after_read
  auth_loop zero pending = fail (codes "out of fuel")
  auth_loop (suc fuel) pending = read_pty >>= after_read (auth_loop fuel) pending

  -- handleAuthAndWaitForReady
  unfoldable pub handle_auth_and_wait_for_ready : B Text
  unfolding auth_loop
  handle_auth_and_wait_for_ready b = auth_loop (suc (length b.reads)) [] b

  -- The first half of runBridge, before it copies both ways: what was read is passed on to the client.
  unfoldable pub open_bridge : B (Unit {0})
  unfolding handle_auth_and_wait_for_ready forward
  open_bridge = handle_auth_and_wait_for_ready >>= forward
