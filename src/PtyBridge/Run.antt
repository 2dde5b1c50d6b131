-- ===== src/PtyBridge/Run.antt =====
-- runBridge and cleanupPty: server/cmd_pty_bridge.go. The two copying goroutines are a list of their
-- rounds, in the order in which they run; the signals that end the bridge are left out.
pub mod Ends
use flit_el.Prelude.{
  ℕ, Bool, true, false, Option, none, some, List, [], ◌∷◌, ◌++◌, Text, codes, take, drop,
  if◌then◌else◌,
}
use flit_el.Prelude.Results.{Result, ok, err}
use flit_el.PtyBridge.Auth.{Json, Bridge, open_bridge}

-- What is done to the command's process.
pub data Call : Type 0 where
  terminated killed waited : Call

-- A bridge with its process.
pub record Running : Type 0 where
  pub bridge : Bridge
  pub calls : List Call

-- A round of io.Copy: of the client's next bytes, or of one read of the terminal, and whether the write
-- to the other side succeeds.
pub data Round : Type 0 where
  from_client : ℕ → Bool → Round
  from_pty : Bool → Round

-- A round of io.Copy(ptmx, reader) for `size` bytes, with the rounds that follow; where the write is an
-- error, the bytes are lost and the copy ends.
to_terminal : (Bridge → Bridge) → ℕ → Bool → Bridge → Bridge
to_terminal next size true b =
    next (record b { client = drop size b.client; to_pty = b.to_pty ++ take size b.client })
to_terminal next size false b = record b { client = drop size b.client }

-- A round of io.Copy(writer, ptmx), with the rounds that follow; the copy ends where the read is an
-- error, or the write to the client, and what was read is lost.
copy_read : (Bridge → Bridge) → List Text → Bool → Bridge → Bridge
copy_read next [] written b = b
copy_read next (r ∷ rs) true b = next (record b { reads = rs; to_client = b.to_client ++ r })
copy_read next (r ∷ rs) false b = record b { reads = rs }

-- The rounds until a copy ends; what is left then is discarded with the bridge.
unfoldable pub copy_both : List Round → Bridge → Bridge
unfolding to_terminal copy_read
copy_both [] b = b
copy_both (from_client size written ∷ rounds) b = to_terminal (copy_both rounds) size written b
copy_both (from_pty written ∷ rounds) b = copy_read (copy_both rounds) b.reads written b

-- ptmx.Write of Ctrl-D, which is an error on a closed terminal, and ptmx.Close
unfoldable pub end_input : Running → Running
end_input r = record r {
  bridge = record r.bridge {
    pty_open = false;
    to_pty = (if r.bridge.pty_open then r.bridge.to_pty ++ (4 ∷ []) else r.bridge.to_pty);
  };
}

-- The signals of cleanupPty, where SIGTERM is sent or is an error, and the process exits in time or not.
unfoldable pub end_process : Bool → Bool → List Call
end_process sent exits =
    if sent
    then if exits then terminated ∷ waited ∷ [] else terminated ∷ killed ∷ waited ∷ []
    else killed ∷ []

-- cleanupPty
unfoldable pub cleanup_pty : Bool → Bool → Running → Running
unfolding end_input end_process
cleanup_pty sent exits r =
    let ended = end_input r in record ended { calls = ended.calls ++ end_process sent exits }

-- The rest of runBridge after the wait for the ready signal, up to what it defers
bridge_both : List Round → Result Text (Unit {0}) × Bridge → Result Text (Unit {0}) × Running
unfolding copy_both
bridge_both rounds (err t, b) = (err t, record { bridge = b; calls = [] })
bridge_both rounds (ok u, b) =
    (ok tt, record { bridge = record (copy_both rounds b) { pty_open = false }; calls = [] })

module _ (j : Json) where
  -- runBridge, where the command has been started
  unfoldable pub run_bridge : List Round → Bool → Bool → Bridge → Result Text (Unit {0}) × Running
  unfolding bridge_both cleanup_pty open_bridge
  run_bridge rounds sent exits b =
      let r = bridge_both rounds (open_bridge j b) in (r.0, cleanup_pty sent exits r.1)
