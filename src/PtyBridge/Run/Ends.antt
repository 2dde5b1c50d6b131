-- ===== src/PtyBridge/Run/Ends.antt =====
-- What passes through the bridge, and how it ends: server/cmd_pty_bridge.go.
use flit_el.Prelude.{
  ℕ, zero, suc, ◌+◌, ◌≡◌, ◌⊎◌, Bool, true, false, List, [], ◌∷◌, ◌++◌, Text, take, length,
  if◌then◌else◌,
}
use flit_el.Prelude.Results.{Result, ok, err}
use flit_el.PtyBridge.Auth.{Bridge}
use flit_el.PtyBridge.Waits.{concat}
use flit_el.PtyBridge.Run.{
  Running, Round, from_client, from_pty, end_process, cleanup_pty, bridge_both,
}

-- How many bytes of the client the rounds carry until a copy ends, where the terminal has `n` reads.
abbrev pub carried : List Round → ℕ → ℕ
carried [] n = 0
carried (from_client size true ∷ rounds) n = size + carried rounds n
carried (from_client size false ∷ rounds) n = 0
carried (from_pty written ∷ rounds) zero = 0
carried (from_pty true ∷ rounds) (suc n) = carried rounds n
carried (from_pty false ∷ rounds) (suc n) = 0

-- How many of the terminal's reads they carry.
abbrev pub shown : List Round → ℕ → ℕ
shown [] n = 0
shown (from_client size true ∷ rounds) n = shown rounds n
shown (from_client size false ∷ rounds) n = 0
shown (from_pty written ∷ rounds) zero = 0
shown (from_pty true ∷ rounds) (suc n) = suc (shown rounds n)
shown (from_pty false ∷ rounds) (suc n) = 0

-- The terminal has got the bytes that were carried to it, and the client the reads, in order.
abbrev pub Passed : List Round → Bridge → Bridge → Type 0
Passed rounds b b' =
    (b'.to_pty ≡ b.to_pty ++ take (carried rounds (length b.reads)) b.client)
    × (b'.to_client ≡ b.to_client ++ concat (take (shown rounds (length b.reads)) b.reads))

-- The end of a bridge whose wait has had the result `r`, and left the bridge `b`.
abbrev after_wait : List Round → Bool → Bool → Result Text (Unit {0}) × Bridge → Running
after_wait rounds sent exits r = cleanup_pty sent exits (bridge_both rounds r).1

-- What holds at the end of the bridge.
abbrev pub EndsWell : List Round → Bool → Bool → Bridge → Result Text (Unit {0}) → Running → Type 0
EndsWell rounds sent exits b' r ended =
    (((r ≡ ok tt) × Passed rounds b' ended.bridge)
      ⊎ ((t : Text) × (r ≡ err t)
          × (ended.bridge.to_pty ≡ (if b'.pty_open then b'.to_pty ++ (4 ∷ []) else b'.to_pty))))
    × (ended.bridge.pty_open ≡ false)
    × (ended.calls ≡ end_process sent exits)
