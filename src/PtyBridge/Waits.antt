-- ===== src/PtyBridge/Waits.antt =====
-- What the bridge makes of reads that hold no prompt each: server/cmd_pty_bridge.go.
use flit_el.Prelude.{
  ℕ, suc, ◌≡◌, refl, ◌∙◌, ap, sym, true, false, List, [], ◌∷◌, ◌++◌, Text, codes, length,
}
use mathlib.Core.List.{append_assoc, append-nil}
use flit_el.Prelude.Results.{ok, err}
use flit_el.FsHandler.Io.{go_on}
use flit_el.PtyBridge.Junk.{is_password_prompt}
use flit_el.PtyBridge.Auth.{
  Json, Bridge, ready, nothing, read_pty, read_from, after_read, scan_lines, split_lines, auth_loop,
  forward, write_client, open_bridge, handle_auth_and_wait_for_ready,
}

abbrev pub concat : List Text → Text
concat [] = []
concat (r ∷ rs) = r ++ concat rs

-- A round for each of the reads, and one more.
abbrev rounds : List Text → ℕ → ℕ
rounds [] fuel = suc fuel
rounds (r ∷ rs) fuel = suc (rounds rs fuel)

module _ (j : Json) where
  -- No read is a prompt, and what has been read says nothing after any of them.
  abbrev pub Quiet : Text → List Text → Type 0
  Quiet pending [] = Unit
  Quiet pending (r ∷ rs) =
      (is_password_prompt r ≡ false)
      × (scan_lines j (split_lines (pending ++ r)) ≡ nothing)
      × Quiet (pending ++ r) rs

  -- One read is taken.
  one_read :
      (fuel : ℕ) (pending r : Text) (rs : List Text) (b : Bridge)
      → b.reads ≡ r ∷ rs
      → auth_loop j (suc fuel) pending b
        ≡ after_read j (auth_loop j fuel) pending r (record b { reads = rs })
  unfolding auth_loop read_pty read_from
  one_read fuel pending r rs b e =
      ap (λ (x : List Text). go_on (read_from x b) (after_read j (auth_loop j fuel) pending)) e

  quiet_round :
      (fuel : ℕ) (pending r : Text) (rs : List Text) (b : Bridge)
      → b.reads ≡ r ∷ rs
      → is_password_prompt r ≡ false
      → scan_lines j (split_lines (pending ++ r)) ≡ nothing
      → auth_loop j (suc fuel) pending b ≡ auth_loop j fuel (pending ++ r) (record b { reads = rs })
  unfolding after_read
  quiet_round fuel pending r rs b e p s =
      one_read fuel pending r rs b e ∙ rw (p, after_read) (rw s refl)

  loop_unseen :
      (rs : List Text) (pending : Text) (b : Bridge)
      → b.reads ≡ rs
      → Quiet pending rs
      → auth_loop j (suc (length rs)) pending b
        ≡ (err (codes "read error"), record b { reads = [] })
  unfolding auth_loop read_pty read_from
  loop_unseen [] pending b e q =
      ap (λ (x : List Text). go_on (read_from x b) (after_read j (auth_loop j 0) pending)) e
  loop_unseen (r ∷ rs) pending b e (p, s, q) =
      quiet_round (suc (length rs)) pending r rs b e p s
      ∙ loop_unseen rs (pending ++ r) (record b { reads = rs }) refl q

  -- Reads of which none holds a prompt by itself, and whose lines say nothing after any of them, end in
  -- the error of a read: nothing is written to the client or to the terminal, whatever the reads hold
  -- together.
  pub split_prompt_missed :
      (b : Bridge)
      → Quiet [] b.reads
      → handle_auth_and_wait_for_ready j b ≡ (err (codes "read error"), record b { reads = [] })
  unfolding handle_auth_and_wait_for_ready
  split_prompt_missed b q = loop_unseen b.reads [] b refl q

  loop_ready :
      (rs : List Text) (r : Text) (more : List Text) (fuel : ℕ) (pending : Text) (b : Bridge)
      → b.reads ≡ rs ++ (r ∷ more)
      → Quiet pending rs
      → is_password_prompt r ≡ false
      → scan_lines j (split_lines (pending ++ (concat rs ++ r))) ≡ ready
      → auth_loop j (rounds rs fuel) pending b
        ≡ (ok (pending ++ (concat rs ++ r)), record b { reads = more })
  unfolding after_read
  loop_ready [] r more fuel pending b e q p s =
      one_read fuel pending r more b e ∙ rw (p, after_read) (rw s refl)
  loop_ready (x ∷ rs) r more fuel pending b e (px, sx, q) p s =
      let joined =
        append_assoc pending x (concat rs ++ r)
        ∙ ap (λ (t : Text). pending ++ t) (sym (append_assoc x (concat rs) r)) in
      quiet_round (rounds rs fuel) pending x (rs ++ (r ∷ more)) b e px sx
      ∙ loop_ready rs r more fuel (pending ++ x) (record b { reads = rs ++ (r ∷ more) }) refl q p
          (ap (λ (t : Text). scan_lines j (split_lines t)) joined ∙ s)
      ∙ ap (λ (t : Text). (ok t, record b { reads = more })) joined

  length-rounds :
      (rs : List Text) (r : Text) (more : List Text)
      → suc (length (rs ++ (r ∷ more))) ≡ rounds rs (suc (length more))
  length-rounds [] r more = refl
  length-rounds (x ∷ rs) r more = ap suc (length-rounds rs r more)

  returns_pending :
      (rs : List Text) (r : Text) (more : List Text) (b : Bridge)
      → b.reads ≡ rs ++ (r ∷ more)
      → Quiet [] rs
      → is_password_prompt r ≡ false
      → scan_lines j (split_lines (concat rs ++ r)) ≡ ready
      → handle_auth_and_wait_for_ready j b ≡ (ok (concat rs ++ r), record b { reads = more })
  unfolding handle_auth_and_wait_for_ready
  returns_pending rs r more b e q p s =
      ap (λ n. auth_loop j n [] b)
        (ap (λ (x : List Text). suc (length x)) e ∙ length-rounds rs r more)
      ∙ loop_ready rs r more (suc (length more)) [] b e q p s

  forward_all :
      (t : Text) (b : Bridge)
      → b.client_open ≡ true
      → forward t b ≡ (ok tt, record b { to_client = b.to_client ++ t })
  unfolding forward write_client
  forward_all [] b e =
      ap (λ (x : Text). (ok tt, record b { to_client = x })) (sym (append-nil b.to_client))
  forward_all (c ∷ t) b e = rw (write_client, e) refl

  -- Where the client can be written to, and after reads that hold no prompt and say nothing, a read that
  -- is no prompt itself and completes a line that says ready ends the wait: the client is sent exactly what was read until
  -- then, and the later reads, what the client sends and the terminal are left as they are.
  pub ready_forwarded :
      (rs : List Text) (r : Text) (more : List Text) (b : Bridge)
      → b.client_open ≡ true
      → b.reads ≡ rs ++ (r ∷ more)
      → Quiet [] rs
      → is_password_prompt r ≡ false
      → scan_lines j (split_lines (concat rs ++ r)) ≡ ready
      → open_bridge j b
        ≡ (ok tt, record b { reads = more; to_client = b.to_client ++ (concat rs ++ r) })
  unfolding open_bridge
  ready_forwarded rs r more b o e q p s =
      ap (λ x. go_on x forward) (returns_pending rs r more b e q p s)
      ∙ forward_all (concat rs ++ r) (record b { reads = more }) o
