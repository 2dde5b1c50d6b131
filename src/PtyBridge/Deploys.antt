-- ===== src/PtyBridge/Deploys.antt =====
-- The transfer of the binary by handleDeploy: server/cmd_pty_bridge.go.
use flit_el.Prelude.{
  ℕ, suc, ◌≡◌, refl, ◌∙◌, ap, arith, true, false, some, List, [], ◌∷◌, ◌++◌, Text, ◌==◌, nat_eq,
  codes, length, take-append, drop-append, length-append, leb-true,
}
use mathlib.Core.Path.{subst}
use flit_el.Prelude.Results.{ok}
use flit_el.Prelude.Int64.{pos}
use flit_el.FsHandler.Io.{go_on}
use flit_el.PtyBridge.Junk.{has_part}
use flit_el.PtyBridge.Auth.{
  Json, Bridge, line_length, read_line, or_fail, positive, write_client, write_pty, wait_in,
  wait_deploy_ready, copy_n, size_line, transfer, handle_deploy,
}

-- None of the reads holds the signal.
abbrev pub NoSignal : List Text → Type 0
NoSignal [] = Unit
NoSignal (r ∷ rs) = (has_part r (codes "deploy_ready") ≡ false) × NoSignal rs

wait_in-append :
    (rs : List Text) (r : Text) (more : List Text) (b : Bridge)
    → NoSignal rs
    → has_part r (codes "deploy_ready") ≡ true
    → wait_in (rs ++ (r ∷ more)) b ≡ (ok tt, record b { reads = more })
unfolding wait_in
wait_in-append [] r more b q p = rw p
wait_in-append (x ∷ rs) r more b (px, q) p = rw (px, wait_in-append rs r more b q p)

-- A text in which no line ends.
abbrev pub OneLine : Text → Type 0
OneLine [] = Unit
OneLine (c ∷ s) = ((c == 10) ≡ false) × OneLine s

line_length-append :
    (s t : Text) → OneLine s → line_length ((s ++ (10 ∷ [])) ++ t) ≡ some (length (s ++ (10 ∷ [])))
unfolding line_length
line_length-append [] t h = refl
line_length-append (c ∷ s) t (p, h) = rw (p, line_length-append s t h) (ap some (omega arith))

read_line-append :
    (message s t : Text) (b : Bridge)
    → OneLine s
    → read_line message (record b { client = (s ++ (10 ∷ [])) ++ t })
      ≡ (ok (s ++ (10 ∷ [])), record b { client = t })
unfolding read_line
read_line-append message s t b h =
    rw (line_length-append s t h, read_line)
      (rw (take-append (s ++ (10 ∷ [])) t, drop-append (s ++ (10 ∷ [])) t))

copy_n-append :
    (n : ℕ) (binary later : Text) (b : Bridge)
    → length binary ≡ n
    → copy_n n (record b { client = binary ++ later; pty_open = true })
      ≡ (ok tt, record b { client = later; pty_open = true; to_pty = b.to_pty ++ binary })
unfolding copy_n
copy_n-append n binary later b e =
    subst
      (λ k.
        copy_n k (record b { client = binary ++ later; pty_open = true })
        ≡ (ok tt, record b { client = later; pty_open = true; to_pty = b.to_pty ++ binary }))
      e
      (rw
        (
          leb-true (length binary) (length (binary ++ later))
              (omega (arith, length-append binary later)),
          take-append binary later,
          drop-append binary later,
        )
        refl)

module _ (j : Json) where
  -- Where the client and the terminal can be written to, the client answers with a line that says the
  -- size of the binary, and then sends the binary, and a read of the terminal holds the signal,
  -- handleDeploy succeeds: the client is sent the
  -- request's line, the terminal gets the size as a line and then exactly the binary, and what the
  -- client sends after that is left for the copying.
  pub binary_deployed :
      (line answer binary later : Text) (n : ℕ) (rs : List Text) (r : Text) (more : List Text)
      (to_client to_pty : Text)
      → OneLine answer
      → j.deploy_size_of (answer ++ (10 ∷ [])) ≡ some (pos (suc n))
      → length binary ≡ suc n
      → NoSignal rs
      → has_part r (codes "deploy_ready") ≡ true
      → handle_deploy j line (record {
        reads = rs ++ (r ∷ more);
        client = (answer ++ (10 ∷ [])) ++ (binary ++ later);
        client_open = true;
        pty_open = true;
        to_client = to_client;
        to_pty = to_pty;
      })
        ≡ (
          ok tt,
          record {
            reads = more;
            client = later;
            client_open = true;
            pty_open = true;
            to_client = to_client ++ (line ++ (10 ∷ []));
            to_pty = to_pty ++ size_line (suc n) ++ binary;
          },
        )
  unfolding handle_deploy transfer write_client or_fail positive write_pty wait_deploy_ready
  binary_deployed line answer binary later n rs r more to_client to_pty h size len q p =
      let relayed : Bridge = record {
        reads = rs ++ (r ∷ more);
        client = [];
        client_open = true;
        pty_open = true;
        to_client = to_client ++ (line ++ (10 ∷ []));
        to_pty = to_pty;
      } in
      let sized : Bridge = record relayed {
        client = binary ++ later;
        to_pty = to_pty ++ size_line (suc n);
      } in
      let response =
        read_line-append (codes "failed to read deploy response") answer (binary ++ later) relayed
          h in
      ap (λ x. go_on x (transfer j)) response
      ∙ rw (size, transfer)
          (ap (λ x. go_on x (λ _. copy_n (suc n))) (wait_in-append rs r more sized q p)
            ∙ copy_n-append (suc n) binary later (record sized { reads = more }) len)
