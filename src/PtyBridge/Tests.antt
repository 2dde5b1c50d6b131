-- ===== src/PtyBridge/Tests.antt =====
-- A session of the bridge with a simple reading of JSON: server/cmd_pty_bridge.go.
use flit_el.Prelude.{
  ◌≡◌, refl, true, none, some, List, [], ◌∷◌, ◌++◌, Text, codes, has_prefix, if◌then◌else◌,
}
use flit_el.Prelude.Results.{ok, err}
use flit_el.Prelude.Int64.{pos}
use flit_el.PtyBridge.Junk.{has_part, strip_pty_junk, is_password_prompt}
use flit_el.PtyBridge.Auth.{
  Json, Bridge, scan_lines, split_lines, open_bridge, handle_deploy, size_line,
  handle_auth_and_wait_for_ready,
}
use flit_el.PtyBridge.Waits.{ready_forwarded, split_prompt_missed}
use flit_el.PtyBridge.Run.{Round, from_client, from_pty}
use flit_el.PtyBridge.Deploys.{binary_deployed}

-- An object is a text that starts with a brace; it has a key if the key stands in it.
abbrev json : Json
json = record {
  Object = Text;
  parse_object = λ t. if has_prefix t (codes "{") then some t else none;
  has_key = λ k t. has_part t k;
  prompt_object = λ p. codes "?" ++ p;
  password_of = λ t. some (some (codes "secret"));
  deploy_size_of = λ t. some (pos 3);
}

abbrev start : List Text → Text → Bridge
start reads client = record {
  reads = reads;
  client = client;
  client_open = true;
  pty_open = true;
  to_client = [];
  to_pty = [];
}

abbrev split_reads : List Text
split_reads = codes "Pass" ∷ codes "word: " ∷ []

abbrev ready_line : Text
ready_line = codes "{flit_ready}" ++ (10 ∷ [])

abbrev greeting : Text
greeting = codes "hi" ++ (10 ∷ [])

junk_stripped :
    strip_pty_junk ((27 ∷ codes "[1;31m {a}") ++ (27 ∷ codes "]0;t") ++ (7 ∷ 13 ∷ [])) ≡ codes "{a}"
unfolding strip_pty_junk
junk_stripped = refl

size_printed : size_line 12345678901 ≡ codes "12345678901" ++ (10 ∷ [])
unfolding size_line
size_printed = refl

prompt_whole : is_password_prompt (codes "Password: ") ≡ true
unfolding is_password_prompt has_prefix
prompt_whole = refl

password_relayed :
    handle_auth_and_wait_for_ready json
      (start (codes "Password: " ∷ ready_line ∷ []) (codes "x" ++ (10 ∷ [])))
    ≡ (
      ok ready_line,
      record {
        reads = [];
        client = [];
        client_open = true;
        pty_open = true;
        to_client = codes "?Password: " ++ (10 ∷ []);
        to_pty = codes "secret" ++ (10 ∷ []);
      },
    )
unfolding handle_auth_and_wait_for_ready has_prefix
password_relayed = refl

split_prompt_missed_example :
    handle_auth_and_wait_for_ready json (start split_reads [])
    ≡ (err (codes "read error"), start [] [])
unfolding is_password_prompt scan_lines split_lines has_prefix
split_prompt_missed_example =
    split_prompt_missed json (start split_reads []) (refl, refl, (refl, refl, tt))

ready_forwarded_example :
    open_bridge json (start (greeting ∷ ready_line ∷ split_reads) [])
    ≡ (ok tt, record (start split_reads []) { to_client = greeting ++ ready_line })
unfolding is_password_prompt scan_lines split_lines has_prefix
ready_forwarded_example =
    ready_forwarded json (greeting ∷ []) ready_line split_reads
      (start (greeting ∷ ready_line ∷ split_reads) []) refl refl (refl, refl, tt) refl refl

-- After the ready signal the client sends two bytes, and the terminal is read until it ends.
abbrev turns : List Round
turns = from_client 2 true ∷ from_pty true ∷ from_pty true ∷ []

binary_deployed_example :
    handle_deploy json
      (codes "{flit_not_found}")
      (start (codes "stty" ∷ codes "deploy_ready" ∷ []) (codes "{3}" ++ (10 ∷ codes "ELFnext")))
    ≡ (
      ok tt,
      record {
        reads = [];
        client = codes "next";
        client_open = true;
        pty_open = true;
        to_client = codes "{flit_not_found}" ++ (10 ∷ []);
        to_pty = size_line 3 ++ codes "ELF";
      },
    )
unfolding has_part has_prefix
binary_deployed_example =
    binary_deployed json (codes "{flit_not_found}") (codes "{3}") (codes "ELF") (codes "next") 2
      (codes "stty" ∷ []) (codes "deploy_ready") [] [] [] (refl, (refl, (refl, tt))) refl refl
      (refl, tt) refl
