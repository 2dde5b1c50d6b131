-- ===== src/Logging/Tests.antt =====
-- Log records through the handlers of server/server/log.go.
use flit_el.Prelude.{◌≡◌, refl, some, [], ◌∷◌, ℕ, codes, text_eq, text_beq}
use flit_el.Prelude.GoMap.{insert, erase}
use flit_el.Prelude.Int64.{pos, negsuc}
use flit_el.Logging.{LogRecord, discard, new_rpc_log_handler, with_attrs, with_group, multi_handle}

abbrev debug_record : LogRecord ℕ
debug_record = record {
  time = [];
  level = negsuc 3;
  message = codes "m";
  attrs = (codes "k", 2) ∷ [];
}

-- A record below the level of a handler is not sent by it, and a record's attribute takes the place
-- of a handler's with its key.
below_level :
    multi_handle debug_record (
      new_rpc_log_handler (pos 0)
      ∷ discard
      ∷ with_group (codes "g") (with_attrs ((codes "k", 1) ∷ []) (new_rpc_log_handler (negsuc 3)))
      ∷ [])
    ≡ record { time = []; level = negsuc 3; msg = codes "m"; attrs = some ((codes "k", 2) ∷ []) }
      ∷ []
unfolding multi_handle insert erase text_eq text_beq new_rpc_log_handler with_attrs with_group
below_level = refl
