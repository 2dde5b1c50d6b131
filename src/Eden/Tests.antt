-- ===== src/Eden/Tests.antt =====
-- Looking for an EdenFS root above a path in memory: server/eden/eden.go.
use flit_el.Prelude.{◌≡◌, refl, [], ◌∷◌, codes, text_eq, text_beq}
use flit_el.Prelude.GoMap.{lookup, insert, erase}
use flit_el.Prelude.Int64.{pos}
use flit_el.FsHandler.Memory.{Disk}
use flit_el.Eden.{new_eden_watcher, ensure_watching}

abbrev disk : Disk
disk = record { files = []; clock = record { sec = pos 0; nsec = 0 } }

watched_once :
    (ensure_watching (codes "/e") (ensure_watching (codes "/e") new_eden_watcher)).started
    ≡ codes "/e" ∷ []
unfolding ensure_watching new_eden_watcher lookup insert erase text_eq text_beq
watched_once = refl
