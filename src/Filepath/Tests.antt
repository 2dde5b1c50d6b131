-- ===== src/Filepath/Tests.antt =====
-- The functions of path/filepath on the paths that Go documents.
use flit_el.Prelude.{◌≡◌, refl, some, codes, text_beq, text_eq}
use flit_el.Filepath.{clean, dir, base, join, rel}

filepath_tests :
    (clean (codes "/a//b/../c/.") ≡ codes "/a/c")
    × (clean (codes "../a/..") ≡ codes "..")
    × (dir (codes "/a/b") ≡ codes "/a")
    × (dir (codes "/a") ≡ codes "/")
    × (dir (codes "a") ≡ codes ".")
    × (base (codes "/a/b/") ≡ codes "b")
    × (base (codes "//") ≡ codes "/")
    × (join (codes "/a") (codes "b") ≡ codes "/a/b")
    × (rel (codes "/a/b") (codes "/a/b/c/d") ≡ some (codes "c/d"))
    × (rel (codes "/") (codes "/c") ≡ some (codes "c"))
    × (rel (codes "/a/x") (codes "/a/y") ≡ some (codes "../y"))
unfolding clean dir base join rel text_beq text_eq
filepath_tests = (refl, refl, refl, refl, refl, refl, refl, refl, refl, refl, refl)
