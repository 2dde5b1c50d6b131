-- ===== src/Flitrpc/Tiny.antt =====
-- A codec that encodes the type, the id and the method of a message, in place of msgpack.
use flit_el.Prelude.{
  ℕ, zero, suc, ◌<◌, ◌≡◌, refl, sym, ap, ◌∙◌, Option, none, some, [], ◌∷◌, ◌++◌, arith, Bytes, Text,
  length,
}
use flit_el.Prelude.Int64.{ℤ, pos, negsuc}
use flit_el.Flitrpc.Frame.{Meta}
use flit_el.Flitrpc.Chunk.{OutMeta, request, notification}
use flit_el.Flitrpc.Codec.{Codec, type_of, id_of}

abbrev pub int_bytes : ℤ → Bytes
int_bytes (pos n) = 0 ∷ n ∷ []
int_bytes (negsuc n) = 1 ∷ n ∷ []

abbrev pub method_of : {Value : Type 0} → OutMeta Value → Text
method_of (request id m p) = m
method_of (notification id m p c) = m
method_of o = []

-- The type, the id and the method.
abbrev pub tiny_encode : OutMeta Unit → Option Bytes
tiny_encode o = some (int_bytes (type_of o) ++ int_bytes (id_of o) ++ method_of o)

abbrev pub tiny_meta : ℤ → ℤ → Text → Meta Unit
tiny_meta t id m = record {
  type = t;
  id = id;
  method = m;
  params = [];
  result = none;
  error = none;
}

abbrev pub int_of : ℕ → ℕ → ℤ
int_of zero n = pos n
int_of (suc k) n = negsuc n

abbrev pub tiny_decode : Bytes → Option (Meta Unit)
tiny_decode (s ∷ t ∷ s' ∷ n ∷ m) = some (tiny_meta (int_of s t) (int_of s' n) m)
tiny_decode b = none

tiny_decode_bytes :
    (t id : ℤ) (m : Text) → tiny_decode (int_bytes t ++ int_bytes id ++ m) ≡ some (tiny_meta t id m)
tiny_decode_bytes (pos t) (pos n) m = refl
tiny_decode_bytes (pos t) (negsuc n) m = refl
tiny_decode_bytes (negsuc t) (pos n) m = refl
tiny_decode_bytes (negsuc t) (negsuc n) m = refl

abbrev decode_some : Option Bytes → Option (Meta Unit)
decode_some none = none
decode_some (some b) = tiny_decode b

pub tiny-decode-encode :
    (o : OutMeta Unit) (b : Bytes)
    → tiny_encode o ≡ some b
    → (m : Meta Unit) × (tiny_decode b ≡ some m) × (m.type ≡ type_of o) × (m.id ≡ id_of o)
tiny-decode-encode o b e = (
  tiny_meta (type_of o) (id_of o) (method_of o),
  ap decode_some (sym e) ∙ tiny_decode_bytes (type_of o) (id_of o) (method_of o),
  refl,
  refl,
)

pub tiny_short : (t : ℕ) (id : ℤ) → length (0 ∷ t ∷ int_bytes id ++ []) < 4294967296
tiny_short t (pos n) = omega arith
tiny_short t (negsuc n) = omega arith

abbrev pub tiny : Codec Unit
tiny = record {
  encode = tiny_encode;
  decode = tiny_decode;
  decode-encode = tiny-decode-encode;
  continue_encodes = λ id. (0 ∷ 4 ∷ int_bytes id ++ [], refl, tiny_short 4 id);
  end_encodes = λ id. (0 ∷ 5 ∷ int_bytes id ++ [], refl, tiny_short 5 id);
}
