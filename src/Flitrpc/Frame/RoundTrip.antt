-- ===== src/Flitrpc/Frame/RoundTrip.antt =====
-- writeRaw and ReadFrame together: server/flitrpc/flitrpc.go.
use flit_el.Prelude.{
  ℕ, take, drop, ◌<◌, ◌≡◌, refl, Option, some, [], ◌∷◌, ◌++◌, arith, Bytes, length, length-append,
  take-append, drop-append, is_empty, leb-true, if◌then◌else◌,
}
use mathlib.Core.List.{append_assoc}
use flit_el.Prelude.Results.{ok}
use flit_el.Flitrpc.Sink.{Emits, Emits-write, Emits-skip, Emits-then, skip, write}
use flit_el.Flitrpc.Frame.{
  read_full, get_uint32, put_uint32, unmarshal, read_payload, read_frame, frame_header, write_raw,
  header_size,
}

-- The bytes of one frame.
abbrev pub frame_bytes : Bytes → Bytes → Bytes
frame_bytes meta_buf payload = frame_header meta_buf payload ++ meta_buf ++ payload

frame_bytes-append :
    (b p rest : Bytes) → frame_bytes b p ++ rest ≡ frame_header b p ++ (b ++ (p ++ rest))
frame_bytes-append b p rest = simp append_assoc

pub get-put : (v : ℕ) → v < 4294967296 → get_uint32 (put_uint32 v) ≡ v
unfolding get_uint32 put_uint32
get-put v h = omega arith

pub read_full-append : (xs ys : Bytes) → read_full (length xs) (xs ++ ys) ≡ ok (xs, ys)
unfolding read_full
read_full-append xs ys = rw (
  leb-true (length xs) (length (xs ++ ys)) (omega (arith, length-append xs ys)),
  take-append,
  drop-append,
)

read_full_header :
    (m p ys : Bytes) → read_full header_size (frame_header m p ++ ys) ≡ ok (frame_header m p, ys)
unfolding frame_header
read_full_header m p ys = read_full-append (frame_header m p) ys

fields :
    (m p : Bytes)
    → length m < 4294967296
    → length p < 4294967296
    → (get_uint32 (take 4 (frame_header m p)) ≡ length m)
      × (get_uint32 (drop 4 (frame_header m p)) ≡ length p)
unfolding frame_header get_uint32 put_uint32
fields m p h k = (omega arith, omega arith)

module _ {M : Type 0} (decode : Bytes → Option M) where
  unmarshal-decode : (b : Bytes) (m : M) → decode b ≡ some m → unmarshal decode b ≡ ok m
  unfolding unmarshal
  unmarshal-decode b m e = rw (e, unmarshal)

  read_payload-append : (p rest : Bytes) → read_payload decode (length p) (p ++ rest) ≡ ok (p, rest)
  unfolding read_payload
  read_payload-append [] rest = refl
  read_payload-append (x ∷ p) rest = ground (arith, read_full-append (x ∷ p) rest)

  -- ReadFrame gives back the metadata and the payload of the frame's bytes, and leaves the bytes that
  -- follow, if the lengths of both fit 32 bits and the metadata decodes.
  pub read_frame-frame_bytes :
      (b p rest : Bytes) (m : M)
      → decode b ≡ some m
      → length b < 4294967296
      → length p < 4294967296
      → read_frame decode (frame_bytes b p ++ rest) ≡ ok (record { meta = m; payload = p }, rest)
  unfolding read_frame
  read_frame-frame_bytes b p rest m e h k = rw (
    frame_bytes-append b p rest,
    read_full_header b p (b ++ (p ++ rest)),
    (fields b p h k).0,
    read_full-append b (p ++ rest),
    unmarshal-decode b m e,
    (fields b p h k).1,
    read_payload-append p rest,
  )

payload-Emits : (p : Bytes) → Emits p (if is_empty p then skip else write p)
payload-Emits [] = Emits-skip
payload-Emits (x ∷ p) = Emits-write (x ∷ p)

pub write_raw-Emits : (b p : Bytes) → Emits (frame_bytes b p) (write_raw b p)
unfolding write_raw
write_raw-Emits b p =
    Emits-then _ p _ _ (Emits-then _ b _ _ (Emits-write (frame_header b p)) (Emits-write b))
      (payload-Emits p)
