-- ===== src/Flitrpc/Chunk/RoundTrip.antt =====
-- How a reader takes the frames of a stream, and those of a chunked message among the frames of other
-- messages: server/flitrpc/flitrpc.go.
use flit_el.Prelude.{
  ◌<◌, ◌≡◌, ap, ◌∙◌, Option, some, List, [], ◌∷◌, ◌++◌, Bytes, length, ◌==◌, if◌then◌else◌,
}
use mathlib.Core.List.{append_assoc}
use flit_el.Prelude.Int64.{ℤ, int_eq}
use flit_el.Prelude.Results.{ok}
use flit_el.Flitrpc.Frame.{Frame, read_frame}
use flit_el.Flitrpc.Frame.RoundTrip.{frame_bytes, read_frame-frame_bytes}
use flit_el.Flitrpc.Chunk.Frames.{RawFrame, stream}

-- Reading frame after frame from `r` gives `fs` and leaves `rest`.
pub data Reads {M : Type 0} (decode : Bytes → Option M)
    : Bytes → List (Frame M) → Bytes → Type 0 where
  stop : {r : Bytes} → Reads decode r [] r
  read :
      {r s rest : Bytes} {f : Frame M} {fs : List (Frame M)}
      → read_frame decode r ≡ ok (f, s)
      → Reads decode s fs rest
      → Reads decode r (f ∷ fs) rest

-- The frames `fs` are what the raw frames decode to, and their lengths fit the header.
pub data Decodes {M : Type 0} (decode : Bytes → Option M)
    : List RawFrame → List (Frame M) → Type 0 where
  nothing : Decodes decode [] []
  frame :
      {b p : Bytes} {m : M} {raws : List RawFrame} {fs : List (Frame M)}
      → decode b ≡ some m
      → length b < 4294967296
      → length p < 4294967296
      → Decodes decode raws fs
      → Decodes decode ((b, p) ∷ raws) (record { meta = m; payload = p } ∷ fs)

-- Three lists of which the last has the elements of the first two, each in their order.
pub data Shuffle {A : Type 0} : List A → List A → List A → Type 0 where
  finished : Shuffle [] [] []
  left : {a : A} {xs ys zs : List A} → Shuffle xs ys zs → Shuffle (a ∷ xs) ys (a ∷ zs)
  right : {a : A} {xs ys zs : List A} → Shuffle xs ys zs → Shuffle xs (a ∷ ys) (a ∷ zs)

module _ {M : Type 0} (decode : Bytes → Option M) where
  -- Frames that are written one after the other are read back as they were, to the last byte.
  pub Reads-stream :
      (raws : List RawFrame) (fs : List (Frame M)) (rest : Bytes)
      → Decodes decode raws fs
      → Reads decode (stream raws ++ rest) fs rest
  Reads-stream raws fs rest nothing = stop
  Reads-stream raws fs rest (frame {b = b} {p = p} {m = m} {raws = more} {fs = gs} e h k d) =
      read
        (ap (read_frame decode) (append_assoc (frame_bytes b p) (stream more) rest)
          ∙ read_frame-frame_bytes decode b p (stream more ++ rest) m e h k)
        (Reads-stream more gs rest d)

  module _ (id_of : M → ℤ) where
    -- The payloads of the frames with an id, joined: what a receiver takes a message to be.
    abbrev pub received : ℤ → List (Frame M) → Bytes
    received id [] = []
    received id (f ∷ fs) = (if id_of f.meta == id then f.payload else []) ++ received id fs
