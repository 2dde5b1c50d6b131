-- ===== src/Flitrpc/Message.antt =====
-- A whole chunked message, from writeChunked to the reader: server/flitrpc/flitrpc.go.
use flit_el.Prelude.{
  ◌<◌, ◌≤◌, ◌≡◌, refl, ◌∙◌, true, false, some, List, [], ◌∷◌, ◌++◌, arith, All, All-append, Bytes,
  drop, length, ◌==◌, ==_self,
}
use flit_el.Prelude.Int64.{ℤ, int_eq}
use flit_el.Flitrpc.Frame.{Frame, Meta}
use flit_el.Flitrpc.Chunk.{
  OutMeta, chunk_continue, chunk_end, encode_or_nil, next_chunk, write_chunked,
}
use flit_el.Flitrpc.Sink.{Emits}
use flit_el.Flitrpc.Chunk.Frames.{
  RawFrame, stream, payloads, chunked_frames, payloads-chunked_frames, with_meta, chunks_small,
  chunks, length-next_chunk, write_chunked-Emits,
}
use flit_el.Flitrpc.Chunk.RoundTrip.{
  Reads, Decodes, nothing, frame, Shuffle, Reads-stream, received, finished, left, right,
}
use flit_el.Flitrpc.Codec.{Codec, id_of}

module _ {Value : Type 0} (c : Codec Value) where
  abbrev DecodesTo : (Meta Value → Type 0) → RawFrame → Type 0
  DecodesTo P f =
      (m : Meta Value) × (c.decode f.0 ≡ some m)
      × P m
      × (length f.0 < 4294967296)
      × (length f.1 < 4294967296)

  -- A frame that the reader takes for one of the message `id`, and one that it does not.
  abbrev pub Belongs : ℤ → RawFrame → Type 0
  Belongs id = DecodesTo (λ m. (m.id == id) ≡ true)

  abbrev pub IsOther : ℤ → RawFrame → Type 0
  IsOther id = DecodesTo (λ m. (m.id == id) ≡ false)

  encode_or_nil-eq :
      (o : OutMeta Value) (b : Bytes) → c.encode o ≡ some b → encode_or_nil c.encode o ≡ b
  unfolding encode_or_nil
  encode_or_nil-eq o b e = rw (e, encode_or_nil)

  -- Frames of a message shuffled with others decode, and the reader collects their payloads.
  collect :
      (id : ℤ) (own other raws : List RawFrame)
      → Shuffle own other raws
      → All (Belongs id) own
      → All (IsOther id) other
      → (fs : List (Frame (Meta Value))) × Decodes c.decode raws fs
        × (received c.decode (λ m. m.id) id fs ≡ payloads own)
  collect id own other raws finished h k = ([], nothing, refl)
  collect id own other raws (left {a = a} {xs = xs} {ys = ys} {zs = zs} s) ((m, e, t, l, l'), h) k =
      let (fs, d, r) = collect id xs ys zs s h k in
      (record { meta = m; payload = a.1 } ∷ fs, frame e l l' d, rw (t, r))
  collect id own other raws (right {a = a} {xs = xs} {ys = ys} {zs = zs} s) h
        ((m, e, t, l, l'), k) =
      let (fs, d, r) = collect id xs ys zs s h k in
      (record { meta = m; payload = a.1 } ∷ fs, frame e l l' d, rw t r)

  Belongs-encode :
      (o : OutMeta Value) (b p : Bytes)
      → c.encode o ≡ some b
      → length b < 4294967296
      → length p ≤ 262144
      → Belongs (id_of o) (b, p)
  Belongs-encode o b p e l k =
      let (m, d, t, i) = c.decode-encode o b e in (m, d, rw i (==_self (id_of o)), l, omega arith)

  with_meta-Belongs :
      (id : ℤ) (b : Bytes) (cs : List Bytes)
      → c.encode (chunk_continue id) ≡ some b
      → length b < 4294967296
      → All (λ p. length p ≤ 262144) cs
      → All (Belongs id) (with_meta b cs)
  with_meta-Belongs id b [] e l h = tt
  with_meta-Belongs id b (p ∷ cs) e l h =
      (Belongs-encode (chunk_continue id) b p e l h.0, with_meta-Belongs id b cs e l h.1)

  tail_Belongs :
      (id : ℤ) (cs : List Bytes)
      → All (λ p. length p ≤ 262144) cs
      → All (Belongs id) (
          with_meta (encode_or_nil c.encode (chunk_continue id)) cs
          ++ (encode_or_nil c.encode (chunk_end id), []) ∷ [])
  tail_Belongs id cs h =
      let (b, e, l) = c.continue_encodes id in
      let (b', e', l') = c.end_encodes id in
      rw (encode_or_nil-eq (chunk_continue id) b e, encode_or_nil-eq (chunk_end id) b' e')
        (All-append (Belongs id) (with_meta b cs) ((b', []) ∷ []) (with_meta-Belongs id b cs e l h)
          (Belongs-encode (chunk_end id) b' [] e' l' (omega arith), tt))

  chunked_Belongs :
      (o : OutMeta Value) (b payload : Bytes)
      → c.encode o ≡ some b
      → length b < 4294967296
      → All (Belongs (id_of o)) (chunked_frames c.encode (id_of o) b payload)
  chunked_Belongs o b payload e l =
      let rest = drop (length (next_chunk payload)) payload in
      (
        Belongs-encode o b (next_chunk payload) e l (length-next_chunk payload),
        tail_Belongs (id_of o) (chunks (length rest) rest) (chunks_small (length rest) rest),
      )

  -- writeChunked writes the frames `own` of a message of some id, whole, or, where the writer fails, a
  -- part of their bytes from the front; and these frames, shuffled with frames of other ids, are read
  -- back one by one, and the payloads of the frames with that id are the payload, whatever its length.
  pub write_chunked-received :
      (o : OutMeta Value) (b payload rest : Bytes) (other raws : List RawFrame)
      → c.encode o ≡ some b
      → length b < 4294967296
      → All (IsOther (id_of o)) other
      → Shuffle (chunked_frames c.encode (id_of o) b payload) other raws
      → Emits
          (stream (chunked_frames c.encode (id_of o) b payload))
          (write_chunked c.encode (id_of o) b payload)
        × ((fs : List (Frame (Meta Value))) × Reads c.decode (stream raws ++ rest) fs rest
            × (received c.decode (λ m. m.id) (id_of o) fs ≡ payload))
  write_chunked-received o b payload rest other raws e l k s =
      let (fs, d, r) = collect (id_of o) _ other raws s (chunked_Belongs o b payload e l) k in
      (
        write_chunked-Emits c.encode (id_of o) b payload,
        (
          fs,
          Reads-stream c.decode raws fs rest d,
          r ∙ payloads-chunked_frames c.encode (id_of o) b payload,
        ),
      )
