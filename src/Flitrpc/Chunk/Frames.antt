-- ===== src/Flitrpc/Chunk/Frames.antt =====
-- The frames of a chunked message, and writeChunked: server/flitrpc/flitrpc.go.
use flit_el.Prelude.{
  ℕ, zero, suc, ◌<◌, ◌≤◌, ◌≡◌, refl, sym, ap, ◌∙◌, inl, inr, true, false, Option, List, [], ◌∷◌,
  ◌++◌, arith, All, Bytes, take, drop, length, length-take, length-drop, drop_all, is_empty,
  All-append, ltb, if◌then◌else◌, Bool-cases,
}
use mathlib.Core.List.{append-nil, append_assoc}
use mathlib.Core.Path.{subst}
use flit_el.Prelude.Int64.{ℤ}
use flit_el.Flitrpc.Sink.{Emits, Emits-skip, Emits-then}
use flit_el.Flitrpc.Frame.RoundTrip.{frame_bytes, write_raw-Emits}
use flit_el.Flitrpc.Chunk.{
  OutMeta, chunk_continue, chunk_end, chunk_size, next_chunk, encode_or_nil, chunk_loop,
  write_chunked,
}

-- A frame as the pair of its metadata's bytes and its payload.
abbrev pub RawFrame : Type 0
RawFrame = Bytes × Bytes

-- The bytes of frames that follow each other.
abbrev pub stream : List RawFrame → Bytes
stream [] = []
stream ((b, p) ∷ fs) = frame_bytes b p ++ stream fs

is_empty→nil : (p : Bytes) → is_empty p ≡ true → p ≡ []
is_empty→nil [] h = refl
is_empty→nil (x ∷ p) h = cc

-- The payloads of frames, joined.
abbrev pub payloads : List RawFrame → Bytes
payloads [] = []
payloads ((b, p) ∷ fs) = p ++ payloads fs

-- A payload cut into chunks.
unfoldable pub chunks : ℕ → Bytes → List Bytes
chunks zero payload = []
chunks (suc fuel) payload =
    let rest = chunks fuel (drop (length (next_chunk payload)) payload) in
    if is_empty payload then [] else next_chunk payload ∷ rest

abbrev pub with_meta : Bytes → List Bytes → List RawFrame
with_meta b [] = []
with_meta b (c ∷ cs) = (b, c) ∷ with_meta b cs

abbrev pub join : List Bytes → Bytes
join [] = []
join (c ∷ cs) = c ++ join cs

pub length-next_chunk : (p : Bytes) → length (next_chunk p) ≤ 262144
unfolding next_chunk
length-next_chunk p = elim (Bool-cases (ltb chunk_size (length p))) [
  | inl e ↦ rw e (omega (arith, length-take chunk_size p))
  | inr e ↦ rw e (ground arith)
]

take-drop-length {ℓ} :
    {A : Type ℓ} (n : ℕ) (xs : List A) → take n xs ++ drop (length (take n xs)) xs ≡ xs
take-drop-length zero xs = refl
take-drop-length (suc n) [] = refl
take-drop-length (suc n) (x ∷ xs) = ap (◌∷◌ x) (take-drop-length n xs)

pub next_chunk-append-drop : (p : Bytes) → next_chunk p ++ drop (length (next_chunk p)) p ≡ p
unfolding next_chunk
next_chunk-append-drop p = elim (Bool-cases (ltb chunk_size (length p))) [
  | inl e ↦ rw e (take-drop-length chunk_size p)
  | inr e ↦ rw (e, drop_all (length p) p (omega arith), append-nil)
]

next_chunk_pos : (p : Bytes) → is_empty p ≡ false → 0 < length (next_chunk p)
unfolding next_chunk
next_chunk_pos [] h = cc
next_chunk_pos (x ∷ p) h = elim (Bool-cases (ltb chunk_size (length (x ∷ p)))) [
  | inl e ↦ rw e (omega (arith, length-take chunk_size (x ∷ p)))
  | inr e ↦ rw e (omega arith)
]

-- Each round leaves fewer bytes.
rest-le :
    (fuel : ℕ) (p : Bytes)
    → length p ≤ suc fuel
    → is_empty p ≡ false
    → length (drop (length (next_chunk p)) p) ≤ fuel
rest-le fuel p h e = omega (arith, length-drop (length (next_chunk p)) p, next_chunk_pos p e)

-- Enough fuel: the chunks are the whole payload.
pub join-chunks : (fuel : ℕ) (p : Bytes) → length p ≤ fuel → join (chunks fuel p) ≡ p
unfolding chunks
join-chunks zero [] h = refl
join-chunks zero (x ∷ p) h = absurd (omega arith)
join-chunks (suc fuel) p h = elim (Bool-cases (is_empty p)) [
  | inl e ↦ rw e (sym (is_empty→nil p e))
  | inr e ↦
      rw (e, join-chunks fuel (drop (length (next_chunk p)) p) (rest-le fuel p h e))
        (next_chunk-append-drop p)
]

pub chunks_small : (fuel : ℕ) (p : Bytes) → All (λ c. length c ≤ 262144) (chunks fuel p)
unfolding chunks
chunks_small zero p = tt
chunks_small (suc fuel) p = elim (Bool-cases (is_empty p)) [
  | inl e ↦ rw e tt
  | inr e ↦ rw e (length-next_chunk p, chunks_small fuel (drop (length (next_chunk p)) p))
]

pub stream-append : (fs gs : List RawFrame) → stream (fs ++ gs) ≡ stream fs ++ stream gs
stream-append [] gs = refl
stream-append ((b, p) ∷ fs) gs =
    ap (◌++◌ (frame_bytes b p)) (stream-append fs gs)
    ∙ sym (append_assoc (frame_bytes b p) (stream fs) (stream gs))

pub payloads-append : (fs gs : List RawFrame) → payloads (fs ++ gs) ≡ payloads fs ++ payloads gs
payloads-append [] gs = refl
payloads-append ((b, p) ∷ fs) gs = rw (payloads-append fs gs, append_assoc)

pub payloads-with_meta : (b : Bytes) (cs : List Bytes) → payloads (with_meta b cs) ≡ join cs
payloads-with_meta b [] = refl
payloads-with_meta b (c ∷ cs) = rw (payloads-with_meta b cs)

with_meta_small :
    (b : Bytes) (cs : List Bytes)
    → All (λ c. length c ≤ 262144) cs
    → All (λ f. length f.1 ≤ 262144) (with_meta b cs)
with_meta_small b [] h = tt
with_meta_small b (c ∷ cs) h = (h.0, with_meta_small b cs h.1)

module _ {Value : Type 0} (encode : OutMeta Value → Option Bytes) where
  -- The frames of a message: its own metadata with the first chunk, a frame for each other chunk,
  -- and an end.
  abbrev pub chunked_frames : ℤ → Bytes → Bytes → List RawFrame
  chunked_frames id meta_buf payload =
      let rest = drop (length (next_chunk payload)) payload in
      (meta_buf, next_chunk payload)
      ∷ (with_meta (encode_or_nil encode (chunk_continue id)) (chunks (length rest) rest)
          ++ (encode_or_nil encode (chunk_end id), []) ∷ [])

  chunk_loop-Emits :
      (fuel : ℕ) (id : ℤ) (p : Bytes)
      → Emits
          (stream (with_meta (encode_or_nil encode (chunk_continue id)) (chunks fuel p)))
          (chunk_loop encode fuel id p)
  unfolding chunks chunk_loop
  chunk_loop-Emits zero id p = Emits-skip
  chunk_loop-Emits (suc fuel) id p = elim (Bool-cases (is_empty p)) [
    | inl e ↦ rw e Emits-skip
    | inr e ↦ rw e (
        Emits-then _ _ _ _ (write_raw-Emits _ (next_chunk p))
          (chunk_loop-Emits fuel id (drop (length (next_chunk p)) p)))
  ]

  -- writeChunked writes exactly the frames of the message, in order, or a part of their bytes from
  -- the front if the writer fails.
  pub write_chunked-Emits :
      (id : ℤ) (meta_buf payload : Bytes)
      → Emits
          (stream (chunked_frames id meta_buf payload))
          (write_chunked encode id meta_buf payload)
  unfolding write_chunked
  write_chunked-Emits id meta_buf payload =
      let rest = drop (length (next_chunk payload)) payload in
      let middle =
        with_meta (encode_or_nil encode (chunk_continue id)) (chunks (length rest) rest) in
      let last = frame_bytes (encode_or_nil encode (chunk_end id)) [] in
      subst (λ x. Emits x (write_chunked encode id meta_buf payload))
        (append_assoc (frame_bytes meta_buf (next_chunk payload)) (stream middle) last
          ∙ ap (λ (x : Bytes). frame_bytes meta_buf (next_chunk payload) ++ (stream middle ++ x))
              (sym (append-nil last))
          ∙ ap (◌++◌ (frame_bytes meta_buf (next_chunk payload)))
              (sym (stream-append middle ((encode_or_nil encode (chunk_end id), []) ∷ []))))
        (Emits-then _ _ _ _
          (Emits-then _ _ _ _ (write_raw-Emits meta_buf (next_chunk payload))
            (chunk_loop-Emits (length rest) id rest))
          (write_raw-Emits (encode_or_nil encode (chunk_end id)) []))

  -- The payloads of the frames are the payload.
  pub payloads-chunked_frames :
      (id : ℤ) (meta_buf payload : Bytes) → payloads (chunked_frames id meta_buf payload) ≡ payload
  payloads-chunked_frames id meta_buf payload =
      let rest = drop (length (next_chunk payload)) payload in
      let cs = chunks (length rest) rest in
      ap (◌++◌ (next_chunk payload)) (
        payloads-append (with_meta (encode_or_nil encode (chunk_continue id)) cs)
          ((encode_or_nil encode (chunk_end id), []) ∷ [])
        ∙ append-nil (payloads (with_meta (encode_or_nil encode (chunk_continue id)) cs))
        ∙ payloads-with_meta (encode_or_nil encode (chunk_continue id)) cs
        ∙ join-chunks (length rest) rest (omega arith))
      ∙ next_chunk-append-drop payload

  chunked_frames_small :
      (id : ℤ) (meta_buf payload : Bytes)
      → All (λ f. length f.1 ≤ 262144) (chunked_frames id meta_buf payload)
  chunked_frames_small id meta_buf payload =
      let rest = drop (length (next_chunk payload)) payload in
      (
        length-next_chunk payload,
        All-append _
            (with_meta (encode_or_nil encode (chunk_continue id)) (chunks (length rest) rest)) _
            (with_meta_small _ _ (chunks_small (length rest) rest)) (omega arith, tt),
      )

  -- writeChunked writes frames whose payloads, joined, are the payload, and none of which carries more
  -- than 262144 bytes of it: all of them, or a part of their bytes from the front where the writer fails.
  pub write_chunked_bounded :
      (id : ℤ) (meta_buf payload : Bytes)
      → (fs : List RawFrame) × Emits (stream fs) (write_chunked encode id meta_buf payload)
        × (payloads fs ≡ payload)
        × All (λ f. length f.1 ≤ 262144) fs
  write_chunked_bounded id meta_buf payload = (
    chunked_frames id meta_buf payload,
    write_chunked-Emits id meta_buf payload,
    payloads-chunked_frames id meta_buf payload,
    chunked_frames_small id meta_buf payload,
  )
