-- ===== src/Flitrpc/Chunk.antt =====
-- server/flitrpc/flitrpc.go: writeChunked, which sends a large payload as several frames and lets
-- other messages in between.
pub mod Frames
pub mod RoundTrip
use flit_el.Prelude.{
  ℕ, zero, suc, ◌<◌, ◌≤◌, ◌≡◌, Bool, Option, none, some, List, [], ◌∷◌, Bytes, Text, take, drop,
  length, is_empty, ltb, if◌then◌else◌,
}
use flit_el.Prelude.Int64.{ℤ}
use flit_el.Flitrpc.Sink.{Action, skip, ◌>>◌}
use flit_el.Flitrpc.Frame.{write_raw}

-- The metadata that the server writes, one constructor for each map literal; `Value` stands for
-- Go's `any`. `chunked` says whether that key is set.
pub data OutMeta (Value : Type 0) : Type 0 where
  request : ℤ → Text → Value → OutMeta Value
  response : ℤ → Value → Bool → OutMeta Value
  error_response : ℤ → ℤ → Text → OutMeta Value
  notification : ℤ → Text → Value → Bool → OutMeta Value
  chunk_continue chunk_end : ℤ → OutMeta Value

abbrev pub chunk_size : ℕ
chunk_size = 262144

-- `payload`, or its first chunk if it is longer than one
unfoldable pub next_chunk : Bytes → Bytes
next_chunk payload = if ltb chunk_size (length payload) then take chunk_size payload else payload

module _ {Value : Type 0} (encode : OutMeta Value → Option Bytes) where
  -- `buf, _ := marshalMsgpack(m)`
  unfoldable pub encode_or_nil : OutMeta Value → Bytes
  encode_or_nil m = elim (encode m) [ none ↦ [] | some b ↦ b ]

  -- The loop over the continuation frames. Its fuel is the length of the payload: each round sends
  -- a byte at least.
  unfoldable pub chunk_loop : ℕ → ℤ → Bytes → Action
  chunk_loop zero id payload = skip
  chunk_loop (suc fuel) id payload =
      let rest = chunk_loop fuel id (drop (length (next_chunk payload)) payload) in
      if is_empty payload
      then skip
      else (write_raw (encode_or_nil (chunk_continue id)) (next_chunk payload) >> rest)

  unfoldable pub write_chunked : ℤ → Bytes → Bytes → Action
  write_chunked id meta_buf payload =
      let first = next_chunk payload in
      let rest = drop (length first) payload in
      write_raw meta_buf first
      >> chunk_loop (length rest) id rest
      >> write_raw (encode_or_nil (chunk_end id)) []
