-- ===== src/Flitrpc/Codec.antt =====
-- The metadata codec, github.com/vmihailenco/msgpack, as an interface. `Value` stands for Go's
-- `any` where it is encoded.
use flit_el.Prelude.{◌<◌, ◌≡◌, Option, some, Bytes, length}
use flit_el.Prelude.Int64.{ℤ, pos}
use flit_el.Flitrpc.Frame.{Meta}
use flit_el.Flitrpc.Chunk.{
  OutMeta, request, response, error_response, notification, chunk_continue, chunk_end,
}

abbrev pub type_request : ℤ
type_request = pos 1

abbrev pub type_response : ℤ
type_response = pos 2

abbrev pub type_notification : ℤ
type_notification = pos 3

abbrev pub type_chunk_continue : ℤ
type_chunk_continue = pos 4

abbrev pub type_chunk_end : ℤ
type_chunk_end = pos 5

-- The "t" and "id" entries of each map that the server encodes.
abbrev pub type_of : {Value : Type 0} → OutMeta Value → ℤ
type_of (request id m p) = type_request
type_of (response id r c) = type_response
type_of (error_response id c m) = type_response
type_of (notification id m p c) = type_notification
type_of (chunk_continue id) = type_chunk_continue
type_of (chunk_end id) = type_chunk_end

abbrev pub id_of : {Value : Type 0} → OutMeta Value → ℤ
id_of (request id m p) = id
id_of (response id r c) = id
id_of (error_response id c m) = id
id_of (notification id m p c) = id
id_of (chunk_continue id) = id
id_of (chunk_end id) = id

-- What is relied on: a map that encodes is decoded with its type and its id, and the map of a
-- chunk, which holds two integers, always encodes, in a few bytes.
pub record Codec (Value : Type 0) : Type 0 where
  pub encode : OutMeta Value → Option Bytes
  pub decode : Bytes → Option (Meta Value)
  pub decode-encode :
      (o : OutMeta Value) (b : Bytes)
      → encode o ≡ some b
      → (m : Meta Value) × (decode b ≡ some m) × (m.type ≡ type_of o) × (m.id ≡ id_of o)
  pub continue_encodes :
      (id : ℤ) → (b : Bytes) × (encode (chunk_continue id) ≡ some b) × (length b < 4294967296)
  pub end_encodes :
      (id : ℤ) → (b : Bytes) × (encode (chunk_end id) ≡ some b) × (length b < 4294967296)
