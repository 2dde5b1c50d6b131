-- ===== src/Flitrpc/Frame.antt =====
-- server/flitrpc/flitrpc.go: the header, ReadFrame and writeRaw.
-- The encoding of the metadata is msgpack's: `decode` is a parameter.
pub mod RoundTrip
pub mod Shrinks
use flit_el.Prelude.{
  ℕ, ◌+◌, ◌*◌, ◌/◌, ◌%◌, ◌<◌, ◌≤◌, ◌≡◌, refl, Bool, Option, none, some, List, [], ◌∷◌, ◌++◌, arith,
  Bytes, Text, take, drop, length, is_empty, leb, ltb, if◌then◌else◌,
}
use flit_el.Prelude.Int64.{ℤ}
use flit_el.Prelude.Results.{Result, ok, err, wrap, ◌>>=◌}
use flit_el.Flitrpc.Sink.{Action, write, skip, ◌>>◌}

abbrev pub header_size : ℕ
header_size = 8

-- ErrorInfo
pub record ErrorInfo : Type 0 where
  pub code : ℤ
  pub message : Text

-- Meta; `Value` stands for the values that msgpack decodes to.
pub record Meta (Value : Type 0) : Type 0 where
  pub type : ℤ
  pub id : ℤ
  pub method : Text
  pub params : Bytes
  pub result : Option Value
  pub error : Option ErrorInfo

pub record Frame (M : Type 0) : Type 0 where
  pub meta : M
  pub payload : Bytes

pub data ReadError : Type 0 where
  eof unexpected_eof : ReadError

pub data FrameError : Type 0 where
  header reading_meta reading_payload : ReadError → FrameError
  decoding_meta : FrameError

-- io.ReadFull(r, buf) with len(buf) = n, on a reader that has the bytes `r` left
unfoldable pub read_full : ℕ → Bytes → Result ReadError (Bytes × Bytes)
read_full n r =
    if leb n (length r)
    then ok (take n r, drop n r)
    else if is_empty r
    then err eof
    else err unexpected_eof

-- binary.BigEndian.Uint32
unfoldable pub get_uint32 : Bytes → ℕ
get_uint32 (a ∷ b ∷ c ∷ d ∷ r) = a * 16777216 + b * 65536 + c * 256 + d
get_uint32 r = 0

-- binary.BigEndian.PutUint32
unfoldable pub put_uint32 : ℕ → Bytes
put_uint32 v = v / 16777216 % 256 ∷ v / 65536 % 256 ∷ v / 256 % 256 ∷ v % 256 ∷ []

module _ {M : Type 0} (decode : Bytes → Option M) where
  -- msgpack.Unmarshal(metaBuf, &meta)
  unfoldable pub unmarshal : Bytes → Result FrameError M
  unmarshal b = elim (decode b) [ none ↦ err decoding_meta | some m ↦ ok m ]

  read_payload : ℕ → Bytes → Result FrameError (Bytes × Bytes)
  read_payload n r = if ltb 0 n then wrap reading_payload (read_full n r) else ok ([], r)

  -- ReadFrame, with the bytes that it leaves in the reader
  unfoldable pub read_frame : Bytes → Result FrameError (Frame M × Bytes)
  unfolding unmarshal read_payload
  read_frame r = do
    (hdr, r) ← wrap header (read_full header_size r)
    let meta_len = get_uint32 (take 4 hdr)
    let payload_len = get_uint32 (drop 4 hdr)
    (meta_buf, r) ← wrap reading_meta (read_full meta_len r)
    meta ← unmarshal meta_buf
    (payload, r) ← read_payload payload_len r
    ok (record { meta = meta; payload = payload }, r)

abbrev u32_mod : ℕ
u32_mod = 4294967296

-- The header that writeRaw builds: both lengths are cut to 32 bits.
unfoldable pub frame_header : Bytes → Bytes → Bytes
unfolding put_uint32
frame_header meta_buf payload =
    put_uint32 (length meta_buf % u32_mod) ++ put_uint32 (length payload % u32_mod)

-- (*Writer).writeRaw; the mutex is held throughout, so a frame is written as one step
unfoldable pub write_raw : Bytes → Bytes → Action
write_raw meta_buf payload =
    write (frame_header meta_buf payload)
    >> write meta_buf
    >> (if is_empty payload then skip else write payload)
