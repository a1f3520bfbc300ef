-- ===== src/StreamAssembly/Frames.antt =====
-- `encodeToolFrameHeader` and `decodeToolFrame`: a big-endian uint32 length, the ToolCallRef, and
-- behind it the argument bytes.
use torana_plugin_sdk.Prelude.{
  ℕ, suc, ◌+◌, ◌||◌, ◌*◌, ◌/◌, ◌%◌, ◌^◌, ◌<◌, false, Bytes, [], ◌∷◌, ◌++◌, ◌≡◌, refl, ap, arith,
  Result, ok, err, ◌>>=◌, length, take, drop, ltb, if◌then◌else◌, take-append, drop-append,
  length-append, is_empty,
}
use torana_plugin_sdk.Proto.Envelope.{ToolCallRef}

-- `binary.BigEndian.PutUint32`, of `uint32(n)`
unfoldable pub put_uint32 : ℕ → Bytes
put_uint32 n = n / 2 ^ 24 % 256 ∷ n / 2 ^ 16 % 256 ∷ n / 2 ^ 8 % 256 ∷ n % 256 ∷ []

-- `binary.BigEndian.Uint32`
unfoldable pub uint32 : ℕ → ℕ → ℕ → ℕ → ℕ
uint32 a b c d = a * 2 ^ 24 + b * 2 ^ 16 + c * 2 ^ 8 + d

pub data FrameError (E : Type 0) : Type 0 where
  shorter_than_prefix header_exceeds_buffer : FrameError E
  -- not an error of the source, which panics there
  slice_out_of_range : FrameError E
  codec : E → FrameError E

module _ {E : Type 0} where
  -- `encodeToolFrameHeader`
  unfoldable pub encode_header : (ToolCallRef → Result E Bytes) → ToolCallRef → Result E Bytes
  unfolding put_uint32
  encode_header marshal ref = marshal ref >>= λ raw. ok (put_uint32 (length raw) ++ raw)

  split_frame : Bytes → Result E ToolCallRef → Result (FrameError E) (ToolCallRef × Bytes)
  split_frame args (ok ref) = ok (ref, args)
  split_frame args (err e) = err (codec e)

  -- `buf[4:4+n]` and `buf[4+n:]`, with the uint32 `stop` for `4+n`
  slice_frame :
      (Bytes → Result E ToolCallRef) → ℕ → Bytes → Result (FrameError E) (ToolCallRef × Bytes)
  unfolding split_frame
  slice_frame unmarshal stop buf =
      if ltb stop 4 || ltb (length buf) stop
      then err slice_out_of_range
      else split_frame (drop stop buf) (unmarshal (drop 4 (take stop buf)))

  -- `decodeToolFrame`: the guard adds in uint64, the slices in uint32.
  unfoldable pub decode_frame :
      (Bytes → Result E ToolCallRef) → Bytes → Result (FrameError E) (ToolCallRef × Bytes)
  unfolding uint32 slice_frame split_frame
  decode_frame unmarshal (a ∷ b ∷ c ∷ d ∷ rest) =
      let n = uint32 a b c d in
      let buf = a ∷ b ∷ c ∷ d ∷ rest in
      if ltb (length buf) ((4 + n) % 2 ^ 64)
      then err header_exceeds_buffer
      else slice_frame unmarshal ((4 + n) % 2 ^ 32) buf
  decode_frame unmarshal _ = err shorter_than_prefix

uint32-put_uint32 :
    (n : ℕ)
    → n < 2 ^ 32
    → uint32 (n / 2 ^ 24 % 256) (n / 2 ^ 16 % 256) (n / 2 ^ 8 % 256) (n % 256) ≡ n
unfolding uint32
uint32-put_uint32 n h = omega arith

-- The end of a frame is no wrapped sum, if it is below 2 ^ 32.
stop_in_range :
    (n : ℕ)
    → 4 + n < 2 ^ 32
    → ((4 + n) % 2 ^ 32 ≡ suc (suc (suc (suc n)))) × ((4 + n) % 2 ^ 64 ≡ suc (suc (suc (suc n))))
stop_in_range n h = (omega arith, omega arith)

module _ {E : Type 0} where
  frame-decodes :
      (unmarshal : Bytes → Result E ToolCallRef) (ref : ToolCallRef) (raw args : Bytes)
      → unmarshal raw ≡ ok ref
      → 4 + length raw < 2 ^ 32
      → decode_frame unmarshal (put_uint32 (length raw) ++ raw ++ args) ≡ ok (ref, args)
  unfolding decode_frame put_uint32 slice_frame split_frame
  frame-decodes unmarshal ref raw args u h =
      let (stop, wide) = stop_in_range (length raw) h in
      rw
        (
          uint32-put_uint32 (length raw) (omega arith),
          stop,
          wide,
          take-append raw args,
          drop-append raw args,
          u,
        )
        (ground (arith, length-append raw args))

  -- A header with argument bytes behind it decodes to the ToolCallRef and those bytes, and is not
  -- empty.
  pub decode_frame-encode_header :
      (marshal : ToolCallRef → Result E Bytes) (unmarshal : Bytes → Result E ToolCallRef)
      → (ref : ToolCallRef) (raw args : Bytes) → marshal ref ≡ ok raw
      → unmarshal raw ≡ ok ref
      → 4 + length raw < 2 ^ 32
      → (header : Bytes) × (encode_header marshal ref ≡ ok header)
        × (is_empty header ≡ false)
        × (decode_frame unmarshal (header ++ args) ≡ ok (ref, args))
  unfolding encode_header put_uint32
  decode_frame-encode_header marshal unmarshal ref raw args m u h = (
    put_uint32 (length raw) ++ raw,
    ap (λ r. r >>= λ x. ok (put_uint32 (length x) ++ x)) m,
    refl,
    frame-decodes unmarshal ref raw args u h,
  )
