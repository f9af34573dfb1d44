-- ===== src/Rpc/Frames.antt =====
-- The frame of a request or a response.
use agent_transport.Base.{
  ℕ, ◌≡◌, ap, some, List, length, All, arith, ltb, ltb→le, Bool-cases, inl, inr,
}
use agent_transport.Base.Bytes.{IsByte, IsU64, le_bytes, from_le_bytes-le_bytes, le_bytes-slice}
use mathlib.Core.Option.{some-injective}
use agent_transport.Rpc.{encode_frame, decode_frame}

-- A frame decodes to the request number and the body that it was made of, if the number fits u64.
pub decode_frame-encode_frame :
    (rpc_id : ℕ) (body : List ℕ)
    → IsU64 rpc_id
    → decode_frame (encode_frame rpc_id body) ≡ some (rpc_id, body)
unfolding decode_frame encode_frame le_bytes
decode_frame-encode_frame rpc_id body id = ground (arith, from_le_bytes-le_bytes 8 rpc_id)

-- Bytes that decode to a request number and a body are the frame of these.
pub encode_frame-decode_frame :
    (frame : List ℕ) (rpc_id : ℕ) (body : List ℕ)
    → All IsByte frame
    → decode_frame frame ≡ some (rpc_id, body)
    → encode_frame rpc_id body ≡ frame
unfolding decode_frame encode_frame
encode_frame-decode_frame frame rpc_id body bytes e = elim (Bool-cases (ltb (length frame) 8)) [
  | inl short ↦ cc (rw short at e)
  | inr long ↦
      let same = some-injective _ (rpc_id, body) (rw long at e) in
      rw (← ap (λ r. r.0) same, ← ap (λ r. r.1) same)
        (le_bytes-slice 0 8 frame bytes (ltb→le _ _ long))
]
