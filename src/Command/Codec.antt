-- ===== src/Command/Codec.antt =====
-- command/grpc_codec.go: the codec that is registered for gRPC.
use webcb.Base.{Result, ok, err, message, Bytes, String}

-- A value that is passed to the codec: with the methods of `vtProtoMessage`, else a `proto.Message`,
-- or neither.
pub data Value (V M : Type 0) : Type 0 where
  vt : V → Value V M
  proto : M → Value V M
  other : Value V M

-- `MarshalVT` and `UnmarshalVT`, and `Marshal` and `Unmarshal` of protobuf, which change their target
pub record Library (V M : Type 0) : Type 0 where
  pub marshal_vt : V → Result Bytes
  pub unmarshal_vt : Bytes → V → Result V
  pub marshal_proto : M → Result Bytes
  pub unmarshal_proto : Bytes → M → Result M

abbrev pub name : String
name = "proto"

module _ {V M : Type 0} (library : Library V M) where
  -- `Marshal`; the text of the error also names the type
  unfoldable pub marshal : Value V M → Result Bytes
  marshal (Value.vt v) = library.marshal_vt v
  marshal (Value.proto m) = library.marshal_proto m
  marshal Value.other = err (message "failed to marshal, message is %T, want proto.Message")

  filled : {A : Type 0} → (A → Value V M) → Result A → Result (Value V M)
  filled f (ok a) = ok (f a)
  filled f (err e) = err e

  -- `Unmarshal` into a target, and the target after it
  pub unmarshal : Bytes → Value V M → Result (Value V M)
  unfolding filled
  unmarshal bytes (Value.vt v) = filled Value.vt (library.unmarshal_vt bytes v)
  unmarshal bytes (Value.proto m) = filled Value.proto (library.unmarshal_proto bytes m)
  unmarshal bytes Value.other =
      err (message "failed to unmarshal, message is %T, want proto.Message")
