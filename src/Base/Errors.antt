-- ===== src/Base/Errors.antt =====
-- Go's error values, the pair (value, error) of a call, and panics.
use Prim.Native.String.{String}

pub data Code : Type 0 where
  canceled internal : Code

-- `message` is an error that the program makes with `errors.New`, `foreign` one that a library
-- returns, `wrapped` is `fmt.Errorf` with `%w`, `status` is `status.Error` of gRPC.
pub data Error : Type 0 where
  eof unexpected_eof key_not_found deadline_exceeded : Error
  message : String → Error
  foreign : String → Error
  wrapped : String → Error → Error
  status : Code → Error → Error

pub data Result {ℓ} (A : Type ℓ) : Type ℓ where
  ok : A → Result A
  err : Error → Result A
