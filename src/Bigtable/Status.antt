-- ===== src/Bigtable/Status.antt =====
-- The gRPC statuses that the handlers of pkg/bigtable return.
use Prim.Native.String.{String}
use cloudpebble.Base.{ℕ}

pub data Code : Type 0 where
  canceled unknown invalid_argument not_found failed_precondition out_of_range : Code
  unimplemented internal : Code

-- `status.Error(code, message)`; a message made by `%v` of an error has that error as its cause
pub record Status : Type 0 where
  pub code : Code
  pub message : String
  pub cause : String

abbrev pub error : Code → String → Status
error c m = record { code = c; message = m; cause = "" }

abbrev pub errorf : Code → String → String → Status
errorf c m e = record { code = c; message = m; cause = e }

-- What a call returns: a response, or an error.
pub data Result {ℓ} (A : Type ℓ) : Type ℓ where
  ok : A → Result A
  err : Status → Result A

-- the numbers of google.golang.org/grpc/codes, with OK as 0
abbrev pub code_number : Code → ℕ
code_number canceled = 1
code_number unknown = 2
code_number invalid_argument = 3
code_number not_found = 5
code_number failed_precondition = 9
code_number out_of_range = 11
code_number unimplemented = 12
code_number internal = 13
