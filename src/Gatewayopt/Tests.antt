-- ===== src/Gatewayopt/Tests.antt =====
-- A redirect with a code.
use grpcx.Common.{String, [], ◌∷◌, ◌≡◌, refl, none, some, if◌then◌else◌, str_eq}
use grpcx.Common.Integers.{ℤ, pos}
use grpcx.Common.Result.{Result, success, failure}
use grpcx.Http.{header_set, ResponseWriter}
use grpcx.Gatewayopt.{redirect, redirect_lem}

abbrev as_is : String → String
as_is k = k

abbrev atoi : String → Result String ℤ
atoi s = if str_eq s "308" then success (pos 308) else failure "invalid syntax"

abbrev fresh : ResponseWriter
fresh = record { response_header = []; informational = []; sent_status = none; body = "" }

redirect_308 : redirect as_is atoi (some ("/new" ∷ [], "308" ∷ [])) fresh ≡ (
  record fresh { response_header = header_set as_is [] "Location" "/new"; sent_status = some 308 },
  none,
)
redirect_308 = (redirect_lem as_is atoi fresh "/new" [] [] refl).4 "308" (pos 308) refl
