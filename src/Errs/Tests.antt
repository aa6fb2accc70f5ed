-- ===== src/Errs/Tests.antt =====
-- Instances of the theorems on errors, at an error with two entries of metadata.
use grpcx.Common.{String, [], ◌∷◌, ◌≡◌, refl, some, Map, lookup, string_equality}
use grpcx.Platform.{not_found}
use grpcx.Errs.{Error, foreign, app, grpc_status, parse}
use grpcx.Errs.Metadata.{IsWellFormed}
use grpcx.Errs.Convert.{parse-grpc_status}
use grpcx.Samples.{sample_platform, sample_status_package, SampleStatus, sample_from_error}

abbrev stock_error : Error sample_platform
stock_error = record {
  status_code = not_found;
  code = "ERR_STOCK";
  message = "out of stock";
  metadata = some (("item", "pen") ∷ ("left", "0") ∷ []);
}

stock_error-IsWellFormed : IsWellFormed sample_platform stock_error
unfolding lookup
stock_error-IsWellFormed = (refl, (refl, tt))

abbrev stock_status : SampleStatus
stock_status = grpc_status sample_platform "grpcx" stock_error

status_made : sample_platform.err_of stock_status ≡ some stock_status
unfolding grpc_status
status_made = refl

parse-grpc_status_example :
    parse sample_platform (sample_from_error "grpcx") (foreign stock_status)
    ≡ parse sample_platform (sample_from_error "grpcx") (app stock_error)
parse-grpc_status_example =
    (parse-grpc_status sample_platform "grpcx" (sample_status_package "grpcx") stock_error
      stock_status "left" refl tt stock_error-IsWellFormed status_made).0

abbrev form : Map String String
form = ("name", "required") ∷ []
