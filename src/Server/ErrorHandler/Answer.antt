-- ===== src/Server/ErrorHandler/Answer.antt =====
-- What a client gets for a status and a body that the error handler writes.
use grpcx.Common.{ℕ, String, List, ◌≡◌, Option, none, some, string_equality, arith}
use mathlib.Core.List.{append-nil}
use grpcx.Common.{[], ◌∷◌, ◌++◌, if◌then◌else◌}
use grpcx.Common.Integers.{ℤ, pos, negsuc}
use grpcx.Common.Text.{◌+++◌}
use grpcx.Http.{
  ResponseWriter, write_header, write_body, checked_write_header, is_valid_status, is_informational,
}
use grpcx.Server.ErrorHandler.{fallback_body, answered}

-- The body that is written for what Marshal returns, and the status.
abbrev pub body_for : Option String → String
body_for none = fallback_body
body_for (some buf) = buf

abbrev pub status_for : Option String → ℤ → ℤ
status_for none st = pos 500
status_for (some buf) st = st

-- the status of the response, where the gRPC code has the status `st`
abbrev pub sent_for : Option String → ℕ → ℕ
sent_for none st = 500
sent_for (some buf) st = st

-- What a client gets for a status on a response that has sent none: an informational one is sent ahead,
-- and the body then brings the status 200.
abbrev pub final_status : ℤ → ℕ
final_status (pos code) = if is_informational code then 200 else code
final_status (negsuc n) = 200

abbrev pub sent_ahead : ℤ → List ℕ
sent_ahead (pos code) = if is_informational code then code ∷ [] else []
sent_ahead (negsuc n) = []

-- the response with its status and its body
abbrev pub answer : ResponseWriter → ℤ → String → ResponseWriter
answer w st text = record w {
  informational = w.informational ++ sent_ahead st;
  sent_status = some (final_status st);
  body = w.body +++ text;
}

pub answered_lem :
    (w : ResponseWriter) (st : ℤ) (text : String)
    → w.sent_status ≡ none
    → answered w st text ≡ (if is_valid_status st then some (answer w st text) else none)
unfolding checked_write_header write_header write_body
answered_lem w (negsuc n) text fresh = ground (arith, fresh)
answered_lem w (pos code) text fresh = ground (arith, fresh, append-nil w.informational)
