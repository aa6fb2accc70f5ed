-- ===== src/Server/ErrorHandler/ReplyHeader.antt =====
-- The header of the error handler's response.
use grpcx.Common.{String, ◌≡◌, ◌∙◌, true, string_equality, eq_iff, arith, Bool-cases, inl, inr, ◌≢◌}
use grpcx.Platform.{Platform, is_unauthenticated}
use grpcx.Errs.{FromError}
use grpcx.Http.{
  HttpHeader, header_set, header_get, header_del, header_get-header_set, header_get-header_del,
}
use grpcx.Server.ErrorHandler.{Marshaler, reply_header}

module _ (P : Platform) (canonical : String → String) (domain : String) (F : FromError P domain)
    (mar : Marshaler P) where
  open P use {Any, sprint, of_string, Status, Err, code_of, message_of, details_of, Encodable}
  open mar use {content_type, marshal, http_status_from_code}

  module _ (d1 : canonical "Content-Type" ≢ canonical "Trailer")
      (d2 : canonical "Content-Type" ≢ canonical "Transfer-Encoding")
      (d3 : canonical "WWW-Authenticate" ≢ canonical "Trailer")
      (d4 : canonical "WWW-Authenticate" ≢ canonical "Transfer-Encoding")
      (d5 : canonical "WWW-Authenticate" ≢ canonical "Content-Type") where
    abbrev typed : HttpHeader → String → HttpHeader
    typed h v =
        header_set canonical
          (header_del canonical (header_del canonical h "Trailer") "Transfer-Encoding")
          "Content-Type" v

    typed_lem :
        (h : HttpHeader) (v : String)
        → (header_get canonical (typed h v) "Trailer" ≡ "")
          × (header_get canonical (typed h v) "Transfer-Encoding" ≡ "")
          × (header_get canonical (typed h v) "Content-Type" ≡ v)
    typed_lem h v =
        let h1 : HttpHeader = header_del canonical h "Trailer" in
        let h2 : HttpHeader = header_del canonical h1 "Transfer-Encoding" in
        (
          ground (
            arith,
            header_get-header_set canonical h2 "Content-Type" "Trailer" v,
            header_get-header_del canonical h1 "Transfer-Encoding" "Trailer",
            header_get-header_del canonical h "Trailer" "Trailer",
            eq_iff (canonical "Content-Type") (canonical "Trailer"),
            eq_iff (canonical "Trailer") (canonical "Trailer"),
          ),
          ground (
            arith,
            header_get-header_set canonical h2 "Content-Type" "Transfer-Encoding" v,
            header_get-header_del canonical h1 "Transfer-Encoding" "Transfer-Encoding",
            eq_iff (canonical "Content-Type") (canonical "Transfer-Encoding"),
            eq_iff (canonical "Transfer-Encoding") (canonical "Transfer-Encoding"),
          ),
          ground (
            arith,
            header_get-header_set canonical h2 "Content-Type" "Content-Type" v,
            eq_iff (canonical "Content-Type") (canonical "Content-Type"),
          ),
        )

    www_lem :
        (h : HttpHeader) (k v : String)
        → canonical "WWW-Authenticate" ≢ canonical k
        → header_get canonical (header_set canonical h "WWW-Authenticate" v) k
          ≡ header_get canonical h k
    www_lem h k v d = ground (
      arith,
      header_get-header_set canonical h "WWW-Authenticate" k v,
      eq_iff (canonical "WWW-Authenticate") (canonical k),
    )

    pub reply_header_lem :
        (s : Status) (h : HttpHeader)
        → let out : HttpHeader = reply_header P canonical domain F mar s h in
          (header_get canonical out "Trailer" ≡ "")
          × (header_get canonical out "Transfer-Encoding" ≡ "")
          × (header_get canonical out "Content-Type" ≡ content_type s)
          × (is_unauthenticated (code_of s) ≡ true
              → header_get canonical out "WWW-Authenticate" ≡ "Unauthorized")
    reply_header_lem s h = elim (Bool-cases (is_unauthenticated (code_of s))) [
      | inl refused ↦
          let t : HttpHeader = typed h (content_type s) in
          let (a, b, c) = typed_lem h (content_type s) in
          rw refused (
            www_lem t "Trailer" "Unauthorized" d3 ∙ a,
            www_lem t "Transfer-Encoding" "Unauthorized" d4 ∙ b,
            www_lem t "Content-Type" "Unauthorized" d5 ∙ c,
            λ e. ground (
              arith,
              header_get-header_set canonical t "WWW-Authenticate" "WWW-Authenticate"
                  "Unauthorized",
              eq_iff (canonical "WWW-Authenticate") (canonical "WWW-Authenticate"),
            ),
          )
      | inr other ↦
          let (a, b, c) = typed_lem h (content_type s) in rw other (a, b, c, λ e. absurd (cc))
    ]
