-- ===== src/Protojson.antt =====
-- grpc/protojson/*.go: the gateway's marshaler and query parser, which mark the errors of those of the
-- gateway runtime.
mod Tests
use grpcx.Common.{
  String, List, [], ◌∷◌, ◌≡◌, refl, ap, Option, none, some, Bool, true, false, ◌||◌, arith,
  Option-cases, inl, inr, ◌∙◌,
}
use grpcx.Common.Text.{◌+++◌}

-- ErrBodyMarshalerPrefix and ErrQueryParserPrefix
pub data Sentinel : Type 0 where
  body_marshaler query_parser : Sentinel

-- an error of the runtime, or one that wraps a sentinel and an error (fmt.Errorf with "%w: %w")
pub data MarkedError (E : Type 0) : Type 0 where
  plain : E → MarkedError E
  marked : Sentinel → MarkedError E → MarkedError E

abbrev pub sentinel_text : Sentinel → String
sentinel_text body_marshaler = "body marshaler"
sentinel_text query_parser = "query parser"

abbrev pub same_sentinel : Sentinel → Sentinel → Bool
same_sentinel body_marshaler body_marshaler = true
same_sentinel query_parser query_parser = true
same_sentinel _ _ = false

-- Error and errors.Is, for a sentinel and for an error of the runtime
abbrev pub marked_text : {E : Type 0} → (E → String) → MarkedError E → String
marked_text text (plain e) = text e
marked_text text (marked s e) = sentinel_text s +++ ": " +++ marked_text text e

abbrev pub is_sentinel : {E : Type 0} → Sentinel → MarkedError E → Bool
is_sentinel t (plain e) = false
is_sentinel t (marked s e) = same_sentinel s t || is_sentinel t e

abbrev pub is_error : {E : Type 0} → (E → Bool) → MarkedError E → Bool
is_error test (plain e) = test e
is_error test (marked s e) = is_error test e

unfoldable pub wrap_body_marshaler_error :
    {E : Type 0} → Option (MarkedError E) → Option (MarkedError E)
wrap_body_marshaler_error none = none
wrap_body_marshaler_error (some err) = some (marked body_marshaler err)

unfoldable pub wrap_body_marshaler_ret_and_error :
    {E T : Type 0} → T × Option (MarkedError E) → T × Option (MarkedError E)
unfolding wrap_body_marshaler_error
wrap_body_marshaler_ret_and_error (ret, err) = (ret, wrap_body_marshaler_error err)

unfoldable pub wrap_query_parser_error :
    {E : Type 0} → Option (MarkedError E) → Option (MarkedError E)
wrap_query_parser_error none = none
wrap_query_parser_error (some err) = some (marked query_parser err)

-- What an error is to the one that it marks: it is there exactly if that is, its text is that with the
-- prefix, and errors.Is finds in it the sentinel and what it finds in the other.
abbrev pub IsMarked :
    {E : Type 0} → Sentinel → Option (MarkedError E) → Option (MarkedError E) → Type 0
IsMarked s none none = Unit
IsMarked s none (some err') = ⊥
IsMarked s (some err) none = ⊥
IsMarked {E} s (some err) (some err') =
    ((text : E → String)
      → marked_text text err' ≡ sentinel_text s +++ ": " +++ marked_text text err)
    × (is_sentinel s err' ≡ true)
    × ((t : Sentinel) → is_sentinel t err ≡ true → is_sentinel t err' ≡ true)
    × ((test : E → Bool) → is_error test err' ≡ is_error test err)

same_sentinel_refl : (s : Sentinel) → same_sentinel s s ≡ true
same_sentinel_refl body_marshaler = refl
same_sentinel_refl query_parser = refl

marked-IsMarked :
    {E : Type 0} (s : Sentinel) (err : MarkedError E) → IsMarked s (some err) (some (marked s err))
marked-IsMarked s err =
    (λ text. refl, ground (arith, same_sentinel_refl s), λ t h. ground (arith, h), λ test. refl)

wrap_body_lem :
    {E : Type 0} (err : Option (MarkedError E))
    → IsMarked body_marshaler err (wrap_body_marshaler_error err)
unfolding wrap_body_marshaler_error
wrap_body_lem none = tt
wrap_body_lem (some err) = marked-IsMarked body_marshaler err

wrap_query_lem :
    {E : Type 0} (err : Option (MarkedError E))
    → IsMarked query_parser err (wrap_query_parser_error err)
unfolding wrap_query_parser_error
wrap_query_lem none = tt
wrap_query_lem (some err) = marked-IsMarked query_parser err

-- the same value, with a marked error
abbrev pub IsMarkedResult :
    {E A : Type 0} → Sentinel → A × Option (MarkedError E) → A × Option (MarkedError E) → Type 0
IsMarkedResult s r r' = (r'.0 ≡ r.0) × IsMarked s r.1 r'.1

module _ (E V Bytes Source Sink : Type 0) where
  -- the results of calls that fill in a value, with the value as it is afterwards
  abbrev pub Filled : Type 0
  Filled = V × Option (MarkedError E)

  -- runtime.Marshaler: a decoder reads from a source, an encoder writes to a sink
  pub record Marshaler : Type 0 where
    pub content_type : V → String
    pub marshal : V → Bytes × Option (MarkedError E)
    pub unmarshal : Bytes → V → Filled
    pub decode : Source → V → Filled
    pub encode : Sink → V → Sink × Option (MarkedError E)

  -- GeaMarshaler around a marshaler, with GeaDecoder and GeaEncoder; the rest is that of the marshaler
  unfoldable pub gea_marshaler : Marshaler → Marshaler
  unfolding wrap_body_marshaler_ret_and_error
  gea_marshaler m = record {
    content_type = m.content_type;
    marshal = λ v. wrap_body_marshaler_ret_and_error (m.marshal v);
    unmarshal = λ bytes v. wrap_body_marshaler_ret_and_error (m.unmarshal bytes v);
    decode = λ source v. wrap_body_marshaler_ret_and_error (m.decode source v);
    encode = λ sink v. wrap_body_marshaler_ret_and_error (m.encode sink v);
  }

  -- GeaQueryParser around a query parser: the message and the error
  unfoldable pub gea_query_parser : {Q : Type 0} → (V → Q → Filled) → V → Q → Filled
  unfolding wrap_query_parser_error
  gea_query_parser parse msg values =
      let (msg', err) = parse msg values in (msg', wrap_query_parser_error err)

  -- The gateway's marshaler and query parser give the values of those that they wrap, and mark their
  -- errors: there is an error exactly if there was one, its text has the prefix "body marshaler: " or
  -- "query parser: ", and errors.Is finds the prefix error and everything that it found before.
  pub gea_marshaler_lem :
      (m : Marshaler) {Q : Type 0} (parse : V → Q → Filled) (v : V) (bytes : Bytes)
      (source : Source) (sink : Sink) (values : Q)
      → IsMarkedResult body_marshaler (m.marshal v) ((gea_marshaler m).marshal v)
        × IsMarkedResult body_marshaler (m.unmarshal bytes v) ((gea_marshaler m).unmarshal bytes v)
        × IsMarkedResult body_marshaler (m.decode source v) ((gea_marshaler m).decode source v)
        × IsMarkedResult body_marshaler (m.encode sink v) ((gea_marshaler m).encode sink v)
        × IsMarkedResult query_parser (parse v values) (gea_query_parser parse v values)
  unfolding gea_marshaler wrap_body_marshaler_ret_and_error gea_query_parser
  gea_marshaler_lem m parse v bytes source sink values = (
    (refl, wrap_body_lem (m.marshal v).1),
    (refl, wrap_body_lem (m.unmarshal bytes v).1),
    (refl, wrap_body_lem (m.decode source v).1),
    (refl, wrap_body_lem (m.encode sink v).1),
    (refl, wrap_query_lem (parse v values).1),
  )
