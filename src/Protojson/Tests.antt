-- ===== src/Protojson/Tests.antt =====
-- A marshaler that fails.
use grpcx.Common.{String, none, some}
use grpcx.Common.Text.{◌+++◌}
use grpcx.Protojson.{
  plain, body_marshaler, IsMarkedResult, Marshaler, gea_marshaler, gea_marshaler_lem, Filled,
}

abbrev failing : Marshaler String String String String String
failing = record {
  content_type = λ v. "application/json";
  marshal = λ v. ("", some (plain "cycle"));
  unmarshal = λ bytes v. (bytes, none);
  decode = λ source v. (source, none);
  encode = λ sink v. (sink +++ v, none);
}

abbrev parse_plain : String → String → Filled String String String String String
parse_plain msg values = (values, none)

still_fails :
    IsMarkedResult body_marshaler
      ("", some (plain "cycle"))
      ((gea_marshaler String String String String String failing).marshal "v")
still_fails =
    (gea_marshaler_lem String String String String String failing parse_plain "v" "{}" "" ""
      "a=1").0
