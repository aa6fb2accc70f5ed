-- ===== src/I18n/Tests.antt =====
-- Instances of the theorems on translations, with two languages and the plain text as its template.
use grpcx.Common.{
  String, List, [], ◌∷◌, ◌≡◌, refl, none, some, Map, lookup, false, true, string_equality, ◌⊎◌,
}
use grpcx.Common.Result.{Result, success, failure}
use grpcx.I18n.{
  Localizer, TemplatePackage, translate, DirEntry, Sources, new_from_fs, text_in, is_translation,
}
use grpcx.I18n.Translate.{text_at, translate_lem}
use grpcx.I18n.Loading.{first_failure, last_file, content, new_from_fs_lem}

abbrev plain : TemplatePackage String
plain = record { Template = String; parse_template = some; execute = λ t m. some t }

abbrev english : Map String String
english = ("ERR_STOCK", "out of stock") ∷ []

abbrev two_languages : Localizer
two_languages = record {
  translations = ("en", english) ∷ ("de", ("ERR_STOCK", "ausverkauft") ∷ []) ∷ [];
  fallback = "en";
}

unknown_key : text_at two_languages "de" "ERR_X" ≡ none
unfolding text_in lookup
unknown_key = refl

unknown_fallback : text_at two_languages "en" "ERR_X" ≡ none
unfolding text_in lookup
unknown_fallback = refl

translate_lem_example : translate plain two_languages "ERR_X" none "de" ≡ "ERR_X"
translate_lem_example =
    (translate_lem plain two_languages "ERR_X" "de" none "").2 unknown_key unknown_fallback

abbrev read_sample : String → Result String String
read_sample name = success name

abbrev decode_sample : String → Result String (Map String String)
decode_sample text = success english

abbrev directory : List DirEntry
directory =
    record { name = "de.yaml"; is_dir = false } ∷ record { name = "en.yml"; is_dir = false } ∷ []

abbrev files : Sources String
files = record { read_dir = success directory; read_file = read_sample; unmarshal = decode_sample }

new_from_fs_lem_example :
    ((e : String) × (first_failure files directory ≡ some e) × (new_from_fs files "en" ≡ failure e))
    ⊎ ((l : Localizer) × (first_failure files directory ≡ none)
        × (new_from_fs files "en" ≡ success l)
        × (l.fallback ≡ "en")
        × (lookup "de" l.translations ≡ content files (last_file "de" none directory)))
new_from_fs_lem_example = (new_from_fs_lem files "en" "de").1 directory refl

-- the files of the package comment, which are embedded in their own directory
abbrev embedded : Sources String
embedded = record {
  read_dir = success (record { name = "translations"; is_dir = true } ∷ []);
  read_file = read_sample;
  unmarshal = decode_sample;
}

embedded_nothing :
    new_from_fs embedded "en" ≡ success (record { translations = []; fallback = "en" })
unfolding new_from_fs is_translation
embedded_nothing = refl
