-- ===== src/I18n/Translate.antt =====
-- Which text Translate gives.
use grpcx.Common.{
  String, ◌≡◌, ◌≢◌, refl, Option, none, some, Map, lookup, string_equality, eq_iff, arith,
}
use grpcx.Platform.{Platform}
use grpcx.Errs.{Error}
use grpcx.I18n.{
  Localizer, text_in, fallback_text, or_empty_text, lookup_text, TemplatePackage, render, translate,
}
use grpcx.Middleware.ErrorWrapper.Finish.{localized_message}

-- The text that a language has for a key.
abbrev pub text_at : Localizer → String → String → Option String
text_at l lang key = text_in (lookup lang l.translations) key

-- The language's own text, or else the one of the fallback, or else the empty text.
abbrev pub best_text : Localizer → String → String → String
best_text l lang key = elim (text_at l lang key) [
  | some s ↦ s
  | none ↦ or_empty_text (text_at l l.fallback key)
]

fallback_text-text_in :
    (o : Option (Map String String)) (key : String)
    → fallback_text o key ≡ or_empty_text (text_in o key)
unfolding fallback_text text_in
fallback_text-text_in none key = refl
fallback_text-text_in (some m) key = refl

pub lookup_text_lem :
    (l : Localizer) (lang key : String) → lookup_text l key lang ≡ best_text l lang key
unfolding lookup_text
lookup_text_lem l lang key =
    ground
      (arith, fallback_text-text_in (lookup l.fallback l.translations) key, eq_iff lang l.fallback)

module _ {Any : Type 0} (T : TemplatePackage Any) where
  -- A text that the requested language has for the key, if it is not empty, is the one that is
  -- rendered, whatever the fallback has. Where the language has none, the result is the one for the
  -- fallback language; and where neither has one, it is the key.
  pub translate_lem :
      (l : Localizer) (key lang : String) (data_of : Option (Map String Any)) (text : String)
      → (text_at l lang key ≡ some text
          → text ≢ ""
          → translate T l key data_of lang ≡ render T text data_of)
        × (text_at l lang key ≡ none
            → translate T l key data_of lang ≡ translate T l key data_of l.fallback)
        × (text_at l lang key ≡ none
            → text_at l l.fallback key ≡ none
            → translate T l key data_of lang ≡ key)
  unfolding translate
  translate_lem l key lang data_of text = (
    λ e h. rw (lookup_text_lem l lang key, best_text, e) (ground (arith, eq_iff text "")),
    λ e.
        rw (lookup_text_lem l lang key, lookup_text_lem l l.fallback key, best_text, e)
          (ground arith),
    λ e f. rw (lookup_text_lem l lang key, best_text, e, f) refl,
  )

module _ (P : Platform) (T : TemplatePackage P.Any) where
  open P use {Any}

  -- With Translate as the localizer of the error wrapper, an error whose code has no text in the
  -- language of the request nor in the fallback is sent with its own message.
  pub localized_message-translate :
      (l : Localizer) (lang : String) (e : Error P)
      → text_at l lang e.code ≡ none
      → text_at l l.fallback e.code ≡ none
      → localized_message P (translate T l) lang e ≡ e.message
  localized_message-translate l lang e h f =
      let same = (translate_lem T l e.code lang e.metadata "").2 h f in
      ground (arith, eq_iff (translate T l e.code e.metadata lang) e.code, same)
