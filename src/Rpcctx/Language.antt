-- ===== src/Rpcctx/Language.antt =====
-- The preferred language of a request.
use Prim.Native.Char.{Char, code}
use text.Mathlib.TextLemmas.{append-nil}
use grpcx.Common.{
  ℕ, String, [], ◌∷◌, ◌≡◌, ◌≢◌, refl, ◌∙◌, ap, sym, subst, some, none, ◌⊎◌, arith, Option, List,
  inl, inr,
}
use grpcx.Common.Text.{
  ◌+++◌, Free, Solid, before, before-append, before-Free, before-Free_keeps, trim_space-Solid,
  trim_space-Free, trim_space, before-cons_self, before-cons_other,
}
use grpcx.Context.{MetadataPackage, Context}
use grpcx.Rpcctx.{to_lower, primary_tag, get_language_from_context, values}

-- The rest of a header value behind its first tag: nothing, or from a ',', a ';' or a '-' on.
abbrev pub StartsTail : String → Type 0
StartsTail String.[] = Unit
StartsTail (String.◌∷◌ c s) = (code c ≡ b',') ⊎ (code c ≡ b';') ⊎ (code c ≡ b'-')

before_tail : (s : String) → StartsTail s → before (before (before s b',') b';') b'-' ≡ ""
unfolding before
before_tail String.[] h = unfold before in refl
before_tail (String.◌∷◌ c s) (inl e) = rw (before-cons_self b',' c s e)
before_tail (String.◌∷◌ c s) (inr (inl e)) =
    rw (before-cons_other b',' c s (omega arith), before-cons_self b';' c (before s b',') e)
before_tail (String.◌∷◌ c s) (inr (inr e)) = rw (
  before-cons_other b',' c s (omega arith),
  before-cons_other b';' c (before s b',') (omega arith),
  before-cons_self b'-' c (before (before s b',') b';') e,
)

module _ (M : MetadataPackage) (lower : Char → Char) where
  open M use {get}

  -- A header value that begins with a tag, without separators or spaces, and goes on with a region,
  -- a quality or further tags, or ends there, gives that tag in lower case.
  pub primary_tag_lem :
      (tag rest : String)
      → Free b',' tag
      → Free b';' tag
      → Free b'-' tag
      → Solid tag
      → StartsTail rest
      → primary_tag M lower (tag +++ rest) ≡ to_lower lower tag
  unfolding primary_tag
  primary_tag_lem tag rest comma semicolon dash solid tail =
      ap (λ t. to_lower lower (trim_space t)) whole
      ∙ ap (to_lower lower) (trim_space-Solid tag solid)
    where
      whole : before (before (before (tag +++ rest) b',') b';') b'-' ≡ tag
      whole =
          ap (λ t. before (before t b';') b'-') (before-append b',' tag rest comma)
          ∙ ap (λ t. before t b'-') (before-append b';' tag (before rest b',') semicolon)
          ∙ before-append b'-' tag (before (before rest b',') b';') dash
          ∙ ap (λ t. tag +++ t) (before_tail rest tail)
          ∙ append-nil tag

  to_lower-Free :
      (sep : ℕ) (s : String)
      → ((c : Char) → code c ≢ sep → code (lower c) ≢ sep)
      → Free sep s
      → Free sep (to_lower lower s)
  unfolding to_lower
  to_lower-Free sep String.[] keeps h = tt
  to_lower-Free sep (String.◌∷◌ c s) keeps h = (keeps c h.0, to_lower-Free sep s keeps h.1)

  primary_tag-Free :
      (sep : ℕ) (header : String)
      → (sep ≡ b',') ⊎ (sep ≡ b';') ⊎ (sep ≡ b'-')
      → ((c : Char) → code c ≢ sep → code (lower c) ≢ sep)
      → Free sep (primary_tag M lower header)
  unfolding primary_tag
  primary_tag-Free sep header which keeps =
      to_lower-Free sep _ keeps (trim_space-Free sep _ (free which))
    where
      tag : String
      tag = before (before (before header b',') b';') b'-'

      free : (sep ≡ b',') ⊎ (sep ≡ b';') ⊎ (sep ≡ b'-') → Free sep tag
      free (inl e) =
          subst (λ n. Free n tag) (sym e)
            (before-Free_keeps b',' b'-' _
              (before-Free_keeps b',' b';' _ (before-Free b',' header)))
      free (inr (inl e)) =
          subst (λ n. Free n tag) (sym e)
            (before-Free_keeps b';' b'-' _ (before-Free b';' (before header b',')))
      free (inr (inr e)) =
          subst (λ n. Free n tag) (sym e) (before-Free b'-' (before (before header b',') b';'))

  -- The language of a context has no ',', ';' or '-', whatever the client sent, as long as lowering a
  -- character makes no separator of another character.
  pub get_language_from_context-Free :
      (ctx : Context M) (sep : ℕ)
      → (sep ≡ b',') ⊎ (sep ≡ b';') ⊎ (sep ≡ b'-')
      → ((c : Char) → code c ≢ sep → code (lower c) ≢ sep)
      → Free sep (get_language_from_context M lower ctx)
  unfolding get_language_from_context
  get_language_from_context-Free ctx sep which keeps = go (values M ctx "accept-language")
    where
      go :
          (vals : Option (List String))
          → Free sep
              (elim vals [ none ↦ "" | some [] ↦ "" | some (v ∷ rest) ↦ primary_tag M lower v ])
      go none = tt
      go (some []) = tt
      go (some (v ∷ rest)) = primary_tag-Free sep v which keeps
