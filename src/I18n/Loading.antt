-- ===== src/I18n/Loading.antt =====
-- What NewFromFS loads.
use grpcx.Common.{
  String, List, [], ◌∷◌, ◌≡◌, refl, ◌∙◌, ap, Option, none, some, Map, lookup, store, lookup-store,
  if◌then◌else◌, ◌&&◌, str_eq, string_equality, Option-cases, Bool-cases, inl, inr, ◌⊎◌,
}
use grpcx.Common.Result.{Result, success, failure, ◌>>=◌, Result-cases}
use grpcx.I18n.{
  DirEntry, ext, trim_suffix, is_translation, Sources, read_translations, load_entries, new_from_fs,
  Localizer,
}

-- The language that a file stands for.
abbrev pub stem : DirEntry → String
stem entry = trim_suffix entry.name (ext entry.name)

-- The last of the translation files with a stem.
abbrev pub last_file : String → Option DirEntry → List DirEntry → Option DirEntry
last_file lang found [] = found
last_file lang found (entry ∷ entries) =
    last_file lang (if is_translation entry && str_eq (stem entry) lang then some entry else found)
      entries

module _ {Failure : Type 0} (fsys : Sources Failure) where
  open fsys use {read_dir}

  -- What such a file holds, if it can be read.
  abbrev pub content : Option DirEntry → Option (Map String String)
  content none = none
  content (some entry) = elim (read_translations fsys entry.name) [
    | success m ↦ some m
    | failure e ↦ none
  ]

  -- The first file that cannot be read or decoded.
  abbrev pub first_failure : List DirEntry → Option Failure
  first_failure [] = none
  first_failure (entry ∷ entries) =
      let rest = first_failure entries in
      if is_translation entry
      then elim (read_translations fsys entry.name) [ success m ↦ rest | failure e ↦ some e ]
      else rest

  load_entries_failure :
      (translations : Map String (Map String String)) (entries : List DirEntry) (e : Failure)
      → first_failure entries ≡ some e
      → load_entries fsys translations entries ≡ failure e
  unfolding load_entries
  load_entries_failure translations [] e h = cc
  load_entries_failure translations (entry ∷ entries) e h =
      elim (Bool-cases (is_translation entry)) [
        | inl here ↦ elim (Result-cases (read_translations fsys entry.name)) [
          | inl (e', bad) ↦ let k : some e' ≡ some e = rw (here, bad) at h in rw (here, bad) (cc)
          | inr (m, good) ↦
              let k : first_failure entries ≡ some e = rw (here, good) at h in
              rw (here, good) (load_entries_failure (store (stem entry) m translations) entries e k)
        ]
        | inr other ↦ rw other (load_entries_failure translations entries e (rw other at h))
      ]

  after_store :
      (translations : Map String (Map String String)) (entry : DirEntry) (lang : String)
      (found : Option DirEntry) (m : Map String String)
      → read_translations fsys entry.name ≡ success m
      → lookup lang translations ≡ content found
      → lookup lang (store (stem entry) m translations)
        ≡ content (if str_eq (stem entry) lang then some entry else found)
  after_store translations entry lang found m good k =
      lookup-store (stem entry) lang m translations ∙ elim (Bool-cases (str_eq (stem entry) lang)) [
        | inl same ↦ rw (same, content, good) refl
        | inr other ↦ rw other k
      ]

  load_entries_success :
      (translations : Map String (Map String String)) (entries : List DirEntry) (lang : String)
      (found : Option DirEntry)
      → first_failure entries ≡ none
      → lookup lang translations ≡ content found
      → (m : Map String (Map String String)) × (load_entries fsys translations entries ≡ success m)
        × (lookup lang m ≡ content (last_file lang found entries))
  unfolding load_entries
  load_entries_success translations [] lang found h k = (translations, refl, k)
  load_entries_success translations (entry ∷ entries) lang found h k =
      elim (Bool-cases (is_translation entry)) [
        | inl here ↦ elim (Result-cases (read_translations fsys entry.name)) [
          | inl (e, bad) ↦ let k : some e ≡ none = rw (here, bad) at h in absurd (cc)
          | inr (m, good) ↦
              let fine : first_failure entries ≡ none = rw (here, good) at h in
              rw (here, good)
                (load_entries_success (store (stem entry) m translations) entries lang
                  (if str_eq (stem entry) lang then some entry else found) fine
                  (after_store translations entry lang found m good k))
        ]
        | inr other ↦
            rw other (load_entries_success translations entries lang found (rw other at h) k)
      ]

  abbrev with_fallback :
      String → Result Failure (Map String (Map String String)) → Result Failure Localizer
  with_fallback fallback r = r >>= (λ m. success (record { translations = m; fallback = fallback }))

  whole :
      (fallback : String) (entries : List DirEntry)
      (r : Result Failure (Map String (Map String String)))
      → read_dir ≡ success entries
      → load_entries fsys [] entries ≡ r
      → new_from_fs fsys fallback ≡ with_fallback fallback r
  unfolding new_from_fs
  whole fallback entries r listed h =
      ap (λ es. es >>= (λ l. with_fallback fallback (load_entries fsys [] l))) listed
      ∙ ap (with_fallback fallback) h

  -- NewFromFS fails where the directory cannot be read, with its error, and otherwise exactly where one
  -- of its translation files cannot be read or decoded, with the first such error. Where all can, each
  -- language has the entries of the last file with its name and the extension .yaml or .yml, in the
  -- order of the directory, and no entries where there is no such file; a directory inside, whatever
  -- it holds, is no such file.
  pub new_from_fs_lem :
      (fallback lang : String)
      → ((e : Failure) → read_dir ≡ failure e → new_from_fs fsys fallback ≡ failure e)
        × ((entries : List DirEntry)
            → read_dir ≡ success entries
            → ((e : Failure) × (first_failure entries ≡ some e)
                × (new_from_fs fsys fallback ≡ failure e))
              ⊎ ((l : Localizer) × (first_failure entries ≡ none)
                  × (new_from_fs fsys fallback ≡ success l)
                  × (l.fallback ≡ fallback)
                  × (lookup lang l.translations ≡ content (last_file lang none entries))))
  unfolding new_from_fs
  new_from_fs_lem fallback lang = (
    λ e q. ap (λ es. es >>= (λ l. with_fallback fallback (load_entries fsys [] l))) q,
    λ entries listed. elim (Option-cases (first_failure entries)) [
      | inl fine ↦
          let (m, loaded, text) =
            load_entries_success [] entries lang none fine (unfold lookup in refl) in
          inr (
            record { translations = m; fallback = fallback },
            fine,
            whole fallback entries (success m) listed loaded,
            refl,
            text,
          )
      | inr (e, bad) ↦ inl (
        e,
        bad,
        whole fallback entries (failure e) listed (load_entries_failure [] entries e bad),
      )
    ],
  )
