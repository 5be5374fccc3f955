-- ===== src/Server/File/RoundTrip.antt =====
-- What `unmarshal_text` makes of the text of `marshal_text`.
use torrxfer.Base.{
  ℕ, ◌≤◌, ◌≡◌, ◌≢◌, refl, List, [], ◌∷◌, ◌++◌, none, some, arith, inl, inr, Option-cases,
}
use torrxfer.Text.{Bytes, trim_space, split, after_prefix, after_any}
use torrxfer.Text.Split.{IsFree, separated, split-separated}
use torrxfer.Text.Trim.{IsTrimmed, trim_space_of_trimmed}
use torrxfer.Text.Plain.{IsTrimmed-of_plain, IsFree-of_plain}
use torrxfer.Decimal.{max_u64, format_uint, parse_uint}
use torrxfer.Decimal.RoundTrip.{format_uint-ne-nil, format_uint-IsPlain, parse_uint-format_uint}
use torrxfer.Platform.{Platform, IsRfc3339}
use torrxfer.Server.File.{File, bad_time, delimiter, marshal_text, unmarshal_text, creation_text}

-- Both texts survive: the delimiter begins nowhere in them, and there is no space at an end.
pub record IsStorable {T : Type 0} (f : File T) : Type 0 where
  pub free_path : IsFree delimiter f.full_path
  pub free_prefix : IsFree delimiter f.media_prefix
  pub trimmed_path : IsTrimmed f.full_path
  pub trimmed_prefix : IsTrimmed f.media_prefix
  pub size_fits : f.size ≤ max_u64
  pub current_fits : f.current_size ≤ max_u64

number_IsFree : (n : ℕ) → IsFree delimiter (format_uint n)
number_IsFree n = IsFree-of_plain b'*' _ (format_uint n) (omega arith) (format_uint-IsPlain n)

module _ (w : Platform) (law : IsRfc3339 w) where
  open w use {Time, same_time, from_unix, marshal_time, unmarshal_time}

  -- The six tokens of a stored file.
  abbrev tokens : File Time → Bytes → Bytes → List Bytes
  tokens f created modified =
      f.media_prefix ∷ format_uint f.size ∷ format_uint f.current_size ∷ created ∷ modified ∷ []

  marshal_text-separated :
      (f : File Time) (created modified : Bytes)
      → creation_text w f.creation_time ≡ some created
      → marshal_time f.modified_time ≡ some modified
      → marshal_text w f ≡ some (f.full_path ++ separated delimiter (tokens f created modified))
  unfolding marshal_text
  marshal_text-separated f created modified hc hm = ground arith

  split-marshal_text :
      (f : File Time) (created modified : Bytes)
      → IsStorable f
      → IsFree delimiter created
      → IsFree delimiter modified
      → split (f.full_path ++ separated delimiter (tokens f created modified)) delimiter
        ≡ f.full_path ∷ tokens f created modified
  split-marshal_text f created modified s hc hm =
      split-separated b'*' _ f.full_path (tokens f created modified) s.free_path
        (s.free_prefix, (number_IsFree f.size, (number_IsFree f.current_size, (hc, (hm, tt)))))

  unmarshal_number : (n : ℕ) → n ≤ max_u64 → parse_uint (trim_space (format_uint n)) ≡ some n
  unmarshal_number n h =
      rw
        (trim_space_of_trimmed (format_uint n)
          (IsTrimmed-of_plain _ (format_uint-ne-nil n) (format_uint-IsPlain n)))
        (parse_uint-format_uint n h)

  unmarshal_time_text :
      (t : Time) (s : Bytes) → marshal_time t ≡ some s → unmarshal_time (trim_space s) ≡ some t
  unmarshal_time_text t s h =
      rw (trim_space_of_trimmed s (IsTrimmed-of_plain s (law.ne_nil t s h) (law.plain t s h)))
        (law.reads t s h)

  -- The fields that the text gives back, with the two times exchanged.
  abbrev pub exchanged : File Time → File Time
  exchanged f = record f { creation_time = f.modified_time; modified_time = f.creation_time }

  unmarshal_tokens :
      (f g : File Time) (created modified text : Bytes)
      → IsStorable f
      → split text delimiter ≡ f.full_path ∷ tokens f created modified
      → unmarshal_time (trim_space created) ≡ some f.creation_time
      → unmarshal_time (trim_space modified) ≡ some f.modified_time
      → unmarshal_text w g text ≡ (exchanged f, none)
  unfolding unmarshal_text
  unmarshal_tokens f g created modified text s tokens_eq hc hm = ground (
    arith,
    trim_space_of_trimmed f.full_path s.trimmed_path,
    trim_space_of_trimmed f.media_prefix s.trimmed_prefix,
    unmarshal_number f.size s.size_fits,
    unmarshal_number f.current_size s.current_fits,
  )

  unmarshal_tokens_empty :
      (f g : File Time) (modified text : Bytes)
      → IsStorable f
      → split text delimiter ≡ f.full_path ∷ tokens f [] modified
      → (unmarshal_text w g text).1 ≡ some bad_time
  unfolding unmarshal_text
  unmarshal_tokens_empty f g modified text s tokens_eq = ground (
    arith,
    unmarshal_number f.size s.size_fits,
    unmarshal_number f.current_size s.current_fits,
    trim_space_of_trimmed [] (unfold after_any after_prefix in (refl, refl)),
    law.empty,
  )

  time_IsFree : (t : Time) (s : Bytes) → marshal_time t ≡ some s → IsFree delimiter s
  time_IsFree t s h = IsFree-of_plain b'*' _ s (omega arith) (law.plain t s h)

  -- A text that `marshal_text` returns was made from the texts of both times.
  marshal_text_parts :
      (f : File Time) (text : Bytes)
      → marshal_text w f ≡ some text
      → (created : Bytes) × (modified : Bytes) × (creation_text w f.creation_time ≡ some created)
        × (marshal_time f.modified_time ≡ some modified)
        × (text ≡ f.full_path ++ separated delimiter (tokens f created modified))
  marshal_text_parts f text h = elim (Option-cases (creation_text w f.creation_time)) [
    | inl hc ↦ absurd (unfold marshal_text in ground arith)
    | inr (created, hc) ↦ elim (Option-cases (marshal_time f.modified_time)) [
      | inl hm ↦ absurd (unfold marshal_text in ground arith)
      | inr (modified, hm) ↦
          (created, modified, hc, hm, cc (marshal_text-separated f created modified hc hm))
    ]
  ]

  pub unmarshal_text-marshal_text :
      (f g : File Time) (text : Bytes)
      → IsStorable f
      → f.creation_time ≢ from_unix 0
      → marshal_text w f ≡ some text
      → unmarshal_text w g text ≡ (exchanged f, none)
  unmarshal_text-marshal_text f g text s later h =
      let (created, modified, hc, hm, e) = marshal_text_parts f text h in
      let hc' : marshal_time f.creation_time ≡ some created =
        ground (arith, law.same_time_iff f.creation_time (from_unix 0)) in
      rw e (
        unmarshal_tokens f g created modified _ s
          (split-marshal_text f created modified s (time_IsFree _ created hc')
            (time_IsFree _ modified hm))
          (unmarshal_time_text _ created hc') (unmarshal_time_text _ modified hm))

  -- A file whose creation time is the epoch is stored with an empty token, and its text is refused.
  pub unmarshal_text-marshal_text_epoch :
      (f g : File Time) (text : Bytes)
      → IsStorable f
      → f.creation_time ≡ from_unix 0
      → marshal_text w f ≡ some text
      → (unmarshal_text w g text).1 ≡ some bad_time
  unmarshal_text-marshal_text_epoch f g text s epoch h =
      let (created, modified, hc, hm, e) = marshal_text_parts f text h in
      let none_written : created ≡ [] =
        ground (arith, law.same_time_iff f.creation_time (from_unix 0)) in
      let e' : text ≡ f.full_path ++ separated delimiter (tokens f [] modified) =
        rw none_written at e in
      rw e' (
        unmarshal_tokens_empty f g modified _ s
          (split-marshal_text f [] modified s tt (time_IsFree _ modified hm)))
