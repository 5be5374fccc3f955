-- ===== src/Client/File/Laws.antt =====
-- What the client's file gives back, and where the media prefix comes from.
use torrxfer.Base.{
  ◌≡◌, ◌≢◌, true, false, List, [], ◌∷◌, ◌++◌, none, some, arith, sym, Option-cases, inl, inr, ◌⊎◌,
}
use torrxfer.Text.{Bytes, after_prefix, has_prefix, trim_prefix, split}
use torrxfer.Text.Prefix.{after_prefix-append}
use torrxfer.FilePath.{dir}
use torrxfer.Platform.{Platform}
use torrxfer.Client.File.{
  File, parsed, delimiter, unmarshal_text, read_tokens, generate_media_prefix, marshal_text,
}

-- If both paths can be cleaned, the media root followed by the media prefix is the directory of
-- the file; there is a prefix exactly if that directory's text begins with the root's.
pub generate_media_prefix_lem :
    (root path : Bytes)
    → ((has_prefix (dir path) root ≡ true)
        × ((prefix : Bytes) × (generate_media_prefix (some root) (some path) ≡ some prefix)
            × (root ++ prefix ≡ dir path)))
      ⊎ ((has_prefix (dir path) root ≡ false)
          × (generate_media_prefix (some root) (some path) ≡ none))
unfolding generate_media_prefix has_prefix trim_prefix
generate_media_prefix_lem root path = elim (Option-cases (after_prefix root (dir path))) [
  | inl e ↦ inr (ground arith, ground arith)
  | inr (t, e) ↦
      inl (ground arith, (t, ground arith, sym (after_prefix-append root (dir path) t e)))
]

module _ (w : Platform) where
  open w use {Time, unmarshal_time}

  read_tokens_lem : (f g : File Time) (ts : List Bytes) → read_tokens w f ts ≢ parsed g
  read_tokens_lem f g [] = ground arith
  read_tokens_lem f g (t0 ∷ []) = ground arith
  read_tokens_lem f g (t0 ∷ t1 ∷ []) = ground arith
  read_tokens_lem f g (t0 ∷ t1 ∷ t2 ∷ []) = ground arith
  read_tokens_lem f g (t0 ∷ t1 ∷ t2 ∷ t3 ∷ []) = ground arith
  read_tokens_lem f g (t0 ∷ t1 ∷ t2 ∷ t3 ∷ t4 ∷ []) = ground arith
  read_tokens_lem f g (t0 ∷ t1 ∷ t2 ∷ t3 ∷ t4 ∷ t5 ∷ []) = ground arith
  read_tokens_lem f g (t0 ∷ t1 ∷ t2 ∷ t3 ∷ t4 ∷ t5 ∷ t6 ∷ ts) = ground arith

  -- No text at all is read back as a file of the client: every call ends with an error or a panic.
  pub unmarshal_text_never : (f g : File Time) (text : Bytes) → unmarshal_text w f text ≢ parsed g
  unfolding unmarshal_text
  unmarshal_text_never f g text = read_tokens_lem f g (split text delimiter)

  -- The text of a file does not say its transfer time: two files that differ in that time alone,
  -- neither at the epoch, have the same text.
  pub marshal_text_transfer_time :
      (f : File Time) (t : Time)
      → w.same_time f.transfer_time (w.from_unix 0) ≡ false
      → w.same_time t (w.from_unix 0) ≡ false
      → marshal_text w (record f { transfer_time = t }) ≡ marshal_text w f
  unfolding marshal_text
  marshal_text_transfer_time f t h k = ground arith
