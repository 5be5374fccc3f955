-- ===== src/Net/Metadata/RoundTrip.antt =====
-- What of a file's description comes through the metadata.
use torrxfer.Base.{
  ◌≡◌, ◌<◌, refl, List, [], ◌∷◌, some, arith, length, lookup, lookup-insert, eq_bytes_refl,
}
use torrxfer.Text.{Bytes}
use torrxfer.Platform.{Platform}
use torrxfer.Net.File.{WireFile}
use torrxfer.Net.Metadata.{
  Values, file_key, file, panics, add_file_metadata_to_context, get_file_metadata_from_context,
  epoch, or_none, from_values,
}

module _ (w : Platform) where
  -- A description that is put into the metadata and read back keeps its name, hash and media path,
  -- while both times and the size are those of the epoch and the size on disk is 0.
  pub get_file_metadata-add_file_metadata :
      (f : WireFile)
      → get_file_metadata_from_context w (some (add_file_metadata_to_context f))
        ≡ file (record f {
          created_time = epoch w;
          modified_time = epoch w;
          size = epoch w;
          size_on_disk = 0;
        })
  unfolding get_file_metadata_from_context add_file_metadata_to_context
  get_file_metadata-add_file_metadata f =
      rw
        (
          lookup-insert file_key file_key (f.data_hash ∷ f.name ∷ f.media_directory ∷ []) [],
          eq_bytes_refl file_key,
        )
        refl

  from_values-panics : (vs : List Bytes) → length vs < 3 → from_values w vs ≡ panics
  from_values-panics [] h = refl
  from_values-panics (a ∷ []) h = refl
  from_values-panics (a ∷ b ∷ []) h = refl
  from_values-panics (a ∷ b ∷ c ∷ vs) h = absurd (omega (arith, h))

  -- Metadata without that key, or with fewer than three values there, ends the call by a panic.
  pub get_file_metadata_panics :
      (md : Values)
      → length (or_none (lookup file_key md)) < 3
      → get_file_metadata_from_context w (some md) ≡ panics
  unfolding get_file_metadata_from_context
  get_file_metadata_panics md h = from_values-panics (or_none (lookup file_key md)) h
