-- ===== src/Net/Metadata.antt =====
-- pkg/net/rpchelper.go: a file's description in the metadata of a call.
pub mod RoundTrip
use torrxfer.Base.{ℕ, Bool, List, [], ◌∷◌, ◌++◌, Option, none, some, get_elem?, lookup, insert}
use torrxfer.Text.{Bytes, codes}
use torrxfer.Platform.{Platform}
use torrxfer.Net.File.{WireFile}

abbrev pub Values : Type 0
Values = List (Bytes × List Bytes)

abbrev pub file_key : Bytes
file_key = codes "filedata"

-- What the other side gets: no metadata, too few values, which ends the call by a panic, or a file.
pub data Received : Type 0 where
  invalid_argument panics : Received
  file : WireFile → Received

unfoldable pub add_file_metadata_to_context : WireFile → Values
add_file_metadata_to_context f = insert file_key (f.data_hash ∷ f.name ∷ f.media_directory ∷ []) []

abbrev pub or_none : Option (List Bytes) → List Bytes
or_none none = []
or_none (some vs) = vs

module _ (w : Platform) where
  -- `uint64(time.Unix(0, 0).Unix())`
  abbrev pub epoch : ℕ
  epoch = w.unix (w.from_unix 0)

  abbrev pub of_values : Option Bytes → Option Bytes → Option Bytes → Received
  of_values (some hash) (some name) (some media) = file (record {
    name = name;
    data_hash = hash;
    media_directory = media;
    created_time = epoch;
    modified_time = epoch;
    size = epoch;
    size_on_disk = 0;
  })
  of_values _ _ _ = panics

  abbrev from_values : List Bytes → Received
  from_values vs = of_values (get_elem? vs 0) (get_elem? vs 1) (get_elem? vs 2)

  unfoldable pub get_file_metadata_from_context : Option Values → Received
  get_file_metadata_from_context none = invalid_argument
  get_file_metadata_from_context (some md) = from_values (or_none (lookup file_key md))
