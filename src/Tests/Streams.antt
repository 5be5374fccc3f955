-- ===== src/Tests/Streams.antt =====
-- The sending end of the stream at concrete data.
use torrxfer.Base.{◌==◌, ℕ, ◌≡◌, ◌⊎◌, refl, Bool, true, false, some, List, [], ◌∷◌, length}
use torrxfer.Text.{codes}
use torrxfer.Net.Sender.{ReadResult, got, eof, error_note, transfer_file}
use torrxfer.Net.Sender.Trace.{
  AreContiguous, HasEnded, notified, sent_bytes, ending, transfer_file-AreContiguous,
  transfer_file-HasEnded,
}

abbrev pub reads : List ReadResult
reads = got (codes "hel") ∷ got (codes "lo") ∷ eof ∷ []

-- The second `Send` fails.
abbrev pub accepts : ℕ → Bool
accepts k = k == 0

transfer_file-AreContiguous_example :
    AreContiguous 7 (transfer_file true reads accepts 7).requests
    × (notified (transfer_file true reads accepts 7).notes
        ≡ length (sent_bytes (transfer_file true reads accepts 7).requests))
transfer_file-AreContiguous_example = transfer_file-AreContiguous true reads accepts 7

transfer_file-HasEnded_example :
    ((true ≡ true) × HasEnded reads (transfer_file true reads accepts 7))
    ⊎ ((true ≡ false)
        × (sent_bytes (transfer_file true reads accepts 7).requests ≡ [])
        × (ending (transfer_file true reads accepts 7).notes ≡ some error_note)
        × ((transfer_file true reads accepts 7).channel_closed ≡ false))
transfer_file-HasEnded_example = transfer_file-HasEnded true reads accepts 7 refl
