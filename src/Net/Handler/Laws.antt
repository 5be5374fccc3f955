-- ===== src/Net/Handler/Laws.antt =====
-- What the calls do with any server behind them.
use torrxfer.Base.{ℕ, ◌≡◌, ◌⊎◌, inl, inr, refl, true, List, [], ◌∷◌, none, some, lookup}
use torrxfer.Text.{Bytes, codes}
use torrxfer.Net.File.{done, WireFile}
use torrxfer.Net.Handler.{
  TorrxferServer, ok, missing_metadata, nothing, Reception, block, finished, Metadata,
  validate_incoming_request, receive_loop, transfer_file, query_file,
}

-- A block with what happens until the next one: its data, size, offset, and the other threads.
abbrev pub Block : Type 0 → Type 0
Block S = Bytes × ℕ × ℕ × (S → S)

abbrev pub received : {S : Type 0} → List (Block S) → List (Reception S)
received [] = finished ∷ []
received ((b, size, offset, meanwhile) ∷ bs) = block b size offset meanwhile nothing ∷ received bs

module _ {E S : Type 0} (server : TorrxferServer E S) where
  -- The server's state after the blocks, and that it accepts each of them.
  abbrev pub play : Bytes → List (Block S) → S → S
  play client [] s = s
  play client ((b, size, offset, meanwhile) ∷ bs) s =
      play client bs (meanwhile (server.transfer_function s client b size offset).0)

  abbrev pub AreAccepted : Bytes → List (Block S) → S → Type 0
  AreAccepted client [] s = Unit
  AreAccepted client ((b, size, offset, meanwhile) ∷ bs) s =
      ((server.transfer_function s client b size offset).1 ≡ true)
      × AreAccepted client bs (meanwhile (server.transfer_function s client b size offset).0)

  receive_loop-received :
      (client : Bytes) (bs : List (Block S)) (s : S)
      → AreAccepted client bs s
      → receive_loop server (received bs) s client ≡ (play client bs s, some ok)
  unfolding receive_loop
  receive_loop-received client [] s a = refl
  receive_loop-received client ((b, size, offset, meanwhile) ∷ bs) s (a, more) = rw a (
      receive_loop-received client bs
        (meanwhile (server.transfer_function s client b size offset).0) more)

  -- A call with a client id, whose blocks the server accepts one after another without a message
  -- from the writer, hands over every block in the order of the stream, then closes the client's
  -- file, and returns without an error.
  pub transfer_file-received :
      (md : Metadata) (client : Bytes) (bs : List (Block S)) (s : S)
      → validate_incoming_request md ≡ done (some client)
      → AreAccepted client bs s
      → transfer_file server md (received bs) s
        ≡ done (server.close (play client bs s) client, some ok)
  unfolding transfer_file
  transfer_file-received md client bs s v a = rw (v, receive_loop-received client bs s a) refl

  -- A call without a client id returns that error, and a query without one fails; both leave the
  -- server as it was.
  pub missing_client :
      (md : Metadata) (rs : List (Reception S)) (s : S) (e : E) (file : WireFile)
      → (md ≡ none)
        ⊎ ((h : List (Bytes × List Bytes)) × (md ≡ some h) × (lookup (codes "clientdata") h ≡ none))
      → (transfer_file server md rs s ≡ done (s, some missing_metadata))
        × (query_file server e md s file ≡ done (s, none))
  unfolding transfer_file query_file validate_incoming_request
  missing_client md rs s e file (inl h) = rw h (refl, refl)
  missing_client md rs s e file (inr (hs, h, k)) = rw h (rw k (refl, refl))
