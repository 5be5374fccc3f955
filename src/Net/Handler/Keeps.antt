-- ===== src/Net/Handler/Keeps.antt =====
-- What every step of a call keeps, the call keeps.
use mathlib.Core.Path.{subst}
use torrxfer.Base.{ℕ, ◌≡◌, refl, inl, inr, Bool-cases, List, [], ◌∷◌, Option, none, some}
use torrxfer.Text.{Bytes}
use torrxfer.Net.File.{Outcome, done, exits}
use torrxfer.Net.Handler.{
  TorrxferServer, Status, Selected, nothing, error_received, done_received, Reception, block,
  finished, broken, Metadata, validate_incoming_request, Result, select, receive_loop,
  close_on_return, transfer_file,
}

module _ {E S : Type 0} (server : TorrxferServer E S) (P : S → Type 0) where
  -- The steps of the other threads keep it.
  abbrev pub KeptMeanwhile : List (Reception S) → Type 0
  KeptMeanwhile [] = Unit
  KeptMeanwhile (block b size offset meanwhile chosen ∷ rs) =
      ((s : S) → P s → P (meanwhile s)) × KeptMeanwhile rs
  KeptMeanwhile (_ ∷ rs) = KeptMeanwhile rs

  module _ (kept : (s : S) (c b : Bytes) (n o : ℕ) → P s → P (server.transfer_function s c b n o).0)
      (kept_closed : (s : S) (c : Bytes) → P s → P (server.close s c)) where
    select-keeps :
        (chosen : Selected) (s : S) (rest : Result server)
        → P s
        → P rest.0
        → P (select server chosen s rest).0
    select-keeps nothing s rest h k = k
    select-keeps error_received s rest h k = h
    select-keeps done_received s rest h k = h

    receive_loop-keeps :
        (rs : List (Reception S)) (s : S) (c : Bytes)
        → KeptMeanwhile rs
        → P s
        → P (receive_loop server rs s c).0
    unfolding receive_loop
    receive_loop-keeps [] s c m h = h
    receive_loop-keeps (finished ∷ rs) s c m h = h
    receive_loop-keeps (broken ∷ rs) s c m h = h
    receive_loop-keeps (block b n o meanwhile chosen ∷ rs) s c (m, ms) h =
        let next = m _ (kept s c b n o h) in
        elim (Bool-cases (server.transfer_function s c b n o).1) [
          | inl e ↦ rw e (select-keeps chosen _ _ next (receive_loop-keeps rs _ c ms next))
          | inr e ↦ rw e (kept s c b n o h)
        ]

    close_on_return-keeps :
        (c : Bytes) (r : Result server) → P r.0 → P (close_on_return server c r).0
    close_on_return-keeps c (s, none) h = h
    close_on_return-keeps c (s, some st) h = kept_closed s c h

    -- The state in an outcome.
    abbrev InOutcome : Outcome (Result server) → Type 0
    InOutcome exits = Unit
    InOutcome (done (s, st)) = P s

    transfer_file-InOutcome :
        (md : Metadata) (rs : List (Reception S)) (s : S)
        → KeptMeanwhile rs
        → P s
        → InOutcome (transfer_file server md rs s)
    unfolding transfer_file
    transfer_file-InOutcome md rs s m h = of_client (validate_incoming_request md) refl
      where
        of_client :
            (o : Outcome (Option Bytes))
            → validate_incoming_request md ≡ o
            → InOutcome (transfer_file server md rs s)
        of_client exits e = rw e tt
        of_client (done none) e = rw e h
        of_client (done (some c)) e =
            rw e
              (close_on_return-keeps c (receive_loop server rs s c) (receive_loop-keeps rs s c m h))

    pub transfer_file-keeps :
        (md : Metadata) (rs : List (Reception S)) (s s' : S) (st : Option Status)
        → KeptMeanwhile rs
        → P s
        → transfer_file server md rs s ≡ done (s', st)
        → P s'
    transfer_file-keeps md rs s s' st m h e =
        subst InOutcome e (transfer_file-InOutcome md rs s m h)
