-- ===== src/Net/Handler.antt =====
-- pkg/net/torrxferclientconnection.go: the two calls that gRPC makes on the server's side, over any
-- implementation of `ITorrxferServer`.
pub mod Laws
pub mod Keeps
use torrxfer.Base.{ℕ, Bool, true, false, List, [], ◌∷◌, Option, none, some, if◌then◌else◌, lookup}
use torrxfer.Text.{Bytes, codes}
use torrxfer.Net.File.{Outcome, done, exits, WireFile}

-- `ITorrxferServer` over a state `S`. `E` is what the clock and the other threads give to a query.
-- The channels of a client are an index, if the client has any.
pub record TorrxferServer (E S : Type 0) : Type 0 where
  pub query_function : E → S → Bytes → WireFile → Outcome (S × Option WireFile)
  pub transfer_function : S → Bytes → Bytes → ℕ → ℕ → S × Bool
  pub register_for_write_notification : S → Bytes → Option ℕ
  pub close : S → Bytes → S

pub data Status : Type 0 where
  ok missing_metadata transfer_error : Status

-- What the `select` behind a block finds.
pub data Selected : Type 0 where
  nothing error_received done_received : Selected

-- A result of `Recv`; with a block come the steps of other threads until the `select`.
pub data Reception (S : Type 0) : Type 0 where
  block : Bytes → ℕ → ℕ → (S → S) → Selected → Reception S
  finished : Reception S
  broken : Reception S

abbrev pub Metadata : Type 0
Metadata = Option (List (Bytes × List Bytes))

-- The first value of `clientdata`. An index out of range ends the process.
abbrev client_of : Option (List Bytes) → Outcome (Option Bytes)
client_of none = done none
client_of (some []) = exits
client_of (some (c ∷ _)) = done (some c)

unfoldable pub validate_incoming_request : Metadata → Outcome (Option Bytes)
validate_incoming_request none = done none
validate_incoming_request (some md) = client_of (lookup (codes "clientdata") md)

module _ {E S : Type 0} (server : TorrxferServer E S) where
  -- The state, and the status if the call has returned.
  abbrev pub Result : Type 0
  Result = S × Option Status

  abbrev pub select : Selected → S → Result → Result
  select nothing s rest = rest
  select error_received s rest = (s, some transfer_error)
  select done_received s rest = (s, some ok)

  -- The loop; where the given receptions end, the call waits in `Recv`.
  unfoldable pub receive_loop : List (Reception S) → S → Bytes → Result
  receive_loop [] s client = (s, none)
  receive_loop (finished ∷ _) s client = (s, some ok)
  receive_loop (broken ∷ _) s client = (s, some transfer_error)
  receive_loop (block b size offset meanwhile chosen ∷ rs) s client =
      let (s', accepted) = server.transfer_function s client b size offset in
      let rest = receive_loop rs (meanwhile s') client in
      if accepted then select chosen (meanwhile s') rest else (s', some transfer_error)

  -- The deferred `Close`.
  abbrev pub close_on_return : Bytes → Result → Result
  close_on_return client (s, none) = (s, none)
  close_on_return client (s, some st) = (server.close s client, some st)

  abbrev transfer_from : List (Reception S) → S → Outcome (Option Bytes) → Outcome Result
  transfer_from rs s exits = exits
  transfer_from rs s (done none) = done (s, some missing_metadata)
  transfer_from rs s (done (some client)) = done (close_on_return client (receive_loop rs s client))

  unfoldable pub transfer_file : Metadata → List (Reception S) → S → Outcome Result
  unfolding validate_incoming_request receive_loop
  transfer_file md rs s = transfer_from rs s (validate_incoming_request md)

  abbrev query_from : E → S → WireFile → Outcome (Option Bytes) → Outcome (S × Option WireFile)
  query_from e s file exits = exits
  query_from e s file (done none) = done (s, none)
  query_from e s file (done (some client)) = server.query_function e s client file

  -- `none` is the query error.
  unfoldable pub query_file : E → Metadata → S → WireFile → Outcome (S × Option WireFile)
  unfolding validate_incoming_request
  query_file e md s file = query_from e s file (validate_incoming_request md)
