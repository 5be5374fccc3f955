-- ===== src/Net/Dial.antt =====
-- pkg/net/torrxferserverconnection.go: how the client reaches a server, and its `QueryFile`.
-- pkg/common/connectionconf.go: the configuration of a server.
pub mod Trust
use torrxfer.Base.{
  ℕ, Bool, true, false, List, [], ◌∷◌, ◌++◌, Option, none, some, if◌then◌else◌, eq_bytes,
}
use torrxfer.Text.{Bytes}
use torrxfer.Decimal.{format_uint}
use torrxfer.Platform.{Platform}
use torrxfer.Disk.{Disk}
use torrxfer.Crypto.{Certificates, Verdict, verify_cert}
use torrxfer.Net.File.{Outcome, done, exits, WireFile, new_file, set_media_path}

pub record ServerConnectionConfig : Type 0 where
  pub address : Bytes
  pub port : ℕ  -- uint32
  pub use_tls : Bool
  pub cert_file : Bytes

-- The credentials of a connection: none, or TLS for a host that trusts some certificates.
pub data Transport (C : Type 0) : Type 0 where
  insecure : Transport C
  tls : Bytes → List C → Transport C

module _ (x : Certificates) where
  open x use {Certificate}

  abbrev pool_of : Option Certificate → List Certificate
  pool_of none = []
  pool_of (some c) = c ∷ []

  -- The verdict on the certificate is only written to the log.
  abbrev pub transport_of : {T : Type 0} → Disk T → ServerConnectionConfig → Transport Certificate
  transport_of disk conf =
      if conf.use_tls
      then tls conf.address (pool_of (verify_cert x disk conf.cert_file conf.address).certificate)
      else insecure

  abbrev pub target : ServerConnectionConfig → Bytes
  target conf = conf.address ++ (b':' ∷ format_uint conf.port)

  -- `dial` is `grpc.Dial`, with whether it gives a connection.
  unfoldable pub new_torrxfer_server_connection :
      {T : Type 0}
      → (Bytes → Transport Certificate → Bool)
      → Disk T
      → ServerConnectionConfig
      → Option (Transport Certificate)
  new_torrxfer_server_connection dial disk conf =
      if eq_bytes conf.address []
      then none
      else if dial (target conf) (transport_of disk conf)
      then some (transport_of disk conf)
      else none

module _ (w : Platform) where
  open w use {Time}

  abbrev pub described : Bytes → Outcome WireFile → Outcome WireFile
  described prefix exits = exits
  described prefix (done f) = set_media_path (some f) prefix

  abbrev asked : (WireFile → Option WireFile) → Outcome WireFile → Outcome (Option WireFile)
  asked call exits = exits
  asked call (done f) = done (call f)

  -- The file is described as it is on the client's disk, and the server is asked about it. `call` is
  -- the call of gRPC with the client's id, and `none` its error.
  unfoldable pub query_file :
      (WireFile → Option WireFile) → Disk Time → Bytes → Bytes → Outcome (Option WireFile)
  unfolding set_media_path
  query_file call disk path prefix = asked call (described prefix (new_file w disk path))
