-- ===== src/Server/Endpoint.antt =====
-- pkg/server/server.go: `TorrxferServer` as the `ITorrxferServer` behind the calls of gRPC.
pub mod Guarantees
pub mod Settled
pub mod Placed
pub mod Opening
pub mod Upload
pub mod NewFile
pub mod FirstReply
pub mod Again
pub mod Resumed
use torrxfer.Base.{ℕ}
use torrxfer.Text.{Bytes}
use torrxfer.Platform.{Platform}
use torrxfer.Database.{Database}
use torrxfer.Net.Handler.{TorrxferServer}
use torrxfer.Server.State.{Server, transfer_function, close_client, register_for_write_notification}
use torrxfer.Server.Query.{query_function}

module _ (w : Platform) (d : Database) where
  open w use {Time}

  -- A query reads the clock twice, and a new writer thread may be ahead by some steps.
  unfoldable pub endpoint : TorrxferServer (Time × Time × ℕ) (Server w d)
  endpoint = record {
    query_function = λ (created, modified, head_start) s client file.
        query_function w d s client file created modified head_start;
    transfer_function = λ s client b size offset. transfer_function w d s client b offset;
    register_for_write_notification = register_for_write_notification w d;
    close = close_client w d;
  }
