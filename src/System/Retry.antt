-- ===== src/System/Retry.antt =====
-- A job for a file of which the server has something else than all of it.
use torrxfer.Platform.{Platform}
use torrxfer.Database.{Database}
use torrxfer.Disk.{Disk}
use torrxfer.Net.Sender
use torrxfer.Server.State.{Server}
use torrxfer.Client.File.{File}
