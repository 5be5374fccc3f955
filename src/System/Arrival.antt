-- ===== src/System/Arrival.antt =====
-- A file that a job brings to the server, and the job that asks for it again.
use torrxfer.Platform.{Platform}
use torrxfer.Database.{Database}
use torrxfer.Disk.{Disk}
use torrxfer.Net.Sender
use torrxfer.Server.State.{Server}
use torrxfer.Client.File.{File}
