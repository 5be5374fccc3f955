-- ===== src/Client/Display.antt =====
-- What a client shows of its transfers: cmd/client/main.go and internal/client/ui.go.
pub mod Bars
pub mod Elements
pub mod ConnectForm
pub mod DirectoryForm
pub mod LogTable
pub mod StatusGrid
pub mod Layout
