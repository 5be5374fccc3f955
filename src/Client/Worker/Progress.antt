-- ===== src/Client/Worker/Progress.antt =====
-- The size on the server that the goroutine of a job counts from the notifications of a transfer.
use torrxfer.Base.{
  suc, Bool-cases, ℕ, ◌+◌, ◌%◌, ◌^◌, ◌<◌, ◌≡◌, ◌⊎◌, inl, inr, refl, Bool, true, false, List, [],
  ◌∷◌, some, arith, length, ◌==◌, lookup, insert, lookup-insert, eq_bytes_refl,
}
use torrxfer.Text.{Bytes}
use torrxfer.Net.Sender.{
  Notification, NotificationType, error_note, bytes_note, closed_note, ReadResult, got, eof,
  read_failed, send_loop, transfer_file,
}
use torrxfer.Net.Sender.Trace.{notified, sent_bytes, transfer_file-AreContiguous}
use torrxfer.Client.Connection.{
  ServerConnection, add_bytes, record_file, get_file_size_on_server, get_bytes_transferred,
}
use torrxfer.Client.Worker.{consume, consume_kind}

-- The bytes of error and closed notifications are 0.
abbrev pub IsSilent : List Notification → Type 0
IsSilent [] = Unit
IsSilent (n ∷ ns) = ((n.kind ≡ bytes_note) ⊎ (n.last_transferred ≡ 0)) × IsSilent ns

eq_refl : (n : ℕ) → (n == n) ≡ true
eq_refl n = ground arith

add_assoc : (a b c : ℕ) → a + (b + c) ≡ (a + b) + c
add_assoc a b c = omega arith

add_mod : (o n : ℕ) → (o % 2 ^ 64 + n) % 2 ^ 64 ≡ (o + n) % 2 ^ 64
add_mod o n = omega arith

lookup-insert_same :
    (path : Bytes) (id : ℕ) (files : List (Bytes × ℕ))
    → lookup path (insert path id files) ≡ some id
lookup-insert_same path id files = rw (lookup-insert path path id files, eq_bytes_refl path) refl

module _ {T : Type 0} where
  consume_kind-status :
      (id : ℕ) (s : ServerConnection T) (kind : NotificationType) (n o b : ℕ)
      → (kind ≡ bytes_note) ⊎ (n ≡ 0)
      → s.file_transfer_status (some id) ≡ o % 2 ^ 64
      → s.bytes_transferred ≡ b % 2 ^ 64
      → ((consume_kind id s kind n).0.file_transfer_status (some id) ≡ (o + n) % 2 ^ 64)
        × ((consume_kind id s kind n).0.bytes_transferred ≡ (b + n) % 2 ^ 64)
  unfolding add_bytes
  consume_kind-status id s error_note n o b (inl e) h k = absurd (ground arith)
  consume_kind-status id s error_note n o b (inr e) h k = rw e (ground arith)
  consume_kind-status id s bytes_note n o b q h k =
      ground (arith, eq_refl id, add_mod o n, add_mod b n)
  consume_kind-status id s closed_note n o b (inl e) h k = absurd (ground arith)
  consume_kind-status id s closed_note n o b (inr e) h k = rw e (ground arith)

  consume-status :
      (id : ℕ) (s : ServerConnection T) (ns : List Notification) (o b : ℕ)
      → IsSilent ns
      → s.file_transfer_status (some id) ≡ o % 2 ^ 64
      → s.bytes_transferred ≡ b % 2 ^ 64
      → ((consume id s ns).0.file_transfer_status (some id) ≡ (o + notified ns) % 2 ^ 64)
        × ((consume id s ns).0.bytes_transferred ≡ (b + notified ns) % 2 ^ 64)
  unfolding consume
  consume-status id s [] o b q h k = ground arith
  consume-status id s (n ∷ ns) o b (q, qs) h k =
      rw
        (add_assoc o n.last_transferred (notified ns), add_assoc b n.last_transferred (notified ns))
        (consume-status id (consume_kind id s n.kind n.last_transferred).0 ns
          (o + n.last_transferred) (b + n.last_transferred) qs
          (consume_kind-status id s n.kind n.last_transferred o b q h k).0
          (consume_kind-status id s n.kind n.last_transferred o b q h k).1)

  consume_kind-files :
      (id : ℕ) (s : ServerConnection T) (kind : NotificationType) (n : ℕ)
      → (consume_kind id s kind n).0.files_transferred ≡ s.files_transferred
  unfolding add_bytes
  consume_kind-files id s error_note n = refl
  consume_kind-files id s bytes_note n = refl
  consume_kind-files id s closed_note n = refl

  consume-files :
      (id : ℕ) (s : ServerConnection T) (ns : List Notification)
      → (consume id s ns).0.files_transferred ≡ s.files_transferred
  unfolding consume
  consume-files id s [] = refl
  consume-files id s (n ∷ ns) =
      rw (consume-files id (consume_kind id s n.kind n.last_transferred).0 ns)
        (consume_kind-files id s n.kind n.last_transferred)

  recorded-status :
      (s : ServerConnection T) (path : Bytes) (id o : ℕ)
      → o < 2 ^ 64
      → (record_file s path id o).file_transfer_status (some id) ≡ o % 2 ^ 64
  unfolding record_file
  recorded-status s path id o small = ground (arith, eq_refl id)

  recorded-bytes :
      (s : ServerConnection T) (path : Bytes) (id o : ℕ)
      → s.bytes_transferred < 2 ^ 64
      → (record_file s path id o).bytes_transferred ≡ s.bytes_transferred % 2 ^ 64
  unfolding record_file
  recorded-bytes s path id o less = omega arith

  size_of :
      (c : ServerConnection T) (path : Bytes) (id : ℕ) (files : List (Bytes × ℕ))
      → c.files_transferred ≡ files
      → lookup path files ≡ some id
      → get_file_size_on_server c path ≡ c.file_transfer_status (some id)
  unfolding get_file_size_on_server
  size_of c path id files h k = rw (h, k) refl

  recorded-files :
      (s : ServerConnection T) (path : Bytes) (id o : ℕ)
      → (record_file s path id o).files_transferred ≡ insert path id s.files_transferred
  unfolding record_file
  recorded-files s path id o = refl

  consumed-size :
      (s : ServerConnection T) (path : Bytes) (id o : ℕ) (ns : List Notification)
      → get_file_size_on_server (consume id (record_file s path id o) ns).0 path
        ≡ (consume id (record_file s path id o) ns).0.file_transfer_status (some id)
  consumed-size s path id o ns =
      size_of (consume id (record_file s path id o) ns).0 path id
        (insert path id s.files_transferred)
        (rw (consume-files id (record_file s path id o) ns) (recorded-files s path id o))
        (lookup-insert_same path id s.files_transferred)

send_loop-IsSilent :
    (reads : List ReadResult) (accepts : ℕ → Bool) (k o : ℕ)
    → IsSilent (send_loop reads accepts k o).notes
unfolding send_loop
send_loop-IsSilent [] accepts k o = tt
send_loop-IsSilent (eof ∷ _) accepts k o = (inr refl, tt)
send_loop-IsSilent (read_failed ∷ _) accepts k o = (inr refl, tt)
send_loop-IsSilent (got b ∷ reads) accepts k o = elim (Bool-cases (accepts k)) [
  | inl e ↦ rw e (inl refl, send_loop-IsSilent reads accepts (suc k) ((o + length b) % 2 ^ 64))
  | inr e ↦ rw e (inr refl, tt)
]

transfer_file-IsSilent :
    (opened : Bool) (reads : List ReadResult) (accepts : ℕ → Bool) (o : ℕ)
    → IsSilent (transfer_file opened reads accepts o).notes
unfolding transfer_file
transfer_file-IsSilent false reads accepts o = (inr refl, tt)
transfer_file-IsSilent true reads accepts o = send_loop-IsSilent reads accepts 0 o

-- Once the notifications of a whole transfer from the offset `o` on have been consumed, the size on
-- the server is `o` and the number of bytes that were sent, and the connection has counted these
-- bytes, both modulo 2^64, whatever the pipe and the stream did.
pub consume-transfer_file :
    {T : Type 0} (s : ServerConnection T) (path : Bytes) (id o : ℕ) (opened : Bool)
    (reads : List ReadResult) (accepts : ℕ → Bool)
    → o < 2 ^ 64
    → s.bytes_transferred < 2 ^ 64
    → (get_file_size_on_server
          (consume id (record_file s path id o) (transfer_file opened reads accepts o).notes).0
          path
        ≡ (o + length (sent_bytes (transfer_file opened reads accepts o).requests)) % 2 ^ 64)
      × (get_bytes_transferred
            (consume id (record_file s path id o) (transfer_file opened reads accepts o).notes).0
          ≡ (s.bytes_transferred
              + length (sent_bytes (transfer_file opened reads accepts o).requests))
            % 2 ^ 64)
unfolding get_bytes_transferred
consume-transfer_file {T} s path id o opened reads accepts small less =
    let notes = (transfer_file opened reads accepts o).notes in
    let total = (transfer_file-AreContiguous opened reads accepts o).1 in
    let counted =
      consume-status id (record_file s path id o) notes o s.bytes_transferred
        (transfer_file-IsSilent opened reads accepts o) (recorded-status s path id o small)
        (recorded-bytes s path id o less) in
    rw (consumed-size s path id o notes, ← total) counted
