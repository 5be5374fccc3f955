-- ===== src/Net/Sender/Trace.antt =====
-- What the sender's requests and notifications say together.
use torrxfer.Base.{
  Option, none, some, ℕ, suc, ◌+◌, ◌%◌, ◌^◌, ◌≡◌, ◌⊎◌, inl, inr, refl, ap, Bool, true, false, List,
  [], ◌∷◌, ◌++◌, arith, if◌then◌else◌, length, length-append, Bool-cases,
}
use torrxfer.Text.{Bytes}
use torrxfer.Net.Sender.{
  Request, NotificationType, error_note, bytes_note, closed_note, Notification, ReadResult, got,
  eof, read_failed, and_sent, Sending, send_loop, transfer_file,
}

-- The requests follow one another without a gap from the offset on, and each has its size.
abbrev pub AreContiguous : ℕ → List Request → Type 0
AreContiguous o [] = Unit
AreContiguous o (r ∷ rs) =
    (r.offset ≡ o)
    × (r.size ≡ length r.block % 2 ^ 32)
    × AreContiguous ((o + length r.block) % 2 ^ 64) rs

abbrev pub sent_bytes : List Request → Bytes
sent_bytes [] = []
sent_bytes (r ∷ rs) = r.block ++ sent_bytes rs

abbrev pub notified : List Notification → ℕ
notified [] = 0
notified (n ∷ ns) = n.last_transferred + notified ns

-- The offset of the last notification.
abbrev pub last_offset : ℕ → List Notification → ℕ
last_offset o [] = o
last_offset o (n ∷ ns) = last_offset n.current_offset ns

send_loop-AreContiguous :
    (reads : List ReadResult) (accepts : ℕ → Bool) (k o : ℕ)
    → AreContiguous o (send_loop reads accepts k o).requests
unfolding send_loop
send_loop-AreContiguous [] accepts k o = tt
send_loop-AreContiguous (eof ∷ _) accepts k o = tt
send_loop-AreContiguous (read_failed ∷ _) accepts k o = tt
send_loop-AreContiguous (got b ∷ reads) accepts k o = elim (Bool-cases (accepts k)) [
  | inl e ↦
      rw e (refl, refl, send_loop-AreContiguous reads accepts (suc k) ((o + length b) % 2 ^ 64))
  | inr e ↦ rw e tt
]

send_loop-notified :
    (reads : List ReadResult) (accepts : ℕ → Bool) (k o : ℕ)
    → notified (send_loop reads accepts k o).notes
      ≡ length (sent_bytes (send_loop reads accepts k o).requests)
unfolding send_loop
send_loop-notified [] accepts k o = refl
send_loop-notified (eof ∷ _) accepts k o = refl
send_loop-notified (read_failed ∷ _) accepts k o = refl
send_loop-notified (got b ∷ reads) accepts k o = ground (
  arith,
  send_loop-notified reads accepts (suc k) ((o + length b) % 2 ^ 64),
  length-append {0} b
      (sent_bytes (send_loop reads accepts (suc k) ((o + length b) % 2 ^ 64)).requests),
)

-- Whatever the pipe and the stream do, the requests of a transfer follow one another without a
-- gap from the offset on, each with the size of its block, and the sizes in the notifications
-- add up to the number of bytes in the requests.
pub transfer_file-AreContiguous :
    (opened : Bool) (reads : List ReadResult) (accepts : ℕ → Bool) (o : ℕ)
    → AreContiguous o (transfer_file opened reads accepts o).requests
      × (notified (transfer_file opened reads accepts o).notes
          ≡ length (sent_bytes (transfer_file opened reads accepts o).requests))
unfolding transfer_file
transfer_file-AreContiguous false reads accepts o = (tt, refl)
transfer_file-AreContiguous true reads accepts o =
    (send_loop-AreContiguous reads accepts 0 o, send_loop-notified reads accepts 0 o)

-- How a list of notifications ends, if only its last one is not about bytes.
abbrev is_bytes : NotificationType → Bool
is_bytes bytes_note = true
is_bytes _ = false

abbrev pub ending : List Notification → Option NotificationType
ending [] = none
ending (n ∷ []) = if is_bytes n.kind then none else some n.kind
ending (n ∷ m ∷ ns) = if is_bytes n.kind then ending (m ∷ ns) else none

-- The bytes read before the end or a failure, and whether the reads come to one of these.
abbrev pub bytes_read : List ReadResult → Bytes
bytes_read (got b ∷ reads) = b ++ bytes_read reads
bytes_read _ = []

abbrev pub comes_to_end : List ReadResult → Bool
comes_to_end [] = false
comes_to_end (got b ∷ reads) = comes_to_end reads
comes_to_end _ = true

-- The reads come to the end of the file, and not to a failure.
abbrev pub reaches_eof : List ReadResult → Bool
reaches_eof [] = false
reaches_eof (got b ∷ reads) = reaches_eof reads
reaches_eof (eof ∷ _) = true
reaches_eof (read_failed ∷ _) = false

-- A transfer that comes to its end is notified once, as closed or as an error, and closed only
-- if all of the file was read and sent; a failure of a read or of a send is an error.
pub record HasEnded (reads : List ReadResult) (s : Sending) : Type 0 where
  pub closed : s.channel_closed ≡ true
  pub ended : (ending s.notes ≡ some error_note) ⊎ (ending s.notes ≡ some closed_note)
  pub complete : ending s.notes ≡ some closed_note → sent_bytes s.requests ≡ bytes_read reads
  pub no_failure : ending s.notes ≡ some closed_note → reaches_eof reads ≡ true

ending-cons :
    (n : Notification) (ns : List Notification)
    → n.kind ≡ bytes_note
    → (ending ns ≡ some error_note) ⊎ (ending ns ≡ some closed_note)
    → ending (n ∷ ns) ≡ ending ns
ending-cons n [] b h = absurd (ground arith)
ending-cons n (m ∷ ns) b h = rw b refl

and_sent-HasEnded :
    (b : Bytes) (o : ℕ) (reads : List ReadResult) (s : Sending)
    → HasEnded reads s
    → HasEnded (got b ∷ reads) (and_sent b o s)
and_sent-HasEnded b o reads s v =
    let e : ending (and_sent b o s).notes ≡ ending s.notes =
      ending-cons
        (record {
          kind = bytes_note;
          last_transferred = length b;
          current_offset = (o + length b) % 2 ^ 64;
        })
        s.notes refl v.ended in
    record {
      closed = v.closed;
      ended = rw e v.ended;
      complete = λ h. ap (λ r. b ++ r) (v.complete (rw e at h));
      no_failure = λ h. v.no_failure (rw e at h);
    }

send_loop-HasEnded :
    (reads : List ReadResult) (accepts : ℕ → Bool) (k o : ℕ)
    → comes_to_end reads ≡ true
    → HasEnded reads (send_loop reads accepts k o)
unfolding send_loop
send_loop-HasEnded [] accepts k o h = cc
send_loop-HasEnded (eof ∷ _) accepts k o h = ground arith
send_loop-HasEnded (read_failed ∷ _) accepts k o h = ground arith
send_loop-HasEnded (got b ∷ reads) accepts k o h = elim (Bool-cases (accepts k)) [
  | inl e ↦ rw e (
      and_sent-HasEnded b o reads _
        (send_loop-HasEnded reads accepts (suc k) ((o + length b) % 2 ^ 64) h))
  | inr e ↦ rw e (ground arith)
]

-- A transfer whose reads from its pipe come to an end or a failure is notified of that once, as the
-- last thing, and its channel is closed if the stream could be opened. It is notified as closed only
-- if the reads came to the end of the pipe, which need not be the end of the file, and every byte
-- that was read from the pipe was sent. If
-- the stream could not be opened nothing is sent, there is one error, and the channel stays open.
pub transfer_file-HasEnded :
    (opened : Bool) (reads : List ReadResult) (accepts : ℕ → Bool) (o : ℕ)
    → comes_to_end reads ≡ true
    → ((opened ≡ true) × HasEnded reads (transfer_file opened reads accepts o))
      ⊎ ((opened ≡ false)
          × (sent_bytes (transfer_file opened reads accepts o).requests ≡ [])
          × (ending (transfer_file opened reads accepts o).notes ≡ some error_note)
          × ((transfer_file opened reads accepts o).channel_closed ≡ false))
unfolding transfer_file
transfer_file-HasEnded false reads accepts o h = inr (refl, refl, refl, refl)
transfer_file-HasEnded true reads accepts o h = inl (refl, send_loop-HasEnded reads accepts 0 o h)

send_loop-closed :
    (reads : List ReadResult) (accepts : ℕ → Bool) (k o : ℕ)
    → reaches_eof reads ≡ true
    → ((j : ℕ) → accepts j ≡ true)
    → (ending (send_loop reads accepts k o).notes ≡ some closed_note) × (comes_to_end reads ≡ true)
unfolding send_loop
send_loop-closed [] accepts k o e a = absurd (ground arith)
send_loop-closed (eof ∷ _) accepts k o e a = (refl, refl)
send_loop-closed (read_failed ∷ _) accepts k o e a = absurd (ground arith)
send_loop-closed (got b ∷ reads) accepts k o e a =
    let (closed, comes) = send_loop-closed reads accepts (suc k) ((o + length b) % 2 ^ 64) e a in
    (
      rw (a k) (
          rw
            (ending-cons
              (record {
                kind = bytes_note;
                last_transferred = length b;
                current_offset = (o + length b) % 2 ^ 64;
              })
              (send_loop reads accepts (suc k) ((o + length b) % 2 ^ 64)).notes refl (inr closed))
            closed),
      comes,
    )

-- If the stream is opened and accepts every request, and the reads come to the end of the file,
-- every byte of the file is sent, the last notification says closed, and the channel is closed.
pub transfer_file-closed :
    (reads : List ReadResult) (accepts : ℕ → Bool) (o : ℕ)
    → reaches_eof reads ≡ true
    → ((j : ℕ) → accepts j ≡ true)
    → (sent_bytes (transfer_file true reads accepts o).requests ≡ bytes_read reads)
      × (ending (transfer_file true reads accepts o).notes ≡ some closed_note)
      × ((transfer_file true reads accepts o).channel_closed ≡ true)
unfolding transfer_file
transfer_file-closed reads accepts o e a =
    let (closed, comes) = send_loop-closed reads accepts 0 o e a in
    let v = send_loop-HasEnded reads accepts 0 o comes in (v.complete closed, closed, v.closed)

-- The first request of a transfer has the first block that is read.
pub transfer_file-first :
    (b : Bytes) (reads : List ReadResult) (accepts : ℕ → Bool) (o : ℕ)
    → accepts 0 ≡ true
    → (transfer_file true (got b ∷ reads) accepts o).requests
      ≡ record { block = b; size = length b % 2 ^ 32; offset = o }
        ∷ (send_loop reads accepts 1 ((o + length b) % 2 ^ 64)).requests
unfolding transfer_file send_loop
transfer_file-first b reads accepts o a = rw a refl
