-- ===== src/Server/Writer/Invariant.antt =====
-- What a transfer keeps true of the writer thread, the file and the database, event by event.
use torrxfer.Base.{
  ℕ, ◌+◌, ◌%◌, ◌^◌, ◌≡◌, ◌⊎◌, inl, inr, refl, Bool, true, false, List, [], ◌∷◌, ◌++◌, append_assoc,
  append-nil, Option, none, some, arith, length, length-append, lookup, Bool-cases, Option-cases,
  ◌||◌, leb, eq_bytes_refl,
}
use torrxfer.Text.{Bytes}
use torrxfer.Platform.{Platform}
use torrxfer.Database.{Database}
use torrxfer.Disk.{regular, write_at, write_call, seek_call}
use torrxfer.Disk.Writes.{write_at-append, lookup-write_open}
use torrxfer.Server.File.{File, marshal_text}
use torrxfer.Server.Writer.{
  Machine, signalled, copying, exited, writer_step, transfer_to, close_pipe,
}
use torrxfer.Server.Writer.Schedule.{Event, transfer, close, tick, handle, run}

abbrev pub bytes_of : Option Bytes → Bytes
bytes_of none = []
bytes_of (some b) = b

module _ (w : Platform) (d : Database) where
  open w use {Time}

  -- The bytes that the pipe accepts from an event: none while a `Write` waits, or once closed.
  abbrev pub accepted : Option Bytes → Bool → Event Time → Bytes
  accepted none false (transfer b offset) = b
  accepted _ _ _ = []

  -- The bytes that it accepts on a schedule, in order.
  unfoldable pub accepted_on : Machine w d → List (Event Time) → Bytes
  unfolding handle
  accepted_on m [] = []
  accepted_on m (e ∷ es) =
      accepted m.writer.pending m.writer.closed e ++ accepted_on (handle w d m e) es

  -- A transfer at offset `o` into the file `f`, whose content was `old`.
  module _ (f : File Time) (key : Bytes) (o : ℕ) (old : Bytes) (db : d.State) where
    abbrev pub Content : Machine w d → Bytes → Time → Type 0
    Content m c stamp = lookup f.full_path m.disk.entries ≡ some (regular (write_at o c old) stamp)

    -- The thread has written `c`, and the pipe has accepted `sent`.
    pub record Active (c sent : Bytes) (stamp : Time) (m : Machine w d) : Type 0 where
      pub file : m.writer.file ≡ record f { current_size = o }
      pub db_key : m.writer.db_key ≡ key
      pub once_done : m.writer.once_done ≡ true
      pub not_done : m.writer.done_sent ≡ false
      pub stored : m.db ≡ db
      pub written : Content m c stamp
      pub balance : sent ≡ c ++ bytes_of m.writer.pending
      pub place :
          ((m.writer.phase ≡ signalled) × (c ≡ []))
          ⊎ (m.writer.phase ≡ copying (o + length c) (length c))

    pub record Done (sent : Bytes) (stamp : Time) (text : Bytes) (m : Machine w d) : Type 0 where
      pub phase : m.writer.phase ≡ exited
      pub free : m.writer.pending ≡ none
      pub closed : m.writer.closed ≡ true
      pub once_done : m.writer.once_done ≡ true
      pub written : Content m sent stamp
      pub marshalled :
          marshal_text w (record f { current_size = (o + length sent) % 2 ^ 64 }) ≡ some text
      pub stored : m.db ≡ (d.put db key text).0

    abbrev pub Failed : Machine w d → Type 0
    Failed m = (m.writer.phase ≡ exited) × (m.writer.done_sent ≡ false)

    abbrev pub Good : Bytes → Machine w d → Type 0
    Good sent m =
        Failed m
        ⊎ (((c : Bytes) × (stamp : Time) × Active c sent stamp m)
            ⊎ ((stamp : Time) × (text : Bytes) × Done sent stamp text m))

    abbrev pub refused_seek : Machine w d → Bool
    refused_seek m =
        m.disk.refuses seek_call m.writer.file.full_path || leb (2 ^ 63) m.writer.file.current_size

    pub seek-Good :
        {c sent : Bytes} {stamp : Time} (m : Machine w d) (now : Time)
        → Active c sent stamp m
        → m.writer.phase ≡ signalled
        → c ≡ []
        → Good sent (writer_step w d m now)
    seek-Good {c} {stamp} m now a h e = elim (Bool-cases (refused_seek m)) [
      | inl r ↦ inl (unfold writer_step in ground arith)
      | inr r ↦ inr (inl (c, stamp, unfold writer_step in ground (arith, a.written)))
    ]

    pub block-Good :
        {c sent : Bytes} {stamp : Time} (m : Machine w d) (now : Time) (b : Bytes)
        → Active c sent stamp m
        → m.writer.phase ≡ copying (o + length c) (length c)
        → m.writer.pending ≡ some b
        → Good sent (writer_step w d m now)
    block-Good {c} {stamp} m now b a h e =
        elim (Bool-cases (m.disk.refuses write_call m.writer.file.full_path)) [
          | inl r ↦ inl (unfold writer_step in ground arith)
          | inr r ↦ inr (
              inl (
                c ++ b,
                now,
                unfold writer_step in
                    ground (
                      arith,
                      lookup-write_open m.disk f.full_path f.full_path (o + length c) b
                          (write_at o c old) stamp now,
                      a.written,
                      write_at-append o c b old,
                      append_assoc c b [],
                      append-nil b,
                      append-nil (c ++ b),
                      length-append {0} c b,
                      eq_bytes_refl f.full_path,
                    ),
              ))
        ]

    pub finish-Good :
        {c sent : Bytes} {stamp : Time} (m : Machine w d) (now : Time)
        → Active c sent stamp m
        → m.writer.phase ≡ copying (o + length c) (length c)
        → m.writer.pending ≡ none
        → Good sent (writer_step w d m now)
    finish-Good {c} {stamp} m now a h e = elim (Bool-cases m.writer.closed) [
      | inr r ↦ inr (inl (c, stamp, unfold writer_step in ground (arith, a.written)))
      | inl r ↦
          elim (Option-cases
            (marshal_text w (record f { current_size = (o + length c) % 2 ^ 64 }))) [
              | inl none_made ↦ inl (unfold writer_step in ground arith)
              | inr (text, made) ↦
                  inr (
                    inr
                      (stamp, text, unfold writer_step in ground (arith, a.written, append-nil c)))
            ]
    ]

    tick-Good :
        {c sent : Bytes} {stamp : Time} (m : Machine w d) (now : Time)
        → Active c sent stamp m
        → Good sent (writer_step w d m now)
    tick-Good m now a = elim a.place [
      | inl (h, e) ↦ seek-Good m now a h e
      | inr h ↦ elim (Option-cases m.writer.pending) [
        | inl e ↦ finish-Good m now a h e
        | inr (b, e) ↦ block-Good m now b a h e
      ]
    ]

    pub transfer-Good :
        {c sent : Bytes} {stamp : Time} (m : Machine w d) (b : Bytes) (n : ℕ)
        → Active c sent stamp m
        → Active c
            (sent ++ accepted m.writer.pending m.writer.closed (transfer b n))
            stamp
            (handle w d m (transfer b n))
    transfer-Good {c} {sent} m b n a = elim (Option-cases m.writer.pending) [
      | inr (x, e) ↦ unfold handle transfer_to in ground (arith, a.written, append-nil sent)
      | inl e ↦ elim (Bool-cases m.writer.closed) [
        | inl s ↦ unfold handle transfer_to in ground (arith, a.written, append-nil sent)
        | inr s ↦ unfold handle transfer_to in ground (arith, a.written, append-nil c)
      ]
    ]

    close-Good :
        {c sent : Bytes} {stamp : Time} (m : Machine w d)
        → Active c sent stamp m
        → Active c sent stamp (handle w d m close)
    close-Good m a = unfold handle close_pipe in ground (arith, a.written)

    accepted_other :
        (p : Option Bytes) (s : Bool)
        → (accepted p s close ≡ []) × ((now : Time) → accepted p s (tick now) ≡ [])
    accepted_other none true = (refl, λ now. refl)
    accepted_other none false = (refl, λ now. refl)
    accepted_other (some x) _ = (refl, λ now. refl)

    Active-Good :
        {c sent : Bytes} {stamp : Time} (m : Machine w d) (e : Event Time)
        → Active c sent stamp m
        → Good (sent ++ accepted m.writer.pending m.writer.closed e) (handle w d m e)
    Active-Good {c} {stamp} m (transfer b n) a = inr (inl (c, stamp, transfer-Good m b n a))
    Active-Good {c} {sent} {stamp} m close a =
        rw ((accepted_other m.writer.pending m.writer.closed).0, append-nil sent)
          (inr (inl (c, stamp, close-Good m a)))
    Active-Good {sent} m (tick now) a =
        rw ((accepted_other m.writer.pending m.writer.closed).1 now, append-nil sent)
          (unfold handle in tick-Good m now a)

    Failed-Good :
        (sent : Bytes) (m : Machine w d) (e : Event Time) → Failed m → Failed (handle w d m e)
    unfolding handle writer_step transfer_to close_pipe
    Failed-Good sent m (transfer b n) f = ground arith
    Failed-Good sent m close f = ground arith
    Failed-Good sent m (tick now) f = ground arith

    Done-Good :
        {sent text : Bytes} {stamp : Time} (m : Machine w d) (e : Event Time)
        → Done sent stamp text m
        → Done (sent ++ accepted m.writer.pending m.writer.closed e) stamp text (handle w d m e)
    unfolding handle writer_step transfer_to close_pipe
    Done-Good {sent} m (transfer b n) f = ground (arith, append-nil sent, f.written)
    Done-Good {sent} m close f = ground (arith, append-nil sent, f.written)
    Done-Good {sent} m (tick now) f = ground (arith, append-nil sent, f.written)

    handle-Good :
        {sent : Bytes} (m : Machine w d) (e : Event Time)
        → Good sent m
        → Good (sent ++ accepted m.writer.pending m.writer.closed e) (handle w d m e)
    handle-Good {sent} m e (inl f) = inl (Failed-Good sent m e f)
    handle-Good m e (inr (inl (c, stamp, a))) = Active-Good m e a
    handle-Good m e (inr (inr (stamp, text, f))) = inr (inr (stamp, text, Done-Good m e f))

    pub run-Good :
        (m : Machine w d) (es : List (Event Time)) (sent : Bytes)
        → Good sent m
        → Good (sent ++ accepted_on m es) (run w d m es)
    unfolding run accepted_on
    run-Good m [] sent g = rw append-nil g
    run-Good m (e ∷ es) sent g =
        rw
          (← append_assoc sent (accepted m.writer.pending m.writer.closed e)
            (accepted_on (handle w d m e) es))
          (run-Good (handle w d m e) es (sent ++ accepted m.writer.pending m.writer.closed e)
            (handle-Good m e g))

    pub Done-of-Good :
        (sent : Bytes) (m : Machine w d)
        → Good sent m
        → m.writer.done_sent ≡ true
        → (stamp : Time) × (text : Bytes) × Done sent stamp text m
    Done-of-Good sent m (inl f) h = absurd (ground arith)
    Done-of-Good sent m (inr (inl (c, stamp, a))) h = absurd (ground arith)
    Done-of-Good sent m (inr (inr x)) h = x
