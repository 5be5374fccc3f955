-- ===== src/Tests/Writers.antt =====
-- The writer thread at concrete data.
use torrxfer.Base.{
  ℕ, ◌≡◌, refl, inl, inr, true, false, none, some, arith, List, [], ◌∷◌, ◌++◌, length, lookup,
  insert, eq_bytes,
}
use torrxfer.Text.{Bytes, codes}
use torrxfer.Decimal.{format_uint}
use torrxfer.Disk.{Disk, regular, write_at, write_open}
use torrxfer.Server.File.{File, marshal_text}
use torrxfer.Server.Writer.{Machine, Phase, ready, waiting, writer_step, transfer_to, close_pipe}
use torrxfer.Server.Writer.Schedule.{Event, transfer, close, tick, handle, run}
use torrxfer.Server.Writer.Invariant.{accepted_on}
use torrxfer.Server.Writer.LostSignal.{lost_signal}
use torrxfer.Server.Writer.Delivery.{IsWaiting, final_file, delivered}
use torrxfer.Server.Writer.Completion.{IsStored, paced, completed}
use torrxfer.Tests.World.{platform, database}

abbrev pub path : Bytes
path = codes "/srv/f"

abbrev pub file : File ℕ
file = record {
  full_path = path;
  media_prefix = [];
  size = 5;
  current_size = 0;
  creation_time = 1600;
  modified_time = 1700;
}

abbrev pub disk : Disk ℕ
disk = record { entries = (path, regular (codes "0123456789") 7) ∷ []; refuses = λ _ _. false }

abbrev pub in_phase : Phase → Machine platform database
in_phase ph = record {
  writer = record {
    file = file;
    db_key = codes "key";
    phase = ph;
    once_done = false;
    pending = none;
    closed = false;
    error_sent = false;
    done_sent = false;
  };
  disk = disk;
  db = [];
}

pub waits : IsWaiting platform database (codes "0123456789") 7 (in_phase waiting)
unfolding lookup eq_bytes
waits = record {
  phase = refl;
  once_done = refl;
  pending = refl;
  closed = refl;
  done_sent = refl;
  present = refl;
}

abbrev schedule : List (Event ℕ)
schedule =
    tick 8
    ∷ tick 8
    ∷ transfer (codes "de") 99
    ∷ tick 9
    ∷ close
    ∷ transfer (codes "x") 0
    ∷ tick 10
    ∷ []

abbrev started : Machine platform database
started = handle platform database (in_phase waiting) (transfer (codes "abc") 2)

done_at_end : (run platform database started schedule).writer.done_sent ≡ true
unfolding run writer_step transfer_to close_pipe write_open write_at lookup insert eq_bytes
    marshal_text format_uint
done_at_end = refl

pub final_text :
    marshal_text platform (final_file platform database file 2 5)
    ≡ some (codes "/srv/f*?**?*5*?*7*?*1600*?*1700")
unfolding marshal_text format_uint
final_text = refl

lost_signal_example :
    ((run platform database
        (handle platform database (in_phase ready) (transfer (codes "abc") 0))
        schedule).writer.pending
      ≡ some (codes "abc"))
    × ((run platform database
          (handle platform database (in_phase ready) (transfer (codes "abc") 0))
          schedule).writer.done_sent
        ≡ false)
    × ((run platform database
          (handle platform database (in_phase ready) (transfer (codes "abc") 0))
          schedule).db
        ≡ [])
lost_signal_example =
    lost_signal platform database (in_phase ready) (codes "abc") 0 schedule refl refl refl
      (inr (inl refl))

delivered_example :
    (stamp' : ℕ) × (text : Bytes) × (lookup path
        (run platform database started schedule).disk.entries
      ≡ some (
          regular
            (write_at 2
              (codes "abc" ++ accepted_on platform database started schedule)
              (codes "0123456789"))
            stamp'))
    × (marshal_text platform (
          final_file platform database file 2
            (length (codes "abc" ++ accepted_on platform database started schedule)))
        ≡ some text)
    × ((run platform database started schedule).db ≡ (database.put [] (codes "key") text).0)
delivered_example =
    delivered platform database (in_phase waiting) (codes "0123456789") 7 (codes "abc") 2 schedule
      waits done_at_end

completed_example :
    IsStored platform database file
      (codes "key")
      []
      2
      (codes "0123456789")
      (codes "abcde")
      9
      (codes "/srv/f*?**?*5*?*7*?*1600*?*1700")
      (run platform database (in_phase waiting) (
        transfer (codes "abc") 2
        ∷ tick 9
        ∷ tick 9
        ∷ paced platform database 9 ((codes "de", 99) ∷ [])))
completed_example =
    completed platform database (in_phase waiting) (codes "0123456789") 7 9 (codes "abc")
      ((codes "de", 99) ∷ []) 2 (codes "/srv/f*?**?*5*?*7*?*1600*?*1700") waits refl refl
      (omega arith) final_text
