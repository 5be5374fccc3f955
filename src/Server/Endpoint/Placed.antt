-- ===== src/Server/Endpoint/Placed.antt =====
-- A client whose file is some writer of the server: the calls and the thread act on that writer.
use torrxfer.Base.{
  ℕ, ◌<◌, ◌≡◌, refl, true, none, some, arith, length, get_elem?, get_elem?-set_self, length-set,
}
use torrxfer.Text.{Bytes}
use torrxfer.Platform.{Platform}
use torrxfer.Database.{Database}
use torrxfer.Server.Writer.{Machine, writer_step, transfer_to, close_pipe}
use torrxfer.Server.Writer.Schedule.{transfer, close, handle, handle-transfer, handle-close}
use torrxfer.Server.State.{Server, is_file_active, transfer_function, close_client, thread_step}

module _ (w : Platform) (d : Database) where
  open w use {Time}

  -- The client's file is the writer `i`, and `m` is what that writer works on.
  pub record IsAt (c : Bytes) (i : ℕ) (m : Machine w d) (s : Server w d) : Type 0 where
    pub active : is_file_active w d s c ≡ some i
    pub in_range : i < length s.writers
    pub writer : get_elem? s.writers i ≡ some m.writer
    pub disk : s.disk ≡ m.disk
    pub db : s.db ≡ m.db

  pub thread_step-IsAt :
      (c : Bytes) (i : ℕ) (m : Machine w d) (s : Server w d) (now : Time)
      → IsAt c i m s
      → IsAt c i (writer_step w d m now) (thread_step w d s i now)
  unfolding thread_step is_file_active
  thread_step-IsAt c i m s now v =
      rw (v.writer, v.disk, v.db)
        (record {
          active = v.active;
          in_range =
              omega (arith, length-set s.writers i (writer_step w d m now).writer, v.in_range);
          writer = get_elem?-set_self s.writers i (writer_step w d m now).writer v.in_range;
          disk = refl;
          db = refl;
        })

  pub transfer_function-IsAt :
      (c : Bytes) (i : ℕ) (m : Machine w d) (s : Server w d) (b : Bytes) (o : ℕ)
      → IsAt c i m s
      → m.writer.pending ≡ none
      → ((transfer_function w d s c b o).1 ≡ true)
        × IsAt c i (handle w d m (transfer b o)) (transfer_function w d s c b o).0
  unfolding transfer_function is_file_active
  transfer_function-IsAt c i m s b o v p =
      rw (handle-transfer w d m b o p, v.active, v.writer)
        (
          refl,
          record {
            active = v.active;
            in_range = omega (arith, length-set s.writers i (transfer_to m.writer b o), v.in_range);
            writer = get_elem?-set_self s.writers i (transfer_to m.writer b o) v.in_range;
            disk = v.disk;
            db = v.db;
          },
        )

  pub close_client-IsAt :
      (c : Bytes) (i : ℕ) (m : Machine w d) (s : Server w d)
      → IsAt c i m s
      → m.writer.pending ≡ none
      → IsAt c i (handle w d m close) (close_client w d s c)
  unfolding close_client is_file_active
  close_client-IsAt c i m s v p =
      rw (handle-close w d m p, v.active, v.writer)
        (record {
          active = v.active;
          in_range = omega (arith, length-set s.writers i (close_pipe m.writer), v.in_range);
          writer = get_elem?-set_self s.writers i (close_pipe m.writer) v.in_range;
          disk = v.disk;
          db = v.db;
        })

  -- The other threads do nothing but that the writer `i` takes a step, or two where it has to wake
  -- up first.
  abbrev pub once : ℕ → Time → Server w d → Server w d
  once i now s = thread_step w d s i now

  abbrev pub twice : ℕ → Time → Server w d → Server w d
  twice i now s = thread_step w d (thread_step w d s i now) i now
