-- ===== src/Server/Session/Untouched.antt =====
-- What no call and no thread touches: a path for which no writer is started.
use mathlib.Core.Path.{subst}
use mathlib.Core.Option.{some-injective}
use torrxfer.Base.{
  ℕ, zero, suc, ◌≡◌, refl, ◌∙◌, List, [], ◌∷◌, Option, none, some, arith, All, lookup, get_elem?,
  set, All-append, length,
}
use torrxfer.Disk.Directories.{IsApart}
use torrxfer.Text.{Bytes}
use torrxfer.Platform.{Platform}
use torrxfer.Database.{Database}
use torrxfer.Disk.{Entry}
use torrxfer.Server.File.{File}
use torrxfer.Server.Session.Apart.{IsKept}
use torrxfer.Server.Writer.{Writer, transfer_to, close_pipe}
use torrxfer.Server.State.{
  Server, new_writer, set_active_file, step_writer, transfer_writer, transfer_at, close_writer,
  close_at, thread_step, thread_steps,
}
use torrxfer.Server.Session.Elsewhere.{IsElsewhere, transfer_to-path, writer_step-elsewhere}

All-set :
    {A : Type 0} (P : A → Type 0) (xs : List A) (i : ℕ) (v : A)
    → All P xs
    → P v
    → All P (set xs i v)
All-set P [] i v h k = tt
All-set P (x ∷ xs) zero v (h, hs) k = (k, hs)
All-set P (x ∷ xs) (suc i) v (h, hs) k = (h, All-set P xs i v hs k)

pub All-get_elem? :
    {A : Type 0} (P : A → Type 0) (xs : List A) (i : ℕ) (x : A)
    → All P xs
    → get_elem? xs i ≡ some x
    → P x
All-get_elem? P [] i x h e = absurd (ground arith)
All-get_elem? P (y ∷ xs) zero x (h, hs) e = subst P (some-injective y x e) h
All-get_elem? P (y ∷ xs) (suc i) x (h, hs) e = All-get_elem? P xs i x hs e

module _ (w : Platform) (d : Database) (root q : Bytes) (entry : Option (Entry w.Time)) where
  open w use {Time}

  -- What stands at the path, and no writer is for it.
  pub record IsUntouched (s : Server w d) : Type 0 where
    pub at_root : s.server_root_dir ≡ root
    pub there : lookup q s.disk.entries ≡ entry
    pub elsewhere : All (IsElsewhere w d q) s.writers

  step_writer-IsUntouched :
      (s : Server w d) (i : ℕ) (now : Time) (x : Option (Writer Time))
      → get_elem? s.writers i ≡ x
      → IsUntouched s
      → IsUntouched (step_writer w d s i now x)
  step_writer-IsUntouched s i now none e v = v
  step_writer-IsUntouched s i now (some x) e v =
      let ne = All-get_elem? (IsElsewhere w d q) s.writers i x v.elsewhere e in
      let (kept, same) =
        writer_step-elsewhere w d q (record { writer = x; disk = s.disk; db = s.db }) now ne in
      record {
        at_root = v.at_root;
        there = kept ∙ v.there;
        elsewhere = All-set (IsElsewhere w d q) s.writers i _ v.elsewhere (rw same ne);
      }

  pub thread_step-IsUntouched :
      (s : Server w d) (i : ℕ) (now : Time) → IsUntouched s → IsUntouched (thread_step w d s i now)
  unfolding thread_step
  thread_step-IsUntouched s i now v = step_writer-IsUntouched s i now (get_elem? s.writers i) refl v

  thread_steps-IsUntouched :
      (n : ℕ) (s : Server w d) (i : ℕ) (now : Time)
      → IsUntouched s
      → IsUntouched (thread_steps w d n s i now)
  unfolding thread_steps
  thread_steps-IsUntouched zero s i now v = v
  thread_steps-IsUntouched (suc n) s i now v =
      thread_steps-IsUntouched n (thread_step w d s i now) i now (thread_step-IsUntouched s i now v)

  set_writer-IsUntouched :
      (s : Server w d) (i : ℕ) (x y : Writer Time)
      → get_elem? s.writers i ≡ some x
      → y.file.full_path ≡ x.file.full_path
      → IsUntouched s
      → IsUntouched (record s { writers = set s.writers i y })
  set_writer-IsUntouched s i x y e same v = record {
    at_root = v.at_root;
    there = v.there;
    elsewhere =
        All-set (IsElsewhere w d q) s.writers i y v.elsewhere
          (rw same (All-get_elem? (IsElsewhere w d q) s.writers i x v.elsewhere e));
  }

  transfer_writer-IsUntouched :
      (s : Server w d) (b : Bytes) (o i : ℕ) (x : Option (Writer Time))
      → get_elem? s.writers i ≡ x
      → IsUntouched s
      → IsUntouched (transfer_writer w d s b o i x).0
  transfer_writer-IsUntouched s b o i none e v = v
  transfer_writer-IsUntouched s b o i (some x) e v =
      set_writer-IsUntouched s i x (transfer_to x b o) e (transfer_to-path x b o) v

  pub transfer_at-IsUntouched :
      (s : Server w d) (b : Bytes) (o : ℕ) (i : Option ℕ)
      → IsUntouched s
      → IsUntouched (transfer_at w d s b o i).0
  transfer_at-IsUntouched s b o none v = v
  transfer_at-IsUntouched s b o (some i) v =
      transfer_writer-IsUntouched s b o i (get_elem? s.writers i) refl v

  close_writer-IsUntouched :
      (s : Server w d) (i : ℕ) (x : Option (Writer Time))
      → get_elem? s.writers i ≡ x
      → IsUntouched s
      → IsUntouched (close_writer w d s i x)
  unfolding close_pipe
  close_writer-IsUntouched s i none e v = v
  close_writer-IsUntouched s i (some x) e v = set_writer-IsUntouched s i x (close_pipe x) e refl v

  pub close_at-IsUntouched :
      (s : Server w d) (i : Option ℕ) → IsUntouched s → IsUntouched (close_at w d s i)
  close_at-IsUntouched s none v = v
  close_at-IsUntouched s (some i) v = close_writer-IsUntouched s i (get_elem? s.writers i) refl v

  set_active_file-IsUntouched :
      (s : Server w d) (c key : Bytes) (f : File Time)
      → IsApart q f.full_path
      → IsUntouched s
      → IsUntouched (set_active_file w d s c key f)
  unfolding set_active_file
  set_active_file-IsUntouched s c key f ne v = record {
    at_root = v.at_root;
    there = v.there;
    elsewhere =
        All-append (IsElsewhere w d q) s.writers (new_writer f key ∷ []) v.elsewhere (ne, tt);
  }

  pub IsUntouched-IsKept : (c : Bytes) → IsKept w d root q c IsUntouched
  IsUntouched-IsKept c = record {
    at_root = λ s v. v.at_root;
    stores = λ s db v. record { at_root = v.at_root; there = v.there; elsewhere = v.elsewhere };
    removes = λ s disk there refuses v. record {
      at_root = v.at_root;
      there = there ∙ v.there;
      elsewhere = v.elsewhere;
    };
    starts = λ s key f n now ne v.
        thread_steps-IsUntouched n (set_active_file w d s c key f) (length s.writers) now
          (set_active_file-IsUntouched s c key f ne v);
  }
