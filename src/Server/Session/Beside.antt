-- ===== src/Server/Session/Beside.antt =====
-- One writer thread among the other clients of a server and their threads.
use torrxfer.Base.{
  ℕ, zero, suc, ◌<◌, ◌≡◌, ◌≢◌, inl, inr, refl, ◌∙◌, sym, [], ◌∷◌, none, some, arith, lookup,
  lookup-insert, eq_bytes_iff, length, length-set, length-append, get_elem?, set,
  get_elem?-set_self, get_elem?-set_other, get_elem?-snoc, get_elem?-set_or, Option-cases,
}
use mathlib.Core.Path.{subst}
use mathlib.Core.Option.{some-injective}
use torrxfer.Disk.Directories.{IsApart}
use torrxfer.Text.{Bytes}
use torrxfer.Platform.{Platform}
use torrxfer.Database.{Database}
use torrxfer.Disk.{Disk}
use torrxfer.Server.File.{File}
use torrxfer.Server.Writer.{Machine, Writer, writer_step, transfer_to, close_pipe}
use torrxfer.Server.Writer.Local.{IsSameAt, writer_step-moved, writer_step-refuses}
use torrxfer.Server.Writer.Schedule.{transfer, close, handle, handle-transfer, handle-close}
use torrxfer.Server.State.{
  transfer_function, close_client, Server, new_writer, is_file_active, set_active_file, thread_step,
  thread_steps,
}
use torrxfer.Server.Session.Elsewhere.{writer_step-elsewhere, transfer_to-path}
use torrxfer.Server.Session.Apart.{IsKept}

module _ (w : Platform) (d : Database) (c : Bytes) (i : ℕ) (root q : Bytes) where
  open w use {Time}

  -- The file of the client `c` is the writer `i`, which alone is for the path `q`. The machine has
  -- that writer, on a disk that it cannot tell from the server's.
  pub record IsBeside (m : Machine w d) (s : Server w d) : Type 0 where
    pub at_root : s.server_root_dir ≡ root
    pub active : lookup c s.active_files ≡ some i
    pub sole : (k : Bytes) → lookup k s.active_files ≡ some i → k ≡ c
    pub in_range : i < length s.writers
    pub writer : get_elem? s.writers i ≡ some m.writer
    pub path : m.writer.file.full_path ≡ q
    pub disk : IsSameAt q m.disk s.disk
    pub others :
        (j : ℕ) (x : Writer Time)
        → j ≢ i
        → get_elem? s.writers j ≡ some x
        → IsApart q x.file.full_path

  -- The writer itself is another one by now.
  own-IsBeside :
      (m m' : Machine w d) (s : Server w d) (disk : Disk Time) (db : d.State)
      → m'.writer.file.full_path ≡ q
      → IsSameAt q m'.disk disk
      → IsBeside m s
      → IsBeside m' (record s { writers = set s.writers i m'.writer; disk = disk; db = db })
  own-IsBeside m m' s disk db path same v = record {
    at_root = v.at_root;
    active = v.active;
    sole = v.sole;
    in_range = omega (arith, length-set s.writers i m'.writer, v.in_range);
    writer = get_elem?-set_self s.writers i m'.writer v.in_range;
    path = path;
    disk = same;
    others = λ j x ne e. v.others j x ne (sym (get_elem?-set_other s.writers i j m'.writer ne) ∙ e);
  }

  -- Another writer is another one by now.
  other-IsBeside :
      (m : Machine w d) (s : Server w d) (j : ℕ) (y : Writer Time)
      → j ≢ i
      → IsApart q y.file.full_path
      → IsBeside m s
      → IsBeside m (record s { writers = set s.writers j y })
  other-IsBeside m s j y ne away v = record {
    at_root = v.at_root;
    active = v.active;
    sole = v.sole;
    in_range = omega (arith, length-set s.writers j y, v.in_range);
    writer = get_elem?-set_other s.writers j i y (λ e. ne (sym e)) ∙ v.writer;
    path = v.path;
    disk = v.disk;
    others = λ k x out e. elim (get_elem?-set_or s.writers j k y x e) [
      | inl same ↦ rw (← same) away
      | inr old ↦ v.others k x out old
    ];
  }

  disk-IsBeside :
      (m : Machine w d) (s : Server w d) (s' : Server w d)
      → s'.active_files ≡ s.active_files
      → s'.writers ≡ s.writers
      → s'.server_root_dir ≡ s.server_root_dir
      → IsSameAt q s.disk s'.disk
      → IsBeside m s
      → IsBeside m s'
  disk-IsBeside m s s' active writers at_root k v = record {
    at_root = at_root ∙ v.at_root;
    active = rw active v.active;
    sole = rw active v.sole;
    in_range = rw writers v.in_range;
    writer = rw writers v.writer;
    path = v.path;
    disk = record { there = k.there ∙ v.disk.there; refuses = k.refuses ∙ v.disk.refuses };
    others = rw writers v.others;
  }

  pub own_step :
      (m : Machine w d) (s : Server w d) (now : Time)
      → IsBeside m s
      → IsBeside (writer_step w d m now) (thread_step w d s i now)
  unfolding thread_step
  own_step m s now v =
      let k = writer_step-moved w d m s.disk s.db now (rw v.path v.disk) in
      let next = writer_step w d (record m { disk = s.disk; db = s.db }) now in
      rw (v.writer, k.writer)
        (own-IsBeside m (writer_step w d m now) s next.disk next.db (k.path ∙ v.path)
          (subst (λ (p : Bytes). IsSameAt p (writer_step w d m now).disk next.disk) v.path k.disk)
          v)

  pub other_step :
      (m : Machine w d) (s : Server w d) (j : ℕ) (now : Time)
      → j ≢ i
      → IsBeside m s
      → IsBeside m (thread_step w d s j now)
  unfolding thread_step
  other_step m s j now ne v = elim (Option-cases (get_elem? s.writers j)) [
    | inl e ↦ rw e v
    | inr (x, e) ↦
        let away = v.others j x ne e in
        let there : Machine w d = record { writer = x; disk = s.disk; db = s.db } in
        let (kept, same) = writer_step-elsewhere w d q there now away in
        rw e (
          disk-IsBeside m
            (record s { writers = set s.writers j (writer_step w d there now).writer }) _ refl refl
            refl (record { there = kept; refuses = writer_step-refuses w d there now })
            (other-IsBeside m s j (writer_step w d there now).writer ne (rw same away) v))
  ]

  other_steps :
      (n : ℕ) (m : Machine w d) (s : Server w d) (j : ℕ) (now : Time)
      → j ≢ i
      → IsBeside m s
      → IsBeside m (thread_steps w d n s j now)
  unfolding thread_steps
  other_steps zero m s j now ne v = v
  other_steps (suc n) m s j now ne v =
      other_steps n m (thread_step w d s j now) j now ne (other_step m s j now ne v)

  set_active_file-IsBeside :
      (m : Machine w d) (s : Server w d) (k key : Bytes) (f : File Time)
      → k ≢ c
      → IsApart q f.full_path
      → IsBeside m s
      → IsBeside m (set_active_file w d s k key f)
  unfolding set_active_file
  set_active_file-IsBeside m s k key f other away v = record {
    at_root = v.at_root;
    active =
        ground
          (arith, v.active, lookup-insert k c (length s.writers) s.active_files, eq_bytes_iff k c);
    sole = λ l e. ground (
      arith,
      v.in_range,
      v.sole l,
      lookup-insert k l (length s.writers) s.active_files,
      eq_bytes_iff k l,
    );
    in_range = omega (arith, v.in_range, length-append {0} s.writers (new_writer f key ∷ []));
    writer = elim (get_elem?-snoc s.writers (new_writer f key) i) [
      | inl e ↦ e ∙ v.writer
      | inr (e, h) ↦ absurd (omega (arith, v.in_range))
    ];
    path = v.path;
    disk = v.disk;
    others = λ j x ne e. elim (get_elem?-snoc s.writers (new_writer f key) j) [
      | inl h ↦ v.others j x ne (sym h ∙ e)
      | inr (at, h) ↦ rw (← some-injective (new_writer f key) x (sym h ∙ e)) away
    ];
  }

  pub IsBeside-IsKept : (m : Machine w d) (k : Bytes) → k ≢ c → IsKept w d root q k (IsBeside m)
  IsBeside-IsKept m k other = record {
    at_root = λ s v. v.at_root;
    stores = λ s db v.
        disk-IsBeside m s (record s { db = db }) refl refl refl
          (record { there = refl; refuses = refl }) v;
    removes = λ s disk there refuses v.
        disk-IsBeside m s (record s { disk = disk }) refl refl refl
          (record { there = there; refuses = refuses }) v;
    starts = λ s key f n now away v.
        other_steps n m (set_active_file w d s k key f) (length s.writers) now
          (λ e. absurd (omega (arith, v.in_range)))
          (set_active_file-IsBeside m s k key f other away v);
  }

  -- A call of the client itself.
  pub own_transfer :
      (m : Machine w d) (s : Server w d) (b : Bytes) (o : ℕ)
      → m.writer.pending ≡ none
      → IsBeside m s
      → IsBeside (handle w d m (transfer b o)) (transfer_function w d s c b o).0
  unfolding transfer_function is_file_active transfer_to
  own_transfer m s b o free v =
      rw (handle-transfer w d m b o free, v.active, v.writer)
        (own-IsBeside m (record m { writer = transfer_to m.writer b o }) s s.disk s.db
          (transfer_to-path m.writer b o ∙ v.path) v.disk v)

  pub own_close :
      (m : Machine w d) (s : Server w d)
      → m.writer.pending ≡ none
      → IsBeside m s
      → IsBeside (handle w d m close) (close_client w d s c)
  unfolding close_client is_file_active close_pipe
  own_close m s free v =
      rw (handle-close w d m free, v.active, v.writer)
        (own-IsBeside m (record m { writer = close_pipe m.writer }) s s.disk s.db v.path v.disk v)

  -- A call of another client.
  other_writer :
      (m : Machine w d) (s : Server w d) (j : ℕ) (f : Writer Time → Writer Time)
      → ((x : Writer Time) → (f x).file.full_path ≡ x.file.full_path)
      → j ≢ i
      → (x : Writer Time) → get_elem? s.writers j ≡ some x
      → IsBeside m s
      → IsBeside m (record s { writers = set s.writers j (f x) })
  other_writer m s j f same ne x e v =
      other-IsBeside m s j (f x) ne (rw (same x) (v.others j x ne e)) v

  pub other_transfer :
      (m : Machine w d) (s : Server w d) (k b : Bytes) (o : ℕ)
      → k ≢ c
      → IsBeside m s
      → IsBeside m (transfer_function w d s k b o).0
  unfolding transfer_function is_file_active
  other_transfer m s k b o other v = elim (Option-cases (lookup k s.active_files)) [
    | inl e ↦ rw e v
    | inr (j, e) ↦ elim (Option-cases (get_elem? s.writers j)) [
      | inl h ↦ rw (e, h) v
      | inr (x, h) ↦
          rw (e, h)
            (other_writer m s j (λ x. transfer_to x b o) (λ x. transfer_to-path x b o)
              (λ same. other (v.sole k (rw same at e))) x h v)
    ]
  ]

  pub other_close :
      (m : Machine w d) (s : Server w d) (k : Bytes)
      → k ≢ c
      → IsBeside m s
      → IsBeside m (close_client w d s k)
  unfolding close_client is_file_active close_pipe
  other_close m s k other v = elim (Option-cases (lookup k s.active_files)) [
    | inl e ↦ rw e v
    | inr (j, e) ↦ elim (Option-cases (get_elem? s.writers j)) [
      | inl h ↦ rw (e, h) v
      | inr (x, h) ↦
          rw (e, h)
            (other_writer m s j close_pipe (λ x. refl) (λ same. other (v.sole k (rw same at e))) x h
              v)
    ]
  ]
