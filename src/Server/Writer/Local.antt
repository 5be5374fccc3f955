-- ===== src/Server/Writer/Local.antt =====
-- What of the disk a writer thread depends on, and what it leaves of the refusals.
use torrxfer.Base.{
  ℕ, ◌+◌, ◌%◌, ◌^◌, ◌≡◌, inl, inr, refl, ◌||◌, Bool, leb, [], Option, none, some, arith, lookup,
  insert, lookup-insert, eq_bytes_refl, eq_bytes, eq_bytes_sound, eq_bytes_iff, List, ◌∷◌, ◌≢◌, ◌∙◌,
  sym, Bool-cases, Option-cases,
}
use mathlib.Core.Path.{subst}
use torrxfer.Disk.Directories.{make_dir-lookup, make_dir-refuses, mkdir_all-refuses}
use torrxfer.Text.{Bytes}
use torrxfer.Platform.{Platform}
use torrxfer.Database.{Database}
use torrxfer.FilePath.{dir}
use torrxfer.Disk.{
  Call, Disk, Entry, regular, directory, write_at, write_call, open_call, seek_call, mkdir_call,
  mkdir_all, make_dir, make_dirs, parents, open_file, write_open,
}
use torrxfer.Disk.Writes.{write_open-refuses}
use torrxfer.Server.File.{File, marshal_text}
use torrxfer.Server.Writer.{
  Machine, Phase, starting, ready, waiting, signalled, exited, copying, open_handle, writer_step,
}

-- Two disks that are the same to one who looks at this path.
pub record IsSameAt {T : Type 0} (q : Bytes) (disk disk' : Disk T) : Type 0 where
  pub there : lookup q disk'.entries ≡ lookup q disk.entries
  pub refuses : disk'.refuses ≡ disk.refuses

module _ {T : Type 0} (q : Bytes) where
  abbrev BothOpen : Option (Disk T) → Option (Disk T) → Type 0
  BothOpen none none = Unit
  BothOpen (some disk) (some disk') = IsSameAt q disk disk'
  BothOpen none (some _) = ⊥
  BothOpen (some _) none = ⊥

  insert-IsSameAt :
      (disk disk' : Disk T) (e : Entry T)
      → IsSameAt q disk disk'
      → IsSameAt q
          (record disk { entries = insert q e disk.entries })
          (record disk' { entries = insert q e disk'.entries })
  insert-IsSameAt disk disk' e v = record {
    there =
        rw (lookup-insert q q e disk.entries, lookup-insert q q e disk'.entries, eq_bytes_refl q)
          refl;
    refuses = v.refuses;
  }

  make_dir-IsSameAt :
      (disk disk' : Disk T) (p : Bytes) (now : T)
      → IsSameAt q disk disk'
      → IsSameAt q (make_dir disk p now) (make_dir disk' p now)
  make_dir-IsSameAt disk disk' p now v = elim (Bool-cases (eq_bytes p q)) [
    | inl same ↦
        subst (λ (r : Bytes). IsSameAt q (make_dir disk r now) (make_dir disk' r now))
          (sym (eq_bytes_sound p q same))
          (elim (Option-cases (lookup q disk.entries)) [
            | inl e ↦ rw (v.there, e, make_dir) (insert-IsSameAt disk disk' (directory 0 now) v)
            | inr (x, e) ↦ rw (v.there, e, make_dir) v
          ])
    | inr other ↦
        let ne : p ≢ q = λ e. ground (arith, eq_bytes_iff p q) in
        record {
          there =
              make_dir-lookup disk' p q now _ ne
              ∙ v.there
              ∙ sym (make_dir-lookup disk p q now _ ne);
          refuses =
              make_dir-refuses disk' p now _ ∙ v.refuses ∙ sym (make_dir-refuses disk p now _);
        }
  ]

  make_dirs-IsSameAt :
      (ps : List Bytes) (disk disk' : Disk T) (now : T)
      → IsSameAt q disk disk'
      → IsSameAt q (make_dirs disk ps now) (make_dirs disk' ps now)
  make_dirs-IsSameAt [] disk disk' now v = v
  make_dirs-IsSameAt (p ∷ ps) disk disk' now v =
      make_dirs-IsSameAt ps (make_dir disk p now) (make_dir disk' p now) now
        (make_dir-IsSameAt disk disk' p now v)

  mkdir_all-IsSameAt :
      (disk disk' : Disk T) (path : Bytes) (now : T)
      → IsSameAt q disk disk'
      → IsSameAt q (mkdir_all disk path now) (mkdir_all disk' path now)
  unfolding mkdir_all
  mkdir_all-IsSameAt disk disk' path now v = make_dirs-IsSameAt (parents path) disk disk' now v

  open_file-BothOpen :
      (disk disk' : Disk T) (now : T)
      → IsSameAt q disk disk'
      → BothOpen (open_file disk q now) (open_file disk' q now)
  unfolding open_file
  open_file-BothOpen disk disk' now v = elim (Bool-cases (disk.refuses open_call q)) [
    | inl e ↦ rw (v.refuses, e) tt
    | inr e ↦ elim (Option-cases (lookup q disk.entries)) [
      | inl k ↦ rw (v.refuses, e, v.there, k) (insert-IsSameAt disk disk' (regular [] now) v)
      | inr (regular b t, k) ↦ rw (v.refuses, e, v.there, k) v
      | inr (directory n t, k) ↦ rw (v.refuses, e, v.there, k) tt
    ]
  ]

  write_open-IsSameAt :
      (disk disk' : Disk T) (pos : ℕ) (b : Bytes) (now : T)
      → IsSameAt q disk disk'
      → IsSameAt q (write_open disk q pos b now) (write_open disk' q pos b now)
  unfolding write_open
  write_open-IsSameAt disk disk' pos b now v = elim (Option-cases (lookup q disk.entries)) [
    | inl k ↦ rw (v.there, k, write_open) v
    | inr (regular old t, k) ↦
        rw (v.there, k, write_open)
          (insert-IsSameAt disk disk' (regular (write_at pos b old) now) v)
    | inr (directory n t, k) ↦ rw (v.there, k, write_open) v
  ]

module _ (w : Platform) (d : Database) where
  open w use {Time}

  -- Two machines with the same writer, which is for the path, on disks that it cannot tell apart.
  pub record IsSame (q : Bytes) (m m' : Machine w d) : Type 0 where
    pub path : m.writer.file.full_path ≡ q
    pub writer : m'.writer ≡ m.writer
    pub disk : IsSameAt q m.disk m'.disk

  module _ (m : Machine w d) (disk' : Disk Time) (db' : d.State) (now : Time) where
    -- The writer with another disk and another database.
    abbrev pub moved : Machine w d
    moved = record m { disk = disk'; db = db' }

    pub writer_step-moved :
        IsSameAt m.writer.file.full_path m.disk disk'
        → IsSame m.writer.file.full_path (writer_step w d m now) (writer_step w d moved now)
    unfolding writer_step
    writer_step-moved v = of_phase m.writer.phase refl
      where
        path : Bytes
        path = m.writer.file.full_path

        same :
            (m1 m2 : Machine w d)
            → m1.writer.file.full_path ≡ path
            → m2.writer ≡ m1.writer
            → IsSameAt path m1.disk m2.disk
            → IsSame path m1 m2
        same m1 m2 e1 e2 k = record { path = e1; writer = e2; disk = k }

        also :
            {call : Call} {p : Bytes} {answer : Bool}
            → m.disk.refuses call p ≡ answer
            → disk'.refuses call p ≡ answer
        also k = rw v.refuses k

        refuses_too :
            {answer : Bool}
            → (m.disk.refuses seek_call path || leb (2 ^ 63) m.writer.file.current_size) ≡ answer
            → (disk'.refuses seek_call path || leb (2 ^ 63) m.writer.file.current_size) ≡ answer
        refuses_too k = rw v.refuses k

        counted : ℕ → File Time
        counted n = record m.writer.file {
          current_size = (m.writer.file.current_size + n) % 2 ^ 64;
        }

        made : IsSameAt path (mkdir_all m.disk path now) (mkdir_all disk' path now)
        made = mkdir_all-IsSameAt path m.disk disk' path now v

        opened :
            (o o' : Option (Disk Time))
            → BothOpen path o o'
            → IsSame path
                (open_handle w d (record m { disk = mkdir_all m.disk path now }) o)
                (open_handle w d (record moved { disk = mkdir_all disk' path now }) o')
        opened none none k = same _ _ refl refl made
        opened (some disk1) (some disk2) k = same _ _ refl refl k
        opened none (some disk2) k = absurd k
        opened (some disk1) none k = absurd k

        of_phase :
            (ph : Phase)
            → m.writer.phase ≡ ph
            → IsSame path (writer_step w d m now) (writer_step w d moved now)
        of_phase ready e = rw e (same _ _ refl refl v)
        of_phase waiting e = rw e (same _ _ refl refl v)
        of_phase exited e = rw e (same _ _ refl refl v)
        of_phase signalled e =
            elim (Bool-cases
              (m.disk.refuses seek_call path || leb (2 ^ 63) m.writer.file.current_size)) [
                | inl k ↦ rw (e, k, refuses_too k) (same _ _ refl refl v)
                | inr k ↦ rw (e, k, refuses_too k) (same _ _ refl refl v)
              ]
        of_phase starting e = elim (Bool-cases (m.disk.refuses mkdir_call (dir path))) [
          | inl k ↦ rw (e, k, also k) (same _ _ refl refl v)
          | inr k ↦
              rw (e, k, also k)
                (opened (open_file (mkdir_all m.disk path now) path now)
                  (open_file (mkdir_all disk' path now) path now)
                  (open_file-BothOpen path (mkdir_all m.disk path now) (mkdir_all disk' path now)
                    now made))
        ]
        of_phase (copying pos n) e = elim (Option-cases m.writer.pending) [
          | inr (b, p) ↦ elim (Bool-cases (m.disk.refuses write_call path)) [
            | inl k ↦ rw (e, p, k, also k) (same _ _ refl refl v)
            | inr k ↦
                rw (e, p, k, also k)
                  (same _ _ refl refl (write_open-IsSameAt path m.disk disk' pos b now v))
          ]
          | inl p ↦ elim (Bool-cases m.writer.closed) [
            | inr k ↦ rw (e, p, k) (same _ _ refl refl v)
            | inl k ↦ elim (Option-cases (marshal_text w (counted n))) [
              | inl t ↦ rw (e, p, k, t) (same _ _ refl refl v)
              | inr (text, t) ↦ rw (e, p, k, t) (same _ _ refl refl v)
            ]
          ]
        ]

  open_file-refuses :
      (disk disk' : Disk Time) (path : Bytes) (now : Time)
      → open_file disk path now ≡ some disk'
      → disk'.refuses ≡ disk.refuses
  unfolding open_file
  open_file-refuses disk disk' path now h = elim (Bool-cases (disk.refuses open_call path)) [
    | inl e ↦ absurd (ground arith)
    | inr e ↦ elim (Option-cases (lookup path disk.entries)) [
      | inl k ↦ ground arith
      | inr (regular b t, k) ↦ ground arith
      | inr (directory n t, k) ↦ absurd (ground arith)
    ]
  ]

  pub writer_step-refuses :
      (m : Machine w d) (now : Time) → (writer_step w d m now).disk.refuses ≡ m.disk.refuses
  unfolding writer_step
  writer_step-refuses m now = of_phase m.writer.phase refl
    where
      path : Bytes
      path = m.writer.file.full_path

      of_phase :
          (ph : Phase) → m.writer.phase ≡ ph → (writer_step w d m now).disk.refuses ≡ m.disk.refuses
      of_phase ready e = rw e refl
      of_phase waiting e = rw e refl
      of_phase exited e = rw e refl
      of_phase signalled e =
          elim (Bool-cases
            (m.disk.refuses seek_call path || leb (2 ^ 63) m.writer.file.current_size)) [
              | inl k ↦ rw (e, k) refl
              | inr k ↦ rw (e, k) refl
            ]
      of_phase starting e = elim (Bool-cases (m.disk.refuses mkdir_call (dir path))) [
        | inl k ↦ rw (e, k) refl
        | inr k ↦ elim (Option-cases (open_file (mkdir_all m.disk path now) path now)) [
          | inl o ↦ rw (e, k, o) (mkdir_all-refuses m.disk path now)
          | inr (disk', o) ↦
              rw (e, k, o)
                (open_file-refuses (mkdir_all m.disk path now) disk' path now o
                  ∙ mkdir_all-refuses m.disk path now)
        ]
      ]
      of_phase (copying pos n) e = elim (Option-cases m.writer.pending) [
        | inr (b, p) ↦ elim (Bool-cases (m.disk.refuses write_call path)) [
          | inl k ↦ rw (e, p, k) refl
          | inr k ↦ rw (e, p, k) (write_open-refuses m.disk path pos b now)
        ]
        | inl p ↦ elim (Bool-cases m.writer.closed) [
          | inr k ↦ rw (e, p, k) refl
          | inl k ↦ elim (Option-cases (marshal_text w (counted n))) [
            | inl t ↦ rw (e, p, k, t) refl
            | inr (text, t) ↦ rw (e, p, k, t) refl
          ]
        ]
      ]
        where
          counted : ℕ → File Time
          counted n = record m.writer.file {
            current_size = (m.writer.file.current_size + n) % 2 ^ 64;
          }
