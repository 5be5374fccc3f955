-- ===== src/Server/Session/Elsewhere.antt =====
-- What a write and a writer thread leave of the other paths.
use torrxfer.Base.{
  ℕ, ◌+◌, ◌%◌, ◌^◌, ◌≡◌, ◌≢◌, ◌∙◌, inl, inr, refl, ◌||◌, leb, [], some, arith, lookup,
  lookup-insert, eq_bytes_iff, Bool-cases, Option-cases,
}
use torrxfer.Disk.Directories.{IsApart, mkdir_all-elsewhere}
use torrxfer.Text.{Bytes}
use torrxfer.Platform.{Platform}
use torrxfer.Database.{Database}
use torrxfer.FilePath.{dir}
use torrxfer.Disk.{
  Disk, regular, directory, write_call, open_call, seek_call, mkdir_call, mkdir_all, open_file,
  write_open,
}
use torrxfer.Disk.Writes.{lookup-write_open}
use torrxfer.Server.File.{File, marshal_text}
use torrxfer.Server.Writer.{
  Machine, Writer, Phase, starting, ready, waiting, signalled, exited, copying, writer_step,
  transfer_to,
}

pub transfer_to-path :
    {T : Type 0} (x : Writer T) (b : Bytes) (o : ℕ)
    → (transfer_to x b o).file.full_path ≡ x.file.full_path
unfolding transfer_to
transfer_to-path x b o = ground arith

module _ {T : Type 0} (q : Bytes) where
  pub open_file-elsewhere :
      (disk disk' : Disk T) (path : Bytes) (now : T)
      → path ≢ q
      → open_file disk path now ≡ some disk'
      → lookup q disk'.entries ≡ lookup q disk.entries
  unfolding open_file
  open_file-elsewhere disk disk' path now ne h = elim (Bool-cases (disk.refuses open_call path)) [
    | inl e ↦ absurd (ground arith)
    | inr e ↦ elim (Option-cases (lookup path disk.entries)) [
      | inl k ↦
          ground (arith, lookup-insert path q (regular [] now) disk.entries, eq_bytes_iff path q)
      | inr (regular b t, k) ↦ ground arith
      | inr (directory n t, k) ↦ absurd (ground arith)
    ]
  ]

  write_open-elsewhere :
      (disk : Disk T) (path b : Bytes) (pos : ℕ) (now : T)
      → path ≢ q
      → lookup q (write_open disk path pos b now).entries ≡ lookup q disk.entries
  unfolding write_open
  write_open-elsewhere disk path b pos now ne = elim (Option-cases (lookup path disk.entries)) [
    | inl k ↦ rw (k, write_open) refl
    | inr (regular old t, k) ↦
        ground (arith, lookup-write_open disk path q pos b old t now k, eq_bytes_iff path q)
    | inr (directory n t, k) ↦ rw (k, write_open) refl
  ]

module _ (w : Platform) (d : Database) (q : Bytes) where
  open w use {Time}

  -- A thread of another path.
  abbrev pub IsElsewhere : Writer Time → Type 0
  IsElsewhere x = IsApart q x.file.full_path

  abbrev pub StaysElsewhere : Machine w d → Machine w d → Type 0
  StaysElsewhere m m' =
      (lookup q m'.disk.entries ≡ lookup q m.disk.entries)
      × (m'.writer.file.full_path ≡ m.writer.file.full_path)

  pub writer_step-elsewhere :
      (m : Machine w d) (now : Time)
      → IsElsewhere m.writer
      → StaysElsewhere m (writer_step w d m now)
  unfolding writer_step
  writer_step-elsewhere m now ne = of_phase m.writer.phase refl
    where
      path : Bytes
      path = m.writer.file.full_path

      of_phase : (ph : Phase) → m.writer.phase ≡ ph → StaysElsewhere m (writer_step w d m now)
      of_phase ready e = rw e (refl, refl)
      of_phase waiting e = rw e (refl, refl)
      of_phase exited e = rw e (refl, refl)
      of_phase signalled e =
          elim (Bool-cases
            (m.disk.refuses seek_call path || leb (2 ^ 63) m.writer.file.current_size)) [
              | inl k ↦ rw (e, k) (refl, refl)
              | inr k ↦ rw (e, k) (refl, refl)
            ]
      of_phase starting e = elim (Bool-cases (m.disk.refuses mkdir_call (dir path))) [
        | inl k ↦ rw (e, k) (refl, refl)
        | inr k ↦ elim (Option-cases (open_file (mkdir_all m.disk path now) path now)) [
          | inl o ↦ rw (e, k, o) (mkdir_all-elsewhere m.disk path q now ne.1, refl)
          | inr (disk', o) ↦
              rw (e, k, o)
                (
                  open_file-elsewhere q (mkdir_all m.disk path now) disk' path now ne.0 o
                      ∙ mkdir_all-elsewhere m.disk path q now ne.1,
                  refl,
                )
        ]
      ]
      of_phase (copying pos n) e = elim (Option-cases m.writer.pending) [
        | inr (b, p) ↦ elim (Bool-cases (m.disk.refuses write_call path)) [
          | inl k ↦ rw (e, p, k) (refl, refl)
          | inr k ↦ rw (e, p, k) (write_open-elsewhere q m.disk path b pos now ne.0, refl)
        ]
        | inl p ↦ elim (Bool-cases m.writer.closed) [
          | inr k ↦ rw (e, p, k) (refl, refl)
          | inl k ↦ elim (Option-cases (marshal_text w (counted n))) [
            | inl t ↦ rw (e, p, k, t) (refl, refl)
            | inr (text, t) ↦ rw (e, p, k, t) (refl, refl)
          ]
        ]
      ]
        where
          counted : ℕ → File Time
          counted n = record m.writer.file {
            current_size = (m.writer.file.current_size + n) % 2 ^ 64;
          }
