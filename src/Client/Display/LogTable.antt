-- ===== src/Client/Display/LogTable.antt =====
-- internal/client/ui.go: `LogTable`, which the log writes to while the screen is shown. A line is
-- added to the table by a function that runs later, in any order with the others. The bytes of a line
-- are taken to stay as they were written until then.
use torrxfer.Base.{
  ℕ, zero, suc, ap, ◌+◌, ◌<◌, ◌≡◌, refl, inl, inr, Option-cases, List, [], ◌∷◌, ◌++◌, Option, none,
  some, arith, length, length-append, length-take, length-drop, take, drop, get_elem?,
}
use torrxfer.Text.{Bytes}

-- The rows of the table, if there is one yet, the lines that wait to be added, and what the standard
-- output was given.
pub record LogTable : Type 0 where
  pub rows : Option (List Bytes)
  pub waiting : List Bytes
  pub stdout : List Bytes

abbrev pub write_to : LogTable → Bytes → Option (List Bytes) → LogTable
write_to t p none = record t { stdout = t.stdout ++ (p ∷ []) }
write_to t p (some rows) = record t { waiting = t.waiting ++ (p ∷ []) }

-- The bytes that were written, with no error.
unfoldable pub write : LogTable → Bytes → LogTable × ℕ
write t p = (write_to t p t.rows, length p)

-- `generateLogStreaming` gives the writer its table.
unfoldable pub generate_log_streaming : LogTable → LogTable
generate_log_streaming t = record t { rows = some [] }

abbrev pub add_row : LogTable → ℕ → Option (List Bytes) → Option Bytes → LogTable
add_row t i (some rows) (some p) = record t {
  rows = some (rows ++ (p ∷ []));
  waiting = take i t.waiting ++ drop (suc i) t.waiting;
}
add_row t i _ _ = t

-- One of the functions that wait runs.
unfoldable pub show_line : LogTable → ℕ → LogTable
show_line t i = add_row t i t.rows (get_elem? t.waiting i)

pub data LogAction : Type 0 where
  writes : Bytes → LogAction
  shows : ℕ → LogAction

abbrev pub log_act : LogTable → LogAction → LogTable
log_act t (writes p) = (write t p).0
log_act t (shows i) = show_line t i

unfoldable pub log_run : LogTable → List LogAction → LogTable
log_run t [] = t
log_run t (x ∷ xs) = log_run (log_act t x) xs

abbrev pub written : List LogAction → ℕ
written [] = 0
written (writes p ∷ xs) = suc (written xs)
written (shows i ∷ xs) = written xs

abbrev pub row_count : Option (List Bytes) → ℕ
row_count none = 0
row_count (some rows) = length rows

abbrev pub line_count : LogTable → ℕ
line_count t = row_count t.rows + length t.waiting + length t.stdout

write-line_count : (t : LogTable) (p : Bytes) → line_count (write t p).0 ≡ suc (line_count t)
unfolding write
write-line_count t p = elim (Option-cases t.rows) [
  | inl e ↦ rw e (ground (arith, length-append {0} t.stdout (p ∷ [])))
  | inr (rows, e) ↦ rw e (ground (arith, length-append {0} t.waiting (p ∷ [])))
]

get_elem?-bound : (xs : List Bytes) (i : ℕ) (x : Bytes) → get_elem? xs i ≡ some x → i < length xs
get_elem?-bound [] i x e = cc
get_elem?-bound (y ∷ xs) zero x e = omega arith
get_elem?-bound (y ∷ xs) (suc i) x e = omega (arith, get_elem?-bound xs i x e)

show_line-line_count : (t : LogTable) (i : ℕ) → line_count (show_line t i) ≡ line_count t
unfolding show_line
show_line-line_count t i = elim (Option-cases t.rows) [
  | inl e ↦ rw e refl
  | inr (rows, e) ↦ elim (Option-cases (get_elem? t.waiting i)) [
    | inl f ↦ rw e (rw f (omega (arith, ap row_count e)))
    | inr (p, f) ↦ rw e (
        rw f (
          ground (
            arith,
            ap row_count e,
            length-append {0} rows (p ∷ []),
            length-append {0} (take i t.waiting) (drop (suc i) t.waiting),
            length-take {0} i t.waiting,
            length-drop {0} (suc i) t.waiting,
            get_elem?-bound t.waiting i p f,
          )))
  ]
]

-- However lines are written and functions run, every line that was written stands in the table, waits
-- to be added to it, or was given to the standard output, each once.
pub log_run-line_count :
    (xs : List LogAction) (t : LogTable) → line_count (log_run t xs) ≡ line_count t + written xs
unfolding log_run
log_run-line_count [] t = omega arith
log_run-line_count (writes p ∷ xs) t =
    omega (arith, log_run-line_count xs (write t p).0, write-line_count t p)
log_run-line_count (shows i ∷ xs) t =
    omega (arith, log_run-line_count xs (show_line t i), show_line-line_count t i)
