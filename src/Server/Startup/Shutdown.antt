-- ===== src/Server/Startup/Shutdown.antt =====
-- What a start and a shutdown leave.
use torrxfer.Base.{
  ℕ, zero, suc, ◌≡◌, ◌≢◌, ◌⊎◌, inl, inr, refl, true, List, [], ◌∷◌, Option, none, some, arith,
  eq_bytes, eq_bytes_sound, lookup, get_elem?, set, Option-cases, Bool-cases,
}
use torrxfer.Text.{Bytes}
use torrxfer.Platform.{Platform}
use torrxfer.Database.{Database}
use torrxfer.Server.Writer.{Writer, close_pipe}
use torrxfer.Server.State.{Server, close_client, close_at, is_file_active}
use torrxfer.Server.Startup.{close_clients, shut_down}

module _ (w : Platform) (d : Database) where
  open w use {Time}

  -- The writer `i` is there, and its pipe is closed.
  abbrev IsClosed : ℕ → Server w d → Type 0
  IsClosed i s = (x : Writer Time) × (get_elem? s.writers i ≡ some x) × (x.closed ≡ true)

  abbrev IsThere : ℕ → Server w d → Type 0
  IsThere i s = (x : Writer Time) × (get_elem? s.writers i ≡ some x)

  -- A write at another place or at this one.
  get_elem?-set :
      (xs : List (Writer Time)) (i j : ℕ) (x v : Writer Time)
      → get_elem? xs i ≡ some x
      → ((i ≡ j) × (get_elem? (set xs j v) i ≡ some v))
        ⊎ ((i ≢ j) × (get_elem? (set xs j v) i ≡ some x))
  get_elem?-set [] i j x v h = absurd (ground arith)
  get_elem?-set (y ∷ xs) zero zero x v h = inl (refl, refl)
  get_elem?-set (y ∷ xs) zero (suc j) x v h = inr (omega arith, h)
  get_elem?-set (y ∷ xs) (suc i) zero x v h = inr (omega arith, h)
  get_elem?-set (y ∷ xs) (suc i) (suc j) x v h = elim (get_elem?-set xs i j x v h) [
    | inl (e, k) ↦ inl (omega arith, k)
    | inr (e, k) ↦ inr (omega arith, k)
  ]

  close_at-keeps :
      (s : Server w d) (at : Option ℕ)
      → ((close_at w d s at).active_files ≡ s.active_files)
        × ((close_at w d s at).disk ≡ s.disk)
        × ((close_at w d s at).db ≡ s.db)
  close_at-keeps s none = (refl, refl, refl)
  close_at-keeps s (some j) = elim (Option-cases (get_elem? s.writers j)) [
    | inl e ↦ rw e (refl, refl, refl)
    | inr (x, e) ↦ rw e (refl, refl, refl)
  ]

  close_at-IsThere :
      (s : Server w d) (at : Option ℕ) (i : ℕ) (x : Writer Time)
      → get_elem? s.writers i ≡ some x
      → (y : Writer Time) × (get_elem? (close_at w d s at).writers i ≡ some y)
        × (x.closed ≡ true → y.closed ≡ true)
        × (at ≡ some i → y.closed ≡ true)
  unfolding close_pipe
  close_at-IsThere s none i x h = (x, h, λ c. c, λ e. absurd (ground arith))
  close_at-IsThere s (some j) i x h = elim (Option-cases (get_elem? s.writers j)) [
    | inl e ↦ rw e (x, h, λ c. c, λ k. absurd (ground arith))
    | inr (y, e) ↦ rw e (elim (get_elem?-set s.writers i j x (close_pipe y) h) [
      | inl (k, g) ↦ (close_pipe y, g, λ c. refl, λ c. refl)
      | inr (k, g) ↦ (x, g, λ c. c, λ c. absurd (ground arith))
    ])
  ]

  close_clients-IsClosed :
      (entries : List (Bytes × ℕ)) (s : Server w d) (i : ℕ) (x : Writer Time)
      → get_elem? s.writers i ≡ some x
      → x.closed ≡ true
      → IsClosed i (close_clients w d s entries)
  unfolding close_clients close_client
  close_clients-IsClosed [] s i x h k = (x, h, k)
  close_clients-IsClosed ((c, j) ∷ entries) s i x h k =
      let (y, there, kept, closed) = close_at-IsThere s (is_file_active w d s c) i x h in
      close_clients-IsClosed entries (close_at w d s (is_file_active w d s c)) i y there (kept k)

  close_clients-closes :
      (entries : List (Bytes × ℕ)) (s : Server w d) (c : Bytes) (i n : ℕ) (x : Writer Time)
      → lookup c entries ≡ some n
      → is_file_active w d s c ≡ some i
      → get_elem? s.writers i ≡ some x
      → IsClosed i (close_clients w d s entries)
  unfolding close_clients close_client lookup is_file_active
  close_clients-closes [] s c i n x l a h = absurd (ground arith)
  close_clients-closes ((c', j) ∷ entries) s c i n x l a h =
      let at = is_file_active w d s c' in
      let (y, there, kept, closed) = close_at-IsThere s at i x h in
      elim (Bool-cases (eq_bytes c' c)) [
        | inl e ↦
            close_clients-IsClosed entries (close_at w d s at) i y there
              (closed (rw (eq_bytes_sound c' c e) a))
        | inr e ↦
            close_clients-closes entries (close_at w d s at) c i n y (rw e at l)
              (rw ((close_at-keeps s at).0) a) there
      ]

  close_clients-keeps :
      (entries : List (Bytes × ℕ)) (s : Server w d)
      → ((close_clients w d s entries).disk ≡ s.disk) × ((close_clients w d s entries).db ≡ s.db)
  unfolding close_clients close_client
  close_clients-keeps [] s = (refl, refl)
  close_clients-keeps ((c, j) ∷ entries) s =
      let (a, b, k) = close_at-keeps s (is_file_active w d s c) in
      let (b', k') = close_clients-keeps entries (close_at w d s (is_file_active w d s c)) in
      (rw b' b, rw k' k)

  -- A server that is shut down has closed the pipe of every client's writer, so that each of these
  -- threads comes to the end of its transfer; the disk and the database are as they were.
  pub shut_down_lem :
      (s : Server w d)
      → ((shut_down w d s).disk ≡ s.disk)
        × ((shut_down w d s).db ≡ s.db)
        × ((c : Bytes) (i : ℕ) (x : Writer Time)
            → is_file_active w d s c ≡ some i
            → get_elem? s.writers i ≡ some x
            → (y : Writer Time) × (get_elem? (shut_down w d s).writers i ≡ some y)
              × (y.closed ≡ true))
  unfolding shut_down
  shut_down_lem s =
      let (disk, db) = close_clients-keeps s.active_files s in
      (
        disk,
        db,
        λ c i x a h. close_clients-closes s.active_files s c i i x (unfold is_file_active in a) a h,
      )
