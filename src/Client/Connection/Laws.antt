-- ===== src/Client/Connection/Laws.antt =====
-- What a connection reports of the files that it was given.
use mathlib.Core.Path.{subst}
use torrxfer.Base.{
  ℕ, zero, suc, ◌+◌, ◌*◌, ◌%◌, ◌^◌, ◌<◌, ◌≡◌, ◌≢◌, refl, List, [], ◌∷◌, ◌++◌, Option, none, some,
  arith, length, replicate, drop, length-append, length-replicate, lookup, map, lookup-insert,
  eq_bytes_refl, eq_bytes_iff, get_elem?, ap,
}
use torrxfer.Text.{Bytes}
use torrxfer.Client.Connection.{
  ServerConnection, record_file, add_bytes, get_file_size_on_server, get_bytes_transferred,
  get_files_transferred, file_of,
}

length-map : {A B : Type 0} (f : A → B) (xs : List A) → length (map f xs) ≡ length xs
length-map f [] = refl
length-map f (x ∷ xs) = ap suc (length-map f xs)

drop-append : {A : Type 0} (xs ys : List A) → drop (length xs) (xs ++ ys) ≡ ys
drop-append [] ys = refl
drop-append (x ∷ xs) ys = drop-append xs ys

get_elem?-replicate :
    {A : Type 0} (n i : ℕ) (a : A) (ys : List A)
    → i < n
    → get_elem? (replicate n a ++ ys) i ≡ some a
get_elem?-replicate zero i a ys h = elim h [ ]
get_elem?-replicate (suc n) zero a ys h = refl
get_elem?-replicate (suc n) (suc i) a ys h = get_elem?-replicate n i a ys (omega arith)

module _ {T : Type 0} where
  -- The list of the files has twice as many entries as there are files: the first half are nil
  -- pointers, and the files themselves stand behind them.
  pub get_files_transferred_lem :
      (s : ServerConnection T)
      → (length (get_files_transferred s) ≡ 2 * length s.files_transferred)
        × ((i : ℕ)
            → i < length s.files_transferred
            → get_elem? (get_files_transferred s) i ≡ some none)
        × (drop (length s.files_transferred) (get_files_transferred s)
            ≡ map file_of s.files_transferred)
  unfolding get_files_transferred
  get_files_transferred_lem s = (
    omega (
      arith,
      length-append {0} (replicate (length s.files_transferred) none)
          (map file_of s.files_transferred),
      length-replicate {0} {A = Option ℕ} (length s.files_transferred) none,
      length-map file_of s.files_transferred,
    ),
    λ i h. get_elem?-replicate (length s.files_transferred) i none _ h,
    dropped,
  )
    where
      dropped :
          drop (length s.files_transferred) (get_files_transferred s)
          ≡ map file_of s.files_transferred
      dropped =
          subst (λ k. drop k (get_files_transferred s) ≡ map file_of s.files_transferred)
            (length-replicate {0} {A = Option ℕ} (length s.files_transferred) none)
            (drop-append (replicate (length s.files_transferred) none)
              (map file_of s.files_transferred))

  -- After a file was recorded at an offset and `n` bytes were notified, its size on the server is
  -- their sum, and the bytes of the connection have grown by `n`, both modulo 2^64. Another
  -- recorded path that stands for another file keeps its size.
  pub add_bytes-record_file :
      (s : ServerConnection T) (path other : Bytes) (file g o n : ℕ)
      → o < 2 ^ 64
      → path ≢ other
      → lookup other s.files_transferred ≡ some g
      → g ≢ file
      → (get_file_size_on_server (add_bytes (record_file s path file o) file n) path
          ≡ (o + n) % 2 ^ 64)
        × (get_bytes_transferred (add_bytes (record_file s path file o) file n)
            ≡ (get_bytes_transferred s + n) % 2 ^ 64)
        × (get_file_size_on_server (add_bytes (record_file s path file o) file n) other
            ≡ get_file_size_on_server s other)
  unfolding get_file_size_on_server add_bytes record_file get_bytes_transferred
  add_bytes-record_file s path other file g o n small ne present distinct = (
    rw (lookup-insert path path file s.files_transferred, eq_bytes_refl path) (ground arith),
    refl,
    ground (arith, lookup-insert path other file s.files_transferred, eq_bytes_iff path other),
  )
