-- ===== src/Paths/Subdir.antt =====
-- What `IsSubdir` accepts.
use torrxfer.Base.{
  ℕ, suc, ◌≡◌, ◌≢◌, ◌↔◌, ◌⊎◌, inl, inr, refl, Bool, true, false, ◌||◌, not, [], ◌∷◌, ◌++◌, All,
  All-append, Option, none, some, arith, length, eq_bytes, eq_bytes_iff, append_assoc, Option-cases,
  Bool-cases,
}
use torrxfer.Text.{Bytes, after_prefix}
use torrxfer.Text.Prefix.{after_prefix-append, after_prefix_of_append}
use torrxfer.FilePath.{clean}
use torrxfer.Paths.Match.{
  backslash, chunk_of, match_chunk, place, has_slash, fits, or_else, match_from, match, strip_stars,
}
use torrxfer.Paths.{children, is_subdir}

-- A character that stands for itself in a pattern.
abbrev pub IsLiteral : ℕ → Type 0
IsLiteral c = (c ≢ b'*') × (c ≢ b'?') × (c ≢ b'[') × (c ≢ backslash)

chunk_of-literal :
    (p : Bytes)
    → All IsLiteral p
    → chunk_of false (p ++ (b'/' ∷ b'*' ∷ [])) ≡ (p ++ (b'/' ∷ []), b'*' ∷ [])
chunk_of-literal [] h = refl
chunk_of-literal (c ∷ []) (h, hs) = ground arith
chunk_of-literal (c ∷ e ∷ p) (h, hs) = ground (arith, chunk_of-literal (e ∷ p) hs)

match_chunk-literal :
    (p s : Bytes) → All IsLiteral p → match_chunk (length p) p s ≡ after_prefix p s
unfolding match_chunk after_prefix
match_chunk-literal [] s h = refl
match_chunk-literal (c ∷ p) [] h = refl
match_chunk-literal (c ∷ p) (x ∷ s) (h, hs) = ground (arith, match_chunk-literal p s hs)

place-literal : (p s : Bytes) → All IsLiteral p → place false p (b'*' ∷ []) s ≡ after_prefix p s
place-literal p s h =
    rw (match_chunk-literal p s h) (elim (Option-cases (after_prefix p s)) [
      | inl e ↦ rw e refl
      | inr (t, e) ↦ rw e (fits_lem t)
    ])
  where
    fits_lem : (t : Bytes) → or_else (fits (b'*' ∷ []) (some t)) none ≡ some t
    fits_lem [] = refl
    fits_lem (x ∷ t) = refl

abbrev direct : Option Bytes → Bool
direct none = false
direct (some t) = not (has_slash t)

slash-IsLiteral : IsLiteral b'/'
slash-IsLiteral = ground arith

match_from-star : (f : ℕ) (t : Bytes) → match_from (suc f) (b'*' ∷ []) t ≡ not (has_slash t)
unfolding match_from
match_from-star f t = refl

strip_stars-ne : (c : ℕ) (p : Bytes) → c ≢ b'*' → strip_stars (c ∷ p) ≡ (false, c ∷ p)
strip_stars-ne c p ne = ground arith

match-round :
    (f c : ℕ) (p q s : Bytes)
    → c ≢ b'*'
    → chunk_of false (c ∷ p) ≡ (q, b'*' ∷ [])
    → All IsLiteral q
    → match_from (suc (suc f)) (c ∷ p) s ≡ direct (after_prefix q s)
unfolding match_from
match-round f c p q s ne e h =
    rw (strip_stars-ne c p ne, e, place-literal q s h)
      (elim (Option-cases (after_prefix q s)) [ inl a ↦ rw a refl | inr (t, a) ↦ rw a refl ])

match-literal :
    (p s : Bytes)
    → All IsLiteral p
    → match (p ++ (b'/' ∷ b'*' ∷ [])) s ≡ direct (after_prefix (p ++ (b'/' ∷ [])) s)
unfolding match
match-literal [] s h =
    match-round 1 b'/' (b'*' ∷ []) (b'/' ∷ []) s (ground arith) refl (slash-IsLiteral, tt)
match-literal (c ∷ p) s h =
    match-round (length (p ++ (b'/' ∷ b'*' ∷ []))) c (p ++ (b'/' ∷ b'*' ∷ []))
      (c ∷ p ++ (b'/' ∷ [])) s h.0.0 (chunk_of-literal (c ∷ p) h)
      (All-append IsLiteral (c ∷ p) (b'/' ∷ []) h (slash-IsLiteral, tt))

-- For a root whose cleaned text has none of the characters `*`, `?`, `[` and the backslash, a
-- directory counts as one of its subdirectories exactly if both clean to the same text, or it is
-- written as the cleaned root, a slash, and a text without a slash: only what stands directly in
-- the root, and nothing deeper.
pub is_subdir_lem :
    (root subdir : Bytes)
    → All IsLiteral (clean root)
    → (is_subdir root subdir ≡ true) ↔ (
        (clean root ≡ clean subdir)
        ⊎ ((name : Bytes) × (subdir ≡ clean root ++ (b'/' ∷ name)) × (has_slash name ≡ false)))
unfolding is_subdir
is_subdir_lem root subdir h = (to, from)
  where
    q : Bytes
    q = clean root ++ (b'/' ∷ [])

    to :
        (eq_bytes (clean root) (clean subdir) || match (children root) subdir) ≡ true
        → (clean root ≡ clean subdir)
          ⊎ ((name : Bytes) × (subdir ≡ clean root ++ (b'/' ∷ name)) × (has_slash name ≡ false))
    to e = elim (Bool-cases (eq_bytes (clean root) (clean subdir))) [
      | inl y ↦ inl (ground (arith, eq_bytes_iff (clean root) (clean subdir)))
      | inr n ↦ elim (Option-cases (after_prefix q subdir)) [
        | inl a ↦ absurd (ground (arith, match-literal (clean root) subdir h))
        | inr (t, a) ↦ inr (
          t,
          rw (← append_assoc (clean root) (b'/' ∷ []) t) (after_prefix-append q subdir t a),
          ground (arith, match-literal (clean root) subdir h),
        )
      ]
    ]

    from :
        (clean root ≡ clean subdir)
          ⊎ ((name : Bytes) × (subdir ≡ clean root ++ (b'/' ∷ name)) × (has_slash name ≡ false))
        → (eq_bytes (clean root) (clean subdir) || match (children root) subdir) ≡ true
    from (inl e) = ground (arith, eq_bytes_iff (clean root) (clean subdir))
    from (inr (name, e, n)) = ground (
      arith,
      match-literal (clean root) subdir h,
      after_prefix_of_append q name,
      append_assoc (clean root) (b'/' ∷ []) name,
    )
