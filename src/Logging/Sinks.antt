-- ===== src/Logging/Sinks.antt =====
-- Where the lines of the log go.
use torrxfer.Base.{
  not, ap, ◌∙◌, ℕ, suc, ◌+◌, ◌≡◌, refl, Bool, true, false, ◌||◌, List, [], ◌∷◌, ◌++◌, Option, arith,
  ◌==◌, if◌then◌else◌, Bool-cases, inl, inr,
}
use torrxfer.Logging.{
  Sink, raw, console, has_logger, or_stdout, add_logger, add_loggers, multis, configure_logging,
}

-- How many times a line is written to a writer as it is, and through console writers.
abbrev pub raw_count : ℕ → List Sink → ℕ
raw_count w [] = 0
raw_count w (raw l ∷ ss) = (if w == l then 1 else 0) + raw_count w ss
raw_count w (console l b ∷ ss) = raw_count w ss

abbrev pub console_count : List Sink → ℕ
console_count [] = 0
console_count (raw l ∷ ss) = console_count ss
console_count (console l b ∷ ss) = suc (console_count ss)

module _ (stdout : ℕ) where
  abbrev pub is_given : ℕ → List (Option ℕ) → Bool
  is_given w [] = false
  is_given w (l ∷ ls) = w == or_stdout stdout l || is_given w ls

  occurs : ℕ → List ℕ → ℕ
  occurs w [] = 0
  occurs w (l ∷ ls) = (if w == l then 1 else 0) + occurs w ls

  occurs-append :
      (w : ℕ) (ls : List ℕ) (l : ℕ)
      → occurs w (ls ++ (l ∷ [])) ≡ occurs w ls + (if w == l then 1 else 0)
  unfolding occurs
  occurs-append w [] l = ground arith
  occurs-append w (k ∷ ls) l = ground (arith, occurs-append w ls l)

  -- A set has each of its members once.
  IsDistinct : List ℕ → Type 0
  IsDistinct ls = (w : ℕ) → occurs w ls ≡ (if has_logger w ls then 1 else 0)

  has_logger-append :
      (w : ℕ) (ls : List ℕ) (l : ℕ) → has_logger w (ls ++ (l ∷ [])) ≡ (has_logger w ls || w == l)
  has_logger-append w [] l = ground arith
  has_logger-append w (k ∷ ls) l = ground (arith, has_logger-append w ls l)

  add_logger-IsDistinct :
      (ls : List ℕ) (l : Option ℕ)
      → IsDistinct ls
      → IsDistinct (add_logger stdout ls l)
        × ((w : ℕ)
            → has_logger w (add_logger stdout ls l) ≡ (has_logger w ls || w == or_stdout stdout l))
  unfolding IsDistinct add_logger
  add_logger-IsDistinct ls l d = elim (Bool-cases (has_logger (or_stdout stdout l) ls)) [
    | inl e ↦ rw e (d, λ w. known ls (or_stdout stdout l) w e)
    | inr e ↦ rw e (
      λ w. added ls (or_stdout stdout l) w e (d w),
      λ w. has_logger-append w ls (or_stdout stdout l),
    )
  ]
    where
      known :
          (ls : List ℕ) (k w : ℕ)
          → has_logger k ls ≡ true
          → has_logger w ls ≡ (has_logger w ls || w == k)
      known ls k w e = ground arith

      added :
          (ls : List ℕ) (k w : ℕ)
          → has_logger k ls ≡ false
          → occurs w ls ≡ (if has_logger w ls then 1 else 0)
          → occurs w (ls ++ (k ∷ [])) ≡ (if has_logger w (ls ++ (k ∷ [])) then 1 else 0)
      added ls k w e h = ground (arith, occurs-append w ls k, has_logger-append w ls k)

  regroup : (a b c e : Bool) → e ≡ (a || b) → (e || c) ≡ (a || (b || c))
  regroup a b c e h = ground arith

  add_loggers-IsDistinct :
      (ls : List ℕ) (ins : List (Option ℕ))
      → IsDistinct ls
      → (w : ℕ)
      → occurs w (add_loggers stdout ls ins) ≡ (if has_logger w ls || is_given w ins then 1 else 0)
  unfolding add_loggers
  add_loggers-IsDistinct ls [] d w = unfold IsDistinct in ground (arith, d w)
  add_loggers-IsDistinct ls (l ∷ ins) d w =
      let (next, members) = add_logger-IsDistinct ls l d in
      add_loggers-IsDistinct (add_logger stdout ls l) ins next w
      ∙ ap (λ b. if b then 1 else 0) (regroup _ _ _ _ (members w))

  multis-same :
      (short_log : Bool) (ls : List ℕ)
      → multis stdout short_log ls ≡ multis stdout (not short_log) ls
  unfolding multis
  multis-same short_log [] = refl
  multis-same short_log (l ∷ ls) = ap (λ ss. raw l ∷ ss) (multis-same short_log ls)

  multis-raw :
      (short_log : Bool) (ls : List ℕ) (w : ℕ)
      → (raw_count w (multis stdout short_log ls) ≡ occurs w ls)
        × (console_count (multis stdout short_log ls) ≡ 0)
  unfolding multis occurs
  multis-raw short_log [] w = (refl, refl)
  multis-raw short_log (l ∷ ls) w = let (r, c) = multis-raw short_log ls w in (omega (arith, r), c)

  -- With at least one logger given, a line is written once to each of the given loggers, however
  -- often it is given, where a nil one is the standard output; to nothing else; and never through a
  -- console writer, so that the short form makes no difference.
  pub configure_logging_lem :
      (before : List Sink) (short_log : Bool) (l : Option ℕ) (ls : List (Option ℕ)) (w : ℕ)
      → (raw_count w (configure_logging stdout before short_log (l ∷ ls))
          ≡ (if is_given w (l ∷ ls) then 1 else 0))
        × (console_count (configure_logging stdout before short_log (l ∷ ls)) ≡ 0)
        × (configure_logging stdout before short_log (l ∷ ls)
            ≡ configure_logging stdout before (not short_log) (l ∷ ls))
  unfolding configure_logging
  configure_logging_lem before short_log l ls w =
      let all = add_loggers stdout [] (l ∷ ls) in
      let (r, c) = multis-raw short_log all w in
      (
        r ∙ add_loggers-IsDistinct [] (l ∷ ls) (unfold IsDistinct occurs in (λ v. refl)) w,
        c,
        multis-same short_log all,
      )
