-- ===== src/Text/Split.antt =====
-- What `split` does to the parts of a text that a separator was put between.
use torrxfer.Base.{
  ℕ, ◌≤◌, ◌≡◌, refl, ap, List, [], ◌∷◌, ◌++◌, append-nil, append_assoc, none, some, arith, length,
  length-append, All, inl, inr, Option-cases,
}
use torrxfer.Text.Defs.{Bytes, after_prefix, split_from, split}

-- The separator begins nowhere inside the part, also where the part is followed by a separator.
abbrev pub IsFree : Bytes → Bytes → Type 0
IsFree sep [] = Unit
IsFree sep (c ∷ p) = (after_prefix sep (c ∷ (p ++ sep)) ≡ none) × IsFree sep p

-- A longer text is refused for the same reason, if the first text was long enough.
after_prefix-append_none :
    (p s r : Bytes) → after_prefix p s ≡ none → length p ≤ length s → after_prefix p (s ++ r) ≡ none
unfolding after_prefix
after_prefix-append_none [] s r h le = ground arith
after_prefix-append_none (a ∷ p) [] r h le = absurd (omega arith)
after_prefix-append_none (a ∷ p) (b ∷ s) r h le = ground (arith, after_prefix-append_none p s r)

after_prefix-append :
    (p s r t : Bytes) → after_prefix p s ≡ some t → after_prefix p (s ++ r) ≡ some (t ++ r)
unfolding after_prefix
after_prefix-append [] s r t h = ground arith
after_prefix-append (a ∷ p) [] r t h = ground arith
after_prefix-append (a ∷ p) (b ∷ s) r t h = ground (arith, after_prefix-append p s r t)

after_prefix-none : (p s r : Bytes) → after_prefix p (s ++ r) ≡ none → after_prefix p s ≡ none
after_prefix-none p s r h = elim (Option-cases (after_prefix p s)) [
  | inl e ↦ e
  | inr (t, e) ↦ ground (arith, after_prefix-append p s r t e)
]

pub after_prefix_self : (p r : Bytes) → after_prefix p (p ++ r) ≡ some r
unfolding after_prefix
after_prefix_self [] r = refl
after_prefix_self (a ∷ p) r = ground (arith, after_prefix_self p r)

split_from_skip :
    (sep w s cur : Bytes) → split_from sep (w ++ s) cur (length w) ≡ split_from sep s cur 0
unfolding split_from
split_from_skip sep [] s cur = refl
split_from_skip sep (c ∷ w) s cur = split_from_skip sep w s cur

-- One round of the loop, where a separator begins and where none does.
split_from_hit :
    (a : ℕ) (w s cur : Bytes)
    → split_from (a ∷ w) (a ∷ (w ++ s)) cur 0 ≡ cur ∷ split_from (a ∷ w) s [] 0
split_from_hit a w s cur =
    unfold split_from in
    rw (after_prefix_self (a ∷ w) s, split_from)
      (ap (λ r. cur ∷ r) (split_from_skip (a ∷ w) w s []))

split_from_miss :
    (sep : Bytes) (c : ℕ) (s cur : Bytes)
    → after_prefix sep (c ∷ s) ≡ none
    → split_from sep (c ∷ s) cur 0 ≡ split_from sep s (cur ++ (c ∷ [])) 0
unfolding split_from
split_from_miss sep c s cur h = ground arith

-- A part up to the next separator.
split_from_part :
    (a : ℕ) (w p s cur : Bytes)
    → IsFree (a ∷ w) p
    → split_from (a ∷ w) (p ++ (a ∷ (w ++ s))) cur 0 ≡ (cur ++ p) ∷ split_from (a ∷ w) s [] 0
split_from_part a w [] s cur free = rw append-nil (split_from_hit a w s cur)
split_from_part a w (c ∷ p) s cur free = rw (
  split_from_miss (a ∷ w) c _ cur refused,
  split_from_part a w p s (cur ++ (c ∷ [])) free.1,
  append_assoc cur (c ∷ []) p,
)
  where
    refused : after_prefix (a ∷ w) (c ∷ (p ++ (a ∷ (w ++ s)))) ≡ none
    refused = rw (← append_assoc p (a ∷ w) s) (
        after_prefix-append_none (a ∷ w) (c ∷ (p ++ (a ∷ w))) s free.0
          (omega (arith, length-append {0} p (a ∷ w))))

-- The last part.
split_from_last : (sep p cur : Bytes) → IsFree sep p → split_from sep p cur 0 ≡ (cur ++ p) ∷ []
split_from_last sep [] cur free = unfold split_from in rw append-nil
split_from_last sep (c ∷ p) cur free = rw (
  split_from_miss sep c p cur (after_prefix-none sep (c ∷ p) sep free.0),
  split_from_last sep p (cur ++ (c ∷ [])) free.1,
  append_assoc cur (c ∷ []) p,
)

-- The parts behind the first one, each behind a separator.
abbrev pub separated : Bytes → List Bytes → Bytes
separated sep [] = []
separated sep (p ∷ ps) = sep ++ (p ++ separated sep ps)

split_from-separated :
    (a : ℕ) (w p cur : Bytes) (ps : List Bytes)
    → IsFree (a ∷ w) p
    → All (IsFree (a ∷ w)) ps
    → split_from (a ∷ w) (p ++ separated (a ∷ w) ps) cur 0 ≡ (cur ++ p) ∷ ps
split_from-separated a w p cur [] free _ = rw append-nil (split_from_last (a ∷ w) p cur free)
split_from-separated a w p cur (q ∷ ps) free (hq, hps) = rw (
  split_from_part a w p (q ++ separated (a ∷ w) ps) cur free,
  split_from-separated a w q [] ps hq hps,
)

-- Parts in which the separator does not begin are found again by `split`.
pub split-separated :
    (a : ℕ) (w p : Bytes) (ps : List Bytes)
    → IsFree (a ∷ w) p
    → All (IsFree (a ∷ w)) ps
    → split (p ++ separated (a ∷ w) ps) (a ∷ w) ≡ p ∷ ps
unfolding split
split-separated a w p ps free frees = split_from-separated a w p [] ps free frees
