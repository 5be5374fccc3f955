-- ===== src/Text/Prefix.antt =====
-- What `after_prefix` finds.
use torrxfer.Base.{◌≡◌, refl, [], ◌∷◌, ◌++◌, some, arith}
use torrxfer.Text.Defs.{Bytes, after_prefix}

pub after_prefix-append : (p s t : Bytes) → after_prefix p s ≡ some t → s ≡ p ++ t
unfolding after_prefix
after_prefix-append [] s t h = ground arith
after_prefix-append (a ∷ p) [] t h = ground arith
after_prefix-append (a ∷ p) (b ∷ s) t h = ground (arith, after_prefix-append p s t)

pub after_prefix_of_append : (p t : Bytes) → after_prefix p (p ++ t) ≡ some t
unfolding after_prefix
after_prefix_of_append [] t = refl
after_prefix_of_append (a ∷ p) t = ground (arith, after_prefix_of_append p t)
