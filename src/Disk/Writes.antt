-- ===== src/Disk/Writes.antt =====
-- Writes one behind another, and the entries that a write leaves alone.
use Prim.Native.Nat.add
use native.Mathlib.Nat.{add-zero}
use torrxfer.Base.{
  ℕ, zero, suc, ◌+◌, ◌≡◌, refl, ap, [], ◌∷◌, ◌++◌, append-nil, some, length, drop, lookup,
  lookup-insert, Option-cases, inl, inr, eq_bytes, if◌then◌else◌, sym,
}
use torrxfer.Text.{Bytes}
use torrxfer.Disk.{Disk, regular, directory, overwrite, place, write_at, write_open}

overwrite-nil : (b : Bytes) → overwrite b [] ≡ b
unfolding overwrite
overwrite-nil [] = refl
overwrite-nil (c ∷ b) = refl

place-length : (c b : Bytes) → place (length c) b c ≡ c ++ b
unfolding place
place-length [] b = overwrite-nil b
place-length (x ∷ c) b = ap (λ r. x ∷ r) (place-length c b)

place-overwrite : (c b old : Bytes) → place (length c) b (overwrite c old) ≡ overwrite (c ++ b) old
unfolding place overwrite
place-overwrite [] b old = refl
place-overwrite (x ∷ c) b [] = ap (λ r. x ∷ r) (place-length c b)
place-overwrite (x ∷ c) b (_ ∷ old) = ap (λ r. x ∷ r) (place-overwrite c b old)

place-append :
    (p : ℕ) (c b old : Bytes) → place (p + length c) b (place p c old) ≡ place p (c ++ b) old
unfolding place
place-append zero c b old = rw add.zero (place-overwrite c b old)
place-append (suc p) c b [] = rw add.suc (ap (λ r. 0 ∷ r) (place-append p c b []))
place-append (suc p) c b (x ∷ old) = rw add.suc (ap (λ r. x ∷ r) (place-append p c b old))

-- A write behind an earlier write is one write of both.
pub write_at-append :
    (p : ℕ) (c b old : Bytes)
    → write_at (p + length c) b (write_at p c old) ≡ write_at p (c ++ b) old
unfolding write_at
write_at-append p c [] old = rw append-nil
write_at-append p [] (x ∷ b) old = rw add-zero
write_at-append p (y ∷ c) (x ∷ b) old = place-append p (y ∷ c) (x ∷ b) old

overwrite-drop : (b old : Bytes) → overwrite b old ≡ b ++ drop (length b) old
unfolding overwrite
overwrite-drop [] old = refl
overwrite-drop (c ∷ b) [] = ap (λ r. c ∷ r) (sym (append-nil b))
overwrite-drop (c ∷ b) (x ∷ old) = ap (λ r. c ∷ r) (overwrite-drop b old)

-- A write at the start keeps what stands behind it.
pub write_at-start : (b old : Bytes) → write_at 0 b old ≡ b ++ drop (length b) old
unfolding write_at place
write_at-start [] old = refl
write_at-start (c ∷ b) old = overwrite-drop (c ∷ b) old

pub write_at-empty : (b : Bytes) → write_at 0 b [] ≡ b
unfolding write_at place overwrite
write_at-empty [] = refl
write_at-empty (c ∷ b) = refl

module _ {T : Type 0} where
  -- The written file has the new content, and the other entries are as before.
  pub lookup-write_open :
      (d : Disk T) (p q : Bytes) (pos : ℕ) (b old : Bytes) (t now : T)
      → lookup p d.entries ≡ some (regular old t)
      → lookup q (write_open d p pos b now).entries
        ≡ (if eq_bytes p q then some (regular (write_at pos b old) now) else lookup q d.entries)
  unfolding write_open
  lookup-write_open d p q pos b old t now h =
      rw (h, write_open) (lookup-insert p q (regular (write_at pos b old) now) d.entries)

  pub write_open-refuses :
      (d : Disk T) (p : Bytes) (pos : ℕ) (b : Bytes) (now : T)
      → (write_open d p pos b now).refuses ≡ d.refuses
  unfolding write_open
  write_open-refuses d p pos b now = elim (Option-cases (lookup p d.entries)) [
    | inl e ↦ rw (e, write_open)
    | inr (regular old t, e) ↦ rw (e, write_open)
    | inr (directory n t, e) ↦ rw (e, write_open)
  ]
