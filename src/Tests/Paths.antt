-- ===== src/Tests/Paths.antt =====
-- What counts as a directory of a media root, at concrete data.
use torrxfer.Base.{◌≡◌, ◌↔◌, ◌⊎◌, refl, true, false, All, ◌∷◌, ◌++◌, arith}
use torrxfer.Text.{Bytes, codes}
use torrxfer.FilePath.{clean}
use torrxfer.Paths.{is_subdir}
use torrxfer.Paths.Match.{has_slash}
use torrxfer.Paths.Subdir.{IsLiteral, is_subdir_lem}

abbrev root : Bytes
root = codes "/m"

clean-root : clean root ≡ codes "/m"
unfolding clean
clean-root = refl

root-IsLiteral : All IsLiteral (clean root)
root-IsLiteral = rw clean-root (ground arith)

is_subdir_lem_example : (is_subdir root (codes "/m/tv") ≡ true) ↔ (
    (clean root ≡ clean (codes "/m/tv"))
    ⊎ ((name : Bytes) × (codes "/m/tv" ≡ clean root ++ (b'/' ∷ name)) × (has_slash name ≡ false)))
is_subdir_lem_example = is_subdir_lem root (codes "/m/tv") root-IsLiteral
