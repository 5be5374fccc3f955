-- ===== src/FilePath.antt =====
-- `Clean`, `Join`, `Base` and `Dir` of Go's `path/filepath` on Unix, which look at the text alone.
use torrxfer.Base.{◌≡◌, refl, Bool, List, [], ◌∷◌, ◌++◌, reverse, ◌==◌, if◌then◌else◌, eq_bytes}
use torrxfer.Text.{Bytes, codes, split, has_prefix}

abbrev pub slash : Bytes
slash = b'/' ∷ []

abbrev dot : Bytes
dot = b'.' ∷ []

abbrev dot_dot : Bytes
dot_dot = b'.' ∷ b'.' ∷ []

-- One element of the path; the elements that are kept so far, the last one first.
push_element : Bool → List Bytes → Bytes → List Bytes
unfolding eq_bytes
push_element rooted [] e = if eq_bytes e dot_dot then (if rooted then [] else e ∷ []) else e ∷ []
push_element rooted (k ∷ kept) e =
    if eq_bytes e dot_dot then (if eq_bytes k dot_dot then e ∷ k ∷ kept else kept) else e ∷ k ∷ kept

keep : Bool → List Bytes → List Bytes → List Bytes
unfolding push_element eq_bytes
keep rooted [] kept = reverse kept
keep rooted (e ∷ es) kept =
    keep rooted es
      (if eq_bytes e [] then kept else if eq_bytes e dot then kept else push_element rooted kept e)

join_elements : List Bytes → Bytes
join_elements [] = []
join_elements (e ∷ []) = e
join_elements (e ∷ f ∷ es) = e ++ slash ++ join_elements (f ∷ es)

or_dot : Bytes → Bytes
or_dot [] = dot
or_dot (c ∷ s) = c ∷ s

unfoldable pub clean : Bytes → Bytes
unfolding keep join_elements or_dot has_prefix split
clean s =
    let rooted = has_prefix s slash in
    let path = join_elements (keep rooted (split s slash) []) in
    if rooted then slash ++ path else or_dot path

-- The elements that are not empty, joined by slashes and cleaned; "" if all are empty.
unfoldable pub join : List Bytes → Bytes
unfolding clean eq_bytes
join [] = []
join (e ∷ es) = let rest = join es in if eq_bytes e [] then rest else clean (join_elements (e ∷ es))

last_named : List Bytes → Bytes → Bytes
last_named [] found = found
last_named (e ∷ es) found = last_named es (if eq_bytes e [] then found else e)

-- The last element that is not empty; "/" for a path of slashes, "." for the empty path.
unfoldable pub base : Bytes → Bytes
unfolding last_named eq_bytes split
base s = last_named (split s slash) (if eq_bytes s [] then dot else slash)

-- The reversed text from its first slash on.
from_slash : Bytes → Bytes
from_slash [] = []
from_slash (c ∷ s) = if c == b'/' then c ∷ s else from_slash s

unfoldable pub dir : Bytes → Bytes
unfolding from_slash clean
dir s = clean (reverse (from_slash (reverse s)))

path_tests : List Bytes
unfolding clean join base dir
path_tests =
    clean (codes "/a/./b//../c/")
    ∷ clean (codes "../x/..")
    ∷ clean (codes "/../..")
    ∷ clean []
    ∷ join (codes "/srv" ∷ [] ∷ codes "f.txt" ∷ [])
    ∷ join (codes "/srv" ∷ codes "/tv/" ∷ codes "f.txt" ∷ [])
    ∷ base (codes "/srv/tv/f.txt")
    ∷ base (codes "/srv/tv//")
    ∷ dir (codes "/srv/tv/f.txt")
    ∷ dir (codes "/f")
    ∷ dir (codes "f")
    ∷ []

path_tests_lem :
    path_tests
    ≡ codes "/a/c"
      ∷ codes ".."
      ∷ codes "/"
      ∷ codes "."
      ∷ codes "/srv/f.txt"
      ∷ codes "/srv/tv/f.txt"
      ∷ codes "f.txt"
      ∷ codes "tv"
      ∷ codes "/srv/tv"
      ∷ codes "/"
      ∷ codes "."
      ∷ []
unfolding path_tests
path_tests_lem = refl
