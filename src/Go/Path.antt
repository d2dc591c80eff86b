-- ===== src/Go/Path.antt =====
-- path/filepath on Unix: Clean, Dir and Base.
use tcglog_parser.Common.{Bool, false, List, [], ◌∷◌, ◌++◌, reverse, ◌==◌, if◌then◌else◌, length}
use tcglog_parser.Go.Reader.{Bytes}
use tcglog_parser.Go.Text.{codes, equal}

-- The elements between the slashes; there is one at least.
unfoldable pub path_elements : Bytes → Bytes × List Bytes
path_elements [] = ([], [])
path_elements (c ∷ s) =
    let (first, rest) = path_elements s in
    if c == b'/' then ([], first ∷ rest) else (c ∷ first, rest)

-- One element behind those kept so far, the latest first: an empty one and `.` go away, and `..`
-- takes the element in front of it away, unless there is none to take.
unfoldable pub clean_element : Bool → List Bytes → Bytes → List Bytes
clean_element rooted [] e =
    if length e == 0
    then []
    else if equal e (codes ".")
    then []
    else if equal e (codes "..")
    then if rooted then [] else e ∷ []
    else e ∷ []
clean_element rooted (last ∷ kept) e =
    if length e == 0
    then last ∷ kept
    else if equal e (codes ".")
    then last ∷ kept
    else if equal e (codes "..")
    then if equal last (codes "..") then e ∷ last ∷ kept else kept
    else e ∷ last ∷ kept

unfoldable pub clean_elements : Bool → List Bytes → List Bytes → List Bytes
clean_elements rooted kept [] = reverse kept
clean_elements rooted kept (e ∷ es) = clean_elements rooted (clean_element rooted kept e) es

unfoldable pub join_elements : List Bytes → Bytes
join_elements [] = []
join_elements (e ∷ []) = e
join_elements (e ∷ next ∷ es) = e ++ (codes "/" ++ join_elements (next ∷ es))

unfoldable pub is_rooted : Bytes → Bool
is_rooted [] = false
is_rooted (c ∷ s) = c == b'/'

-- filepath.Clean
unfoldable pub clean : Bytes → Bytes
clean path =
    let (first, rest) = path_elements path in
    let text = join_elements (clean_elements (is_rooted path) [] (first ∷ rest)) in
    if is_rooted path then codes "/" ++ text else if length text == 0 then codes "." else text

-- The reversed path up to its last slash, that included, and behind it.
unfoldable pub up_to_slash : Bytes → Bytes
up_to_slash [] = []
up_to_slash (c ∷ s) = if c == b'/' then c ∷ s else up_to_slash s

unfoldable pub behind_slash : Bytes → Bytes
behind_slash [] = []
behind_slash (c ∷ s) = let rest = behind_slash s in if c == b'/' then [] else c ∷ rest

unfoldable pub without_slashes : Bytes → Bytes
without_slashes [] = []
without_slashes (c ∷ s) = if c == b'/' then without_slashes s else c ∷ s

-- filepath.Dir
unfoldable pub dir : Bytes → Bytes
dir path = clean (reverse (up_to_slash (reverse path)))

-- filepath.Base
unfoldable pub base : Bytes → Bytes
base [] = codes "."
base (c ∷ s) =
    let name = reverse (behind_slash (without_slashes (reverse (c ∷ s)))) in
    if length name == 0 then codes "/" else name
