-- ===== src/GoString/FilePath.antt =====
-- Package path of Go: `Base` and `Clean` on slash-separated paths.
use dalec_homebrew.Prelude.{Bool, not, ◌&&◌, ◌||◌, List, [], ◌∷◌, ◌++◌, ◌==◌, if◌then◌else◌, ltb}
use dalec_homebrew.GoString.{Bytes, lit, str_eq, split, count}

-- The path with the slashes at its end taken off.
unfoldable pub strip_slashes : Bytes → Bytes
unfolding str_eq
strip_slashes [] = []
strip_slashes (c ∷ s) =
    let rest = strip_slashes s in if c == b'/' && str_eq rest [] then [] else c ∷ rest

-- What stands behind the last slash.
unfoldable pub last_element : Bytes → Bytes
unfolding count
last_element [] = []
last_element (c ∷ s) =
    let rest = last_element s in
    if ltb 0 (count b'/' s) then rest else if c == b'/' then s else c ∷ s

-- path.Base
unfoldable pub path_base : Bytes → Bytes
unfolding strip_slashes last_element str_eq
path_base s =
    if str_eq s []
    then lit "."
    else (let last = last_element (strip_slashes s) in if str_eq last [] then lit "/" else last)

-- The elements kept so far, the last in front, behind one more element of the path.
unfoldable pub clean_element : Bool → List Bytes → Bytes → List Bytes
unfolding str_eq
clean_element rooted [] e =
    if str_eq e [] || str_eq e (lit ".")
    then []
    else if str_eq e (lit "..") && rooted
    then []
    else e ∷ []
clean_element rooted (top ∷ kept) e =
    if str_eq e [] || str_eq e (lit ".")
    then top ∷ kept
    else if str_eq e (lit "..") && not (str_eq top (lit ".."))
    then kept
    else e ∷ top ∷ kept

unfoldable pub clean_elements : Bool → List Bytes → List Bytes → List Bytes
unfolding clean_element
clean_elements rooted kept [] = kept
clean_elements rooted kept (e ∷ es) = clean_elements rooted (clean_element rooted kept e) es

-- The kept elements, in order, with slashes between them.
unfoldable pub join_reversed : List Bytes → Bytes → Bytes
join_reversed [] tail = tail
join_reversed (e ∷ []) tail = e ++ tail
join_reversed (e ∷ d ∷ kept) tail = join_reversed (d ∷ kept) (b'/' ∷ (e ++ tail))

-- path.Clean
unfoldable pub path_clean : Bytes → Bytes
unfolding clean_elements join_reversed split str_eq
path_clean [] = lit "."
path_clean (c ∷ s) =
    let kept = clean_elements (c == b'/') [] (split b'/' (c ∷ s)) in
    let joined = join_reversed kept [] in
    if c == b'/' then b'/' ∷ joined else if str_eq joined [] then lit "." else joined
