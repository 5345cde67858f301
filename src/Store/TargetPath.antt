-- ===== src/Store/TargetPath.antt =====
-- Target paths of filesystem restores: `filesystemTargetsOverlap` of internal/server/store/sqlite.go
-- over Go's `path.Clean`. A path is the list of its bytes.
use backup_management_center.Common.{
  ℕ, Bool, true, false, ◌&&◌, ◌||◌, List, [], ◌∷◌, ◌++◌, ◌==◌, nat_eq, codes_eq, if◌then◌else◌,
}

abbrev pub slash : ℕ
slash = b'/'

abbrev pub dot : List ℕ
dot = b'.' ∷ []

abbrev pub dot_dot : List ℕ
dot_dot = b'.' ∷ b'.' ∷ []

-- A path begins with a slash.
abbrev pub is_rooted : List ℕ → Bool
is_rooted [] = false
is_rooted (c ∷ s) = c == slash

-- The elements between the slashes, empty ones included.
abbrev pub push_byte : ℕ → List (List ℕ) → List (List ℕ)
push_byte c [] = (c ∷ []) ∷ []
push_byte c (e ∷ es) = (c ∷ e) ∷ es

abbrev pub split : List ℕ → List (List ℕ)
split [] = [] ∷ []
split (c ∷ s) = if c == slash then [] ∷ split s else push_byte c (split s)

-- One element on the stack of those kept, the last first: "" and "." go, ".." takes the last one
-- back; with none to take back it is dropped in a rooted path and kept in another.
abbrev pub back : Bool → List (List ℕ) → List (List ℕ)
back rooted [] = if rooted then [] else dot_dot ∷ []
back rooted (e ∷ es) = if e == dot_dot then dot_dot ∷ e ∷ es else es

abbrev pub visit : Bool → List (List ℕ) → List ℕ → List (List ℕ)
visit rooted kept e =
    if e == [] || e == dot then kept else if e == dot_dot then back rooted kept else e ∷ kept

abbrev pub clean_elements : Bool → List (List ℕ) → List (List ℕ) → List (List ℕ)
clean_elements rooted kept [] = kept
clean_elements rooted kept (e ∷ es) = clean_elements rooted (visit rooted kept e) es

abbrev pub reverse_onto {ℓ} : {A : Type ℓ} → List A → List A → List A
reverse_onto [] out = out
reverse_onto (x ∷ xs) out = reverse_onto xs (x ∷ out)

-- Each element behind a slash.
abbrev pub join : List (List ℕ) → List ℕ
join [] = []
join (e ∷ es) = slash ∷ (e ++ join es)

abbrev pub elements_of : List ℕ → List (List ℕ)
elements_of s = reverse_onto (clean_elements (is_rooted s) [] (split s)) []

abbrev pub joined_relative : List (List ℕ) → List ℕ
joined_relative [] = dot
joined_relative (e ∷ es) = e ++ join es

abbrev pub joined_rooted : List (List ℕ) → List ℕ
joined_rooted [] = slash ∷ []
joined_rooted (e ∷ es) = join (e ∷ es)

-- `path.Clean`
unfoldable pub clean : List ℕ → List ℕ
clean s = if is_rooted s then joined_rooted (elements_of s) else joined_relative (elements_of s)

-- `strings.TrimSuffix(s, "/")`
abbrev pub trim_slash : List ℕ → List ℕ
trim_slash [] = []
trim_slash (c ∷ []) = if c == slash then [] else c ∷ []
trim_slash (c ∷ d ∷ s) = c ∷ trim_slash (d ∷ s)

-- `strings.HasPrefix(s, p)`
abbrev pub has_prefix : List ℕ → List ℕ → Bool
has_prefix s [] = true
has_prefix [] (c ∷ p) = false
has_prefix (d ∷ s) (c ∷ p) = d == c && has_prefix s p

-- The comparison of two cleaned and trimmed paths.
abbrev pub trimmed_overlap : List ℕ → List ℕ → Bool
trimmed_overlap a b =
    if a == [] || b == []
    then false
    else if a == b
    then true
    else has_prefix a (b ++ slash ∷ []) || has_prefix b (a ++ slash ∷ [])

-- `filesystemTargetsOverlap`
unfoldable pub filesystem_targets_overlap : List ℕ → List ℕ → Bool
unfolding clean
filesystem_targets_overlap a b = trimmed_overlap (trim_slash (clean a)) (trim_slash (clean b))
