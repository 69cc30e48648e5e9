-- ===== src/Cli/Paths.antt =====
-- The paths of src/bin/main.rs, as the standard library reads them on Unix.
use mathlib.Core.Path.{subst}
use magic_wormhole_rs.Common.{
  ℕ, ◌≡◌, ◌≢◌, refl, List, [], ◌∷◌, ◌++◌, Option, none, some, Bool, true, false, Bytes, bytes_eq,
  ◌==◌, ◌||◌, contains_byte, if◌then◌else◌, Bool-cases, inl, inr, bytes_eq_iff, arith,
}
use magic_wormhole_rs.Common.Text.{codes}

abbrev pub PathBuf : Type 0
PathBuf = Bytes

abbrev pub slash : Bytes
slash = 47 ∷ []

-- A byte in front of the first piece.
before_first : Bytes → List Bytes → List Bytes
before_first x [] = x ∷ []
before_first x (w ∷ ws) = (x ++ w) ∷ ws

-- The pieces between the slashes.
unfoldable pub split_slashes : PathBuf → List Bytes
unfolding before_first
split_slashes [] = [] ∷ []
split_slashes (x ∷ xs) =
    let rest = split_slashes xs in if x == 47 then [] ∷ rest else before_first (x ∷ []) rest

-- The last component, if it is a normal one, `found` being the one before these pieces: empty pieces
-- and `.` are no components.
unfoldable pub last_normal : Option Bytes → List Bytes → Option Bytes
last_normal found [] = found
last_normal found (w ∷ ws) =
    let skipped = last_normal found ws in
    let parent = last_normal none ws in
    let normal = last_normal (some w) ws in
    if bytes_eq w [] || bytes_eq w (codes ".")
    then skipped
    else if bytes_eq w (codes "..")
    then parent
    else normal

-- `Path::file_name`
unfoldable pub file_name : PathBuf → Option Bytes
unfolding split_slashes last_normal
file_name path = last_normal none (split_slashes path)

unfoldable pub ends_with_slash : PathBuf → Bool
ends_with_slash [] = false
ends_with_slash (x ∷ []) = x == 47
ends_with_slash (x ∷ y ∷ rest) = ends_with_slash (y ∷ rest)

under : Bool → PathBuf → PathBuf → PathBuf
under joined dir name = if joined then dir ++ name else dir ++ (slash ++ name)

-- `Path::join`
unfoldable pub join : PathBuf → PathBuf → PathBuf
unfolding ends_with_slash under
join dir [] = under (bytes_eq dir [] || ends_with_slash dir) dir []
join dir (x ∷ name) =
    if x == 47 then x ∷ name else under (bytes_eq dir [] || ends_with_slash dir) dir (x ∷ name)

-- A name for an entry of a directory: no slash, and not the directory or its parent.
pub record IsPlain (name : Bytes) : Type 0 where
  pub no_slash : contains_byte 47 name ≡ false
  pub not_empty : name ≢ []
  pub not_here : name ≢ codes "."
  pub not_parent : name ≢ codes ".."

abbrev NoSlash : List Bytes → Type 0
NoSlash [] = Unit
NoSlash (w ∷ ws) = (contains_byte 47 w ≡ false) × NoSlash ws

before_first-NoSlash :
    (x : ℕ) (ws : List Bytes) → (x == 47) ≡ false → NoSlash ws → NoSlash (before_first (x ∷ []) ws)
unfolding before_first contains_byte
before_first-NoSlash x [] h s = (ground (arith, h), tt)
before_first-NoSlash x (w ∷ ws) h s = (ground (arith, h, s.0), s.1)

split_slashes-NoSlash : (path : PathBuf) → NoSlash (split_slashes path)
unfolding split_slashes contains_byte
split_slashes-NoSlash [] = (refl, tt)
split_slashes-NoSlash (x ∷ xs) = elim (Bool-cases (x == 47)) [
  | inl slashed ↦ rw slashed (refl, split_slashes-NoSlash xs)
  | inr other ↦
      rw other (before_first-NoSlash x (split_slashes xs) other (split_slashes-NoSlash xs))
]

or_false : (a b : Bool) → (a || b) ≡ false → (a ≡ false) × (b ≡ false)
or_false a b h = (ground (arith, h), ground (arith, h))

bytes_ne : (a b : Bytes) → bytes_eq a b ≡ false → a ≢ b
bytes_ne a b h e = let same : bytes_eq a b ≡ true = (bytes_eq_iff a b).1 e in cc

named :
    (w : Bytes)
    → contains_byte 47 w ≡ false
    → (bytes_eq w [] || bytes_eq w (codes ".")) ≡ false
    → bytes_eq w (codes "..") ≡ false
    → (n : Bytes) → some w ≡ some n
    → IsPlain n
named w s h k n e =
    let same : w ≡ n = cc e in
    let (empty, here) = or_false (bytes_eq w []) (bytes_eq w (codes ".")) h in
    subst IsPlain same (record {
      no_slash = s;
      not_empty = bytes_ne w [] empty;
      not_here = bytes_ne w (codes ".") here;
      not_parent = bytes_ne w (codes "..") k;
    })

last_normal-IsPlain :
    (found : Option Bytes) (ws : List Bytes) (name : Bytes)
    → ((n : Bytes) → found ≡ some n → IsPlain n)
    → NoSlash ws
    → last_normal found ws ≡ some name
    → IsPlain name
unfolding last_normal
last_normal-IsPlain found [] name plain s h = plain name h
last_normal-IsPlain found (w ∷ ws) name plain s h =
    elim (Bool-cases (bytes_eq w [] || bytes_eq w (codes "."))) [
      | inl none_such ↦ last_normal-IsPlain found ws name plain s.1 (rw none_such at h)
      | inr some_such ↦ elim (Bool-cases (bytes_eq w (codes ".."))) [
        | inl parent ↦
            last_normal-IsPlain none ws name (λ n e. cc) s.1 (rw (some_such, parent) at h)
        | inr normal ↦
            last_normal-IsPlain (some w) ws name (named w s.0 some_such normal) s.1
              (rw (some_such, normal) at h)
      ]
    ]

-- A file name is a plain name, whatever the path.
pub file_name-IsPlain : (path : PathBuf) (name : Bytes) → file_name path ≡ some name → IsPlain name
unfolding file_name
file_name-IsPlain path name h =
    last_normal-IsPlain none (split_slashes path) name (λ n e. cc) (split_slashes-NoSlash path) h
