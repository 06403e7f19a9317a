-- ===== src/Safety/Paths.antt =====
-- src/safety.rs: the path that a request means. An absolute path is the list of its names behind the
-- root. What the file system and the environment answer is a `FileSystem`.
pub mod Resolved
pub mod Protected
use dtcoder_test.Prelude.{
  ◌≡◌, refl, Bool, true, false, ◌&&◌, ◌||◌, String, Option, none, some, List, [], ◌∷◌, ◌++◌,
  if◌then◌else◌, str_eq, ◌⊎◌, inl, inr,
}
use mathlib.Core.List.{reverse}

-- `std::path::Component`; a prefix is of Windows only.
pub data Component : Type 0 where
  root_dir cur_dir parent_dir : Component
  normal : String → Component

pub record FileSystem : Type 0 where
  pub exists : List String → Bool
  -- `std::fs::canonicalize`, where it succeeds
  pub canonicalize : List String → Option (List String)
  pub home : Option (List String)

abbrev pub is_absolute : List Component → Bool
is_absolute (root_dir ∷ rest) = true
is_absolute other = false

abbrev pub normals : List String → List Component
normals [] = []
normals (name ∷ names) = normal name ∷ normals names

-- `PathBuf::pop`, which does nothing at the root.
abbrev pub pop : List String → List String
pop [] = []
pop (name ∷ []) = []
pop (name ∷ next ∷ names) = name ∷ pop (next ∷ names)

-- One component pushed to the normalized path.
abbrev pub push_component : Component → List String → List String
push_component root_dir path = []
push_component cur_dir path = path
push_component parent_dir path = pop path
push_component (normal name) path = path ++ (name ∷ [])

unfoldable pub normalize_from : List String → List Component → List String
normalize_from path [] = path
normalize_from path (c ∷ cs) = normalize_from (push_component c path) cs

abbrev pub lexical_normalize : List Component → List String
lexical_normalize components = normalize_from [] components

pub data PathError : Type 0 where
  invalid_path : PathError
  not_canonicalized : PathError

abbrev pub append_suffix : Option (List String) → List String → List String ⊎ PathError
append_suffix none suffix = inr not_canonicalized
append_suffix (some existing) suffix = inl (existing ++ suffix)

-- The names of the path stand last first; the suffix is what was taken off it.
unfoldable pub resolve_reversed : FileSystem → List String → List String → List String ⊎ PathError
resolve_reversed fs [] suffix =
    if fs.exists [] then append_suffix (fs.canonicalize []) suffix else inr invalid_path
resolve_reversed fs (name ∷ parents) suffix =
    let parent = resolve_reversed fs parents (name ∷ suffix) in
    if fs.exists (reverse (name ∷ parents))
    then append_suffix (fs.canonicalize (reverse (name ∷ parents))) suffix
    else parent

abbrev pub resolve_existing_prefix : FileSystem → List String → List String ⊎ PathError
resolve_existing_prefix fs path = resolve_reversed fs (reverse path) []

abbrev pub candidate : List String → List Component → List Component
candidate workspace requested =
    if is_absolute requested then requested else root_dir ∷ (normals workspace ++ requested)

unfoldable pub resolve_path : FileSystem → List String → List Component → List String ⊎ PathError
resolve_path fs workspace requested =
    resolve_existing_prefix fs (lexical_normalize (candidate workspace requested))

-- `Path::starts_with`: by whole names.
unfoldable pub path_starts_with : List String → List String → Bool
path_starts_with path [] = true
path_starts_with [] (p ∷ prefix) = false
path_starts_with (name ∷ path) (p ∷ prefix) = str_eq name p && path_starts_with path prefix

abbrev pub starts_with_any : List String → List (List String) → Bool
starts_with_any path [] = false
starts_with_any path (root ∷ roots) = path_starts_with path root || starts_with_any path roots

abbrev pub system_roots : List (List String)
system_roots =
    ("etc" ∷ [])
    ∷ ("private" ∷ "etc" ∷ [])
    ∷ ("System" ∷ [])
    ∷ ("usr" ∷ [])
    ∷ ("bin" ∷ [])
    ∷ ("sbin" ∷ [])
    ∷ ("dev" ∷ [])
    ∷ ("proc" ∷ [])
    ∷ ("sys" ∷ [])
    ∷ []

abbrev pub secret_roots : Option (List String) → List (List String)
secret_roots none = []
secret_roots (some home) =
    (home ++ (".ssh" ∷ [])) ∷ (home ++ (".aws" ∷ [])) ∷ (home ++ (".gnupg" ∷ [])) ∷ []

abbrev pub any_git : List String → Bool
any_git [] = false
any_git (name ∷ names) = str_eq name ".git" || any_git names

unfoldable pub is_protected_path : FileSystem → List String → List String → Bool
is_protected_path fs workspace path =
    path_starts_with path (workspace ++ (".my-agent" ∷ []))
    || starts_with_any path system_roots
    || starts_with_any path (secret_roots fs.home)
    || any_git path

-- `..` does not lead out of the workspace unseen.
escape :
    lexical_normalize (
      candidate
        ("home" ∷ "me" ∷ "project" ∷ [])
        (normal "src" ∷ parent_dir ∷ parent_dir ∷ normal "x" ∷ []))
    ≡ "home" ∷ "me" ∷ "x" ∷ []
unfolding normalize_from
escape = refl
