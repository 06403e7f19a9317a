-- ===== src/Safety/Paths/Protected.antt =====
-- Which paths is_protected_path of src/safety.rs means.
use dtcoder_test.Prelude.{
  ◌≡◌, refl, Bool, true, false, ◌&&◌, ◌||◌, ◌⊎◌, inl, inr, String, Option, none, some, List, [],
  ◌∷◌, ◌++◌, str_eq, eq_iff, Bool-cases,
}
use dtcoder_test.Safety.Paths.{
  FileSystem, path_starts_with, starts_with_any, system_roots, secret_roots, any_git,
  is_protected_path,
}

-- The answer of a test of `P`.
abbrev pub Reflects : Bool → Type 0 → Type 0
Reflects true P = P
Reflects false P = ¬ P

-- The path is `root` or below it.
abbrev pub IsUnder : List String → List String → Type 0
IsUnder path root = (rest : List String) × (path ≡ root ++ rest)

abbrev pub IsUnderAny : List String → List (List String) → Type 0
IsUnderAny path [] = ⊥
IsUnderAny path (root ∷ roots) = IsUnder path root ⊎ IsUnderAny path roots

abbrev pub Has : String → List String → Type 0
Has name [] = ⊥
Has name (other' ∷ names) = (other' ≡ name) ⊎ Has name names

-- The directories of the home that hold keys.
abbrev pub IsSecret : List String → Option (List String) → Type 0
IsSecret path none = ⊥
IsSecret path (some home) =
    IsUnder path (home ++ (".ssh" ∷ []))
    ⊎ (IsUnder path (home ++ (".aws" ∷ [])) ⊎ IsUnder path (home ++ (".gnupg" ∷ [])))

abbrev pub protected_roots : List (List String)
protected_roots =
    ("etc" ∷ [])
    ∷ ("private" ∷ "etc" ∷ [])
    ∷ ("System" ∷ [])
    ∷ ("usr" ∷ [])
    ∷ ("bin" ∷ [])
    ∷ ("sbin" ∷ [])
    ∷ ("dev" ∷ [])
    ∷ ("proc" ∷ [])
    ∷ ("sys" ∷ [])
    ∷ []

-- The state of the agent, a directory of the system, one with keys, or something in a `.git`.
abbrev pub IsProtected : FileSystem → List String → List String → Type 0
IsProtected fs workspace path =
    ((IsUnder path (workspace ++ (".my-agent" ∷ [])) ⊎ IsUnderAny path protected_roots)
      ⊎ IsSecret path fs.home)
    ⊎ Has ".git" path

Reflects-map : {P Q : Type 0} (b : Bool) → (P → Q) → (Q → P) → Reflects b P → Reflects b Q
Reflects-map true f g h = f h
Reflects-map false f g h = λ q. h (g q)

Reflects-or : (P Q : Type 0) (a b : Bool) → Reflects a P → Reflects b Q → Reflects (a || b) (P ⊎ Q)
Reflects-or P Q true b h k = inl h
Reflects-or P Q false true h k = inr k
Reflects-or P Q false false h k = λ s. elim s [ inl p ↦ h p | inr q ↦ k q ]

Reflects-and : (P Q : Type 0) (a b : Bool) → Reflects a P → Reflects b Q → Reflects (a && b) (P × Q)
Reflects-and P Q true true h k = (h, k)
Reflects-and P Q true false h k = λ s. k s.1
Reflects-and P Q false b h k = λ s. h s.0

str_eq-Reflects : (s t : String) → Reflects (str_eq s t) (s ≡ t)
str_eq-Reflects s t = elim (Bool-cases (str_eq s t)) [
  | inl e ↦ rw e ((eq_iff s t).0 e)
  | inr e ↦ rw e (λ h. let k = (eq_iff s t).1 h in cc)
]

pub path_starts_with-Reflects :
    (path root : List String) → Reflects (path_starts_with path root) (IsUnder path root)
unfolding path_starts_with
path_starts_with-Reflects path [] = (path, refl)
path_starts_with-Reflects [] (p ∷ root) = λ h. let e = h.1 in cc
path_starts_with-Reflects (name ∷ path) (p ∷ root) =
    Reflects-map (str_eq name p && path_starts_with path root)
      (λ h. (h.1.0, let a = h.0 in let b = h.1.1 in cc)) (λ h. let e = h.1 in (cc, (h.0, cc)))
      (Reflects-and _ _ (str_eq name p) (path_starts_with path root) (str_eq-Reflects name p)
        (path_starts_with-Reflects path root))

starts_with_any-Reflects :
    (path : List String) (roots : List (List String))
    → Reflects (starts_with_any path roots) (IsUnderAny path roots)
starts_with_any-Reflects path [] = λ h. h
starts_with_any-Reflects path (root ∷ roots) =
    Reflects-or _ _ (path_starts_with path root) (starts_with_any path roots)
      (path_starts_with-Reflects path root) (starts_with_any-Reflects path roots)

any_git-Reflects : (path : List String) → Reflects (any_git path) (Has ".git" path)
any_git-Reflects [] = λ h. h
any_git-Reflects (name ∷ path) =
    Reflects-or _ _ (str_eq name ".git") (any_git path) (str_eq-Reflects name ".git")
      (any_git-Reflects path)

IsSecret-Reflects :
    (path : List String) (home : Option (List String))
    → Reflects (starts_with_any path (secret_roots home)) (IsSecret path home)
IsSecret-Reflects path none = λ h. h
IsSecret-Reflects path (some home) =
    Reflects-map (starts_with_any path (secret_roots (some home)))
      (λ h. elim h [
        | inl a ↦ inl a
        | inr (inl b) ↦ inr (inl b)
        | inr (inr (inl c)) ↦ inr (inr c)
        | inr (inr (inr e)) ↦ absurd e
      ])
      (λ h. elim h [ inl a ↦ inl a | inr (inl b) ↦ inr (inl b) | inr (inr c) ↦ inr (inr (inl c)) ])
      (starts_with_any-Reflects path (secret_roots (some home)))

-- The protected paths are those under the workspace's `.my-agent`, under a directory of the system,
-- under a directory of the home that holds keys, and those with a component `.git`.
pub is_protected_path-Reflects :
    (fs : FileSystem) (workspace path : List String)
    → Reflects (is_protected_path fs workspace path) (IsProtected fs workspace path)
unfolding is_protected_path
is_protected_path-Reflects fs workspace path =
    let state = path_starts_with path (workspace ++ (".my-agent" ∷ [])) in
    let system = starts_with_any path system_roots in
    let secret = starts_with_any path (secret_roots fs.home) in
    let below =
      Reflects-or _ _ state system
        (path_starts_with-Reflects path (workspace ++ (".my-agent" ∷ [])))
        (starts_with_any-Reflects path system_roots) in
    let kept = Reflects-or _ _ (state || system) secret below (IsSecret-Reflects path fs.home) in
    Reflects-or _ _ (state || system || secret) (any_git path) kept (any_git-Reflects path)
