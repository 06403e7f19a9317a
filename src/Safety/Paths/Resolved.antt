-- ===== src/Safety/Paths/Resolved.antt =====
-- What resolve_path of src/safety.rs makes of a path, said without its recursion.
use dtcoder_test.Prelude.{
  ◌≡◌, refl, ap, sym, ◌∙◌, true, false, inl, inr, String, Option, none, some, List, [], ◌∷◌, ◌++◌,
  Bool-cases,
}
use mathlib.Core.List.{reverse, append-nil, append_assoc, reverse-cons, reverse-reverse}
use dtcoder_test.Safety.Paths.{
  Component, root_dir, cur_dir, parent_dir, normal, FileSystem, normals, pop, normalize_from,
  lexical_normalize, append_suffix, resolve_reversed, candidate, resolve_path,
}

-- None of the paths that are made from `path` by names of `suffix` exists.
abbrev pub NoneExists : FileSystem → List String → List String → Type 0
NoneExists fs path [] = Unit
NoneExists fs path (name ∷ names) =
    (fs.exists (path ++ (name ∷ [])) ≡ false) × NoneExists fs (path ++ (name ∷ [])) names

-- `resolved` is `path` with its longest existing prefix replaced by what that is without links.
pub record IsResolved (fs : FileSystem) (path resolved : List String) : Type 0 where
  pub existing : List String
  pub suffix : List String
  pub canonical : List String
  pub split : path ≡ existing ++ suffix
  pub present : fs.exists existing ≡ true
  pub longest : NoneExists fs existing suffix
  pub links_followed : fs.canonicalize existing ≡ some canonical
  pub joined : resolved ≡ canonical ++ suffix

-- The laws of a function that takes `.` and `..` out of a path: they give its value at every path
-- from the root.
pub record IsNormalizer (f : List Component → List String) : Type 0 where
  pub plain : (names : List String) → f (root_dir ∷ normals names) ≡ names
  pub drops_dot :
      (before after : List Component) → f (before ++ (cur_dir ∷ after)) ≡ f (before ++ after)
  pub goes_up :
      (before after : List Component) (name : String)
      → f (before ++ (normal name ∷ parent_dir ∷ after)) ≡ f (before ++ after)
  pub stays_at_root :
      (after : List Component) → f (root_dir ∷ parent_dir ∷ after) ≡ f (root_dir ∷ after)

normalize_from-append :
    (path : List String) (before after : List Component)
    → normalize_from path (before ++ after) ≡ normalize_from (normalize_from path before) after
unfolding normalize_from
normalize_from-append path [] after = refl
normalize_from-append path (c ∷ cs) after = normalize_from-append _ cs after

pop-append : (path : List String) (name : String) → pop (path ++ (name ∷ [])) ≡ path
pop-append [] name = refl
pop-append (a ∷ []) name = refl
pop-append (a ∷ b ∷ path) name = ap (λ p. a ∷ p) (pop-append (b ∷ path) name)

normalize_from-normals :
    (path names : List String) → normalize_from path (normals names) ≡ path ++ names
unfolding normalize_from
normalize_from-normals [] [] = refl
normalize_from-normals (a ∷ path) [] = ap (λ p. a ∷ p) (normalize_from-normals path [])
normalize_from-normals path (name ∷ names) =
    normalize_from-normals (path ++ (name ∷ [])) names ∙ append_assoc path (name ∷ []) names

pub lexical_normalize-IsNormalizer : IsNormalizer lexical_normalize
unfolding normalize_from
lexical_normalize-IsNormalizer = record {
  plain = λ names. normalize_from-normals [] names;
  drops_dot = λ before after.
      normalize_from-append [] before (cur_dir ∷ after)
      ∙ sym (normalize_from-append [] before after);
  goes_up = λ before after name.
      normalize_from-append [] before (normal name ∷ parent_dir ∷ after)
      ∙ ap (λ p. normalize_from p after) (pop-append (normalize_from [] before) name)
      ∙ sym (normalize_from-append [] before after);
  stays_at_root = λ after. refl;
}

append_suffix-some :
    (o : Option (List String)) (suffix resolved : List String)
    → append_suffix o suffix ≡ inl resolved
    → (canonical : List String) × (o ≡ some canonical) × (resolved ≡ canonical ++ suffix)
append_suffix-some none suffix resolved h = absurd (cc)
append_suffix-some (some canonical) suffix resolved h = (canonical, refl, cc)

module _ (fs : FileSystem) where
  found :
      (existing suffix resolved : List String)
      → fs.exists existing ≡ true
      → NoneExists fs existing suffix
      → append_suffix (fs.canonicalize existing) suffix ≡ inl resolved
      → IsResolved fs (existing ++ suffix) resolved
  found existing suffix resolved e none' h =
      let (canonical, followed, joined) =
        append_suffix-some (fs.canonicalize existing) suffix resolved h in
      record {
        existing = existing;
        suffix = suffix;
        canonical = canonical;
        split = refl;
        present = e;
        longest = none';
        links_followed = followed;
        joined = joined;
      }

  resolve_reversed-IsResolved :
      (names suffix resolved : List String)
      → NoneExists fs (reverse names) suffix
      → resolve_reversed fs names suffix ≡ inl resolved
      → IsResolved fs (reverse names ++ suffix) resolved
  unfolding resolve_reversed
  resolve_reversed-IsResolved [] suffix resolved none' h = elim (Bool-cases (fs.exists [])) [
    | inl e ↦ found [] suffix resolved e none' (rw e at h)
    | inr e ↦ absurd (let k = rw e at h in cc)
  ]
  resolve_reversed-IsResolved (name ∷ parents) suffix resolved none' h =
      elim (Bool-cases (fs.exists (reverse (name ∷ parents)))) [
        | inl e ↦ found (reverse (name ∷ parents)) suffix resolved e none' (rw e at h)
        | inr e ↦
            let law = reverse-cons name parents in
            let rest =
              resolve_reversed-IsResolved parents (name ∷ suffix) resolved (rw (← law) (e, none'))
                (rw e at h) in
            rw (law, append_assoc (reverse parents) (name ∷ []) suffix) rest
      ]

  -- The path that is resolved is the longest existing prefix of the normalized one with its links
  -- followed, and behind it the names that do not exist.
  pub resolve_path-IsResolved :
      (workspace : List String) (requested : List Component) (resolved : List String)
      → resolve_path fs workspace requested ≡ inl resolved
      → IsResolved fs (lexical_normalize (candidate workspace requested)) resolved
  unfolding resolve_path
  resolve_path-IsResolved workspace requested resolved h =
      let path = lexical_normalize (candidate workspace requested) in
      let r = resolve_reversed-IsResolved (reverse path) [] resolved tt h in
      rw (reverse-reverse path, append-nil path) at r
