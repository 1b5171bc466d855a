-- ===== src/Config/Pattern/First.antt =====
-- `select_pattern` of src/config.cpp: the group of patterns that it finds for a name.
use mathlib.Core.Bool.{false≢true}
use mathlib.Core.Path.{subst}
use handystats.Prelude.{
  ◌≡◌, refl, sym, ◌∙◌, ◌⊎◌, inl, inr, Bool, Bool-cases, true, false, some, some_inj, List, [], ◌∷◌,
  All,
}
use handystats.Config.Pattern.{Text, matches_any, select_pattern}

module _ (fnmatch : Text → Text → Bool) (name : Text) where
  -- The name matches one of these patterns, and none of them.
  abbrev pub HasMatch : List Text → Type 0
  HasMatch [] = ⊥
  HasMatch (p ∷ ps) = (fnmatch p name ≡ true) ⊎ HasMatch ps

  abbrev pub NoMatch : List Text → Type 0
  NoMatch = All λ p. fnmatch p name ≡ false

  -- The value `v` is that of a group with a pattern that the name matches, and the name matches no
  -- pattern of the groups before it.
  pub data First {A : Type 0} : List (List Text × A) → A → Type 0 where
    here :
        {ps : List Text} {v : A} {groups : List (List Text × A)}
        → HasMatch ps
        → First ((ps, v) ∷ groups) v
    there :
        {ps : List Text} {v w : A} {groups : List (List Text × A)}
        → NoMatch ps
        → First groups v
        → First ((ps, w) ∷ groups) v

  HasMatch-any : (ps : List Text) → HasMatch ps → matches_any fnmatch name ps ≡ true
  unfolding matches_any
  HasMatch-any [] h = absurd h
  HasMatch-any (p ∷ ps) (inl e) = rw e refl
  HasMatch-any (p ∷ ps) (inr h) = elim (Bool-cases (fnmatch p name)) [
    | inl e ↦ rw e refl
    | inr e ↦ rw e (HasMatch-any ps h)
  ]

  NoMatch-any : (ps : List Text) → NoMatch ps → matches_any fnmatch name ps ≡ false
  unfolding matches_any
  NoMatch-any [] h = refl
  NoMatch-any (p ∷ ps) (e, h) = rw e (NoMatch-any ps h)

  any-HasMatch : (ps : List Text) → matches_any fnmatch name ps ≡ true → HasMatch ps
  unfolding matches_any
  any-HasMatch [] h = absurd (false≢true h)
  any-HasMatch (p ∷ ps) h = elim (Bool-cases (fnmatch p name)) [
    | inl e ↦ inl e
    | inr e ↦ inr (any-HasMatch ps (sym (rw e refl) ∙ h))
  ]

  any-NoMatch : (ps : List Text) → matches_any fnmatch name ps ≡ false → NoMatch ps
  unfolding matches_any
  any-NoMatch [] h = tt
  any-NoMatch (p ∷ ps) h = elim (Bool-cases (fnmatch p name)) [
    | inl e ↦ absurd (false≢true (sym h ∙ rw e refl))
    | inr e ↦ (e, any-NoMatch ps (sym (rw e refl) ∙ h))
  ]

  pub First-select :
      {A : Type 0} (groups : List (List Text × A)) (v : A)
      → First groups v
      → select_pattern fnmatch name groups ≡ some v
  unfolding select_pattern
  First-select [] w f = elim f [ ]
  First-select ((ps, v) ∷ groups) w (here h) = rw (HasMatch-any ps h) refl
  First-select ((ps, v) ∷ groups) w (there free f) =
      rw (NoMatch-any ps free) (First-select groups w f)

  pub select-First :
      {A : Type 0} (groups : List (List Text × A)) (v : A)
      → select_pattern fnmatch name groups ≡ some v
      → First groups v
  unfolding select_pattern
  select-First [] v e = cc
  select-First {A} ((ps, w) ∷ groups) v e = elim (Bool-cases (matches_any fnmatch name ps)) [
    | inl h ↦
        subst (First ((ps, w) ∷ groups)) (some_inj w v (sym (rw h refl) ∙ e))
          (here (any-HasMatch ps h))
    | inr h ↦ there (any-NoMatch ps h) (select-First groups v (sym (rw h refl) ∙ e))
  ]
