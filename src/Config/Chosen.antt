-- ===== src/Config/Chosen.antt =====
-- Which configuration src/config.rs starts with, and when it is accepted.
use goatns.Prelude.{
  Option, none, some, ◌≡◌, ◌≢◌, refl, ap, subst, ◌⊎◌, inl, inr, List, [], ◌∷◌, ◌++◌, map,
  Bool-cases, Option-cases, All, Result, ok, err, Bytes, file_error,
}
use goatns.Datastore.{select}
use goatns.Config.{
  ConfigFile, Loaded, Outside, default, config_from, file_locations, found_files, loaded_or,
  first_loaded, unless_empty, try_from,
}

-- The result is what the first file of the list that can be read gives, or the default where none can be read.
abbrev pub IsChosen : Outside → List Bytes → Result ConfigFile → Type 0
IsChosen o files result =
    ((f : Bytes) × (before behind : List Bytes) × (loaded : Loaded) × (files
        ≡ before ++ (f ∷ behind))
      × All (λ g. o.load (o.tilde g) ≡ none) before
      × (o.load (o.tilde f) ≡ some loaded)
      × (result ≡ config_from o loaded))
    ⊎ ((result ≡ ok (default o)) × All (λ f. o.load (o.tilde f) ≡ none) files)

-- The locations where a file is, with the home folder in their names.
abbrev pub existing : Outside → List Bytes → List Bytes
existing o files = map o.tilde (select (λ f. o.exists (o.tilde f)) files)

first_loaded-IsChosen : (o : Outside) (files : List Bytes) → IsChosen o files (first_loaded o files)
unfolding first_loaded loaded_or
first_loaded-IsChosen o [] = inr (refl, tt)
first_loaded-IsChosen o (f ∷ fs) = elim (Option-cases (o.load (o.tilde f))) [
  | inr (loaded, e) ↦ inl (f, [], fs, loaded, refl, tt, e, rw e refl)
  | inl e ↦ elim (first_loaded-IsChosen o fs) [
    | inl (g, before, behind, loaded, split, unread, h, same) ↦
        inl (g, f ∷ before, behind, loaded, ap (λ gs. f ∷ gs) split, (e, unread), h, rw e same)
    | inr (same, unread) ↦ inr (rw e same, (e, unread))
  ]
]

found_files-existing : (o : Outside) (files : List Bytes) → found_files o files ≡ existing o files
unfolding found_files select
found_files-existing o [] = refl
found_files-existing o (f ∷ fs) = elim (Bool-cases (o.exists (o.tilde f))) [
  | inl e ↦ rw e (ap (λ gs. o.tilde f ∷ gs) (found_files-existing o fs))
  | inr e ↦ rw e (found_files-existing o fs)
]

abbrev Starts : Outside → List Bytes → Result ConfigFile → Type 0
Starts o files result =
    ((files ≡ []) × (result ≡ err file_error)) ⊎ ((files ≢ []) × IsChosen o files result)

unless_empty-Starts : (o : Outside) (files : List Bytes) → Starts o files (unless_empty o files)
unfolding unless_empty
unless_empty-Starts o [] = inl (refl, refl)
unless_empty-Starts o (f ∷ fs) = inr (λ e. cc, first_loaded-IsChosen o (f ∷ fs))

-- Which configuration the server starts with, for any files: where none of the locations exists there is an error;
-- else it is what the first of the existing ones that can be read gives, and the default where none of them can be
-- read.
pub try_from-IsChosen :
    (o : Outside) (config_path : Option Bytes)
    → let files = existing o (file_locations config_path) in
      ((files ≡ []) × (try_from o config_path ≡ err file_error))
      ⊎ ((files ≢ []) × IsChosen o files (try_from o config_path))
unfolding try_from
try_from-IsChosen o config_path =
    subst (λ files. Starts o files (unless_empty o (found_files o (file_locations config_path))))
      (found_files-existing o (file_locations config_path))
      (unless_empty-Starts o (found_files o (file_locations config_path)))
