-- ===== src/Loader/Order.antt =====
-- Which mocks are loaded, and in which order.
use pmp_mock_http.Prelude.{
  ap, String, Bool, true, false, Option, none, some, List, [], ◌∷◌, ◌++◌, ◌≡◌, refl, sym, ◌∙◌,
  arith, if◌then◌else◌, Bool-cases, inl, inr,
}
use mathlib.Core.List.{append_assoc, append-nil}
use pmp_mock_http.Models.{Mock}
use pmp_mock_http.Http.{Result, ok, err, panicked}
use pmp_mock_http.Loader.Files.{
  Visit, file, directory, not_exist, unreadable, LoaderExternals, Loader, is_yaml_file, load_file,
  add_loaded, visit, and_then, walk_visits, failed_walk, load_dirs, load_all,
}

-- The visits up to the first one with an error that is not that of a missing directory.
abbrev pub before_error : List Visit → List Visit
before_error [] = []
before_error (unreadable e ∷ vs) = []
before_error (v ∷ vs) = v ∷ before_error vs

-- The first such error.
abbrev pub error_of : List Visit → Option String
error_of [] = none
error_of (unreadable e ∷ vs) = some e
error_of (v ∷ vs) = error_of vs

abbrev or_empty : Result (List Mock) → List Mock
or_empty (ok mocks) = mocks
or_empty (err e) = []
or_empty panicked = []

abbrev pub is_error : Option String → Bool
is_error none = false
is_error (some e) = true

module _ (x : LoaderExternals) where
  -- The mocks of a YAML file that can be read and parsed.
  abbrev content : Visit → List Mock
  content (file path) = if is_yaml_file x path then or_empty (load_file x path) else []
  content (directory path) = []
  content (not_exist path) = []
  content (unreadable e) = []

  abbrev pub contents : List Visit → List Mock
  contents [] = []
  contents (v ∷ vs) = content v ++ contents vs

  -- The visits of the directories, one after another.
  abbrev pub all_visits : List String → List Visit
  all_visits [] = []
  all_visits (dir ∷ dirs) = x.walk dir ++ all_visits dirs

  add_loaded-or_empty :
      (mocks : List Mock) (r : Result (List Mock)) → add_loaded x mocks r ≡ mocks ++ or_empty r
  unfolding add_loaded
  add_loaded-or_empty mocks (ok loaded) = refl
  add_loaded-or_empty mocks (err e) = sym (append-nil mocks)
  add_loaded-or_empty mocks panicked = sym (append-nil mocks)

  visit-file :
      (path : String) (mocks : List Mock)
      → visit x (file path) mocks ≡ (none, mocks ++ content (file path))
  unfolding visit
  visit-file path mocks = elim (Bool-cases (is_yaml_file x path)) [
    | inl yaml ↦ rw yaml (ap (λ ms. (none, ms)) (add_loaded-or_empty mocks (load_file x path)))
    | inr other ↦ rw other (ap (λ ms. (none, ms)) (sym (append-nil mocks)))
  ]

  contents-append : (vs ws : List Visit) → contents (vs ++ ws) ≡ contents vs ++ contents ws
  contents-append [] ws = refl
  contents-append (v ∷ vs) ws =
      ap (λ ms. content v ++ ms) (contents-append vs ws)
      ∙ sym (append_assoc (content v) (contents vs) (contents ws))

  walk_visits_lem :
      (vs : List Visit) (mocks : List Mock)
      → walk_visits x vs mocks ≡ (error_of vs, mocks ++ contents (before_error vs))
  unfolding walk_visits and_then visit
  walk_visits_lem [] mocks = ap (λ ms. (none, ms)) (sym (append-nil mocks))
  walk_visits_lem (unreadable e ∷ vs) mocks = ap (λ ms. (some e, ms)) (sym (append-nil mocks))
  walk_visits_lem (directory path ∷ vs) mocks = walk_visits_lem vs mocks
  walk_visits_lem (not_exist path ∷ vs) mocks = walk_visits_lem vs mocks
  walk_visits_lem (file path ∷ vs) mocks =
      ap (λ r. and_then x r (walk_visits x vs)) (visit-file path mocks)
      ∙ walk_visits_lem vs (mocks ++ content (file path))
      ∙ ap (λ ms. (error_of vs, ms))
          (append_assoc mocks (content (file path)) (contents (before_error vs)))

  -- An error ends the walk, so that what would follow it counts for nothing.
  before_error-append :
      (vs ws : List Visit)
      → before_error (vs ++ ws)
        ≡ (if is_error (error_of vs) then before_error vs else before_error vs ++ before_error ws)
  before_error-append [] ws = refl
  before_error-append (unreadable e ∷ vs) ws = refl
  before_error-append (directory path ∷ vs) ws = ground (arith, before_error-append vs ws)
  before_error-append (not_exist path ∷ vs) ws = ground (arith, before_error-append vs ws)
  before_error-append (file path ∷ vs) ws = ground (arith, before_error-append vs ws)

  error_of-append :
      (vs ws : List Visit)
      → is_error (error_of (vs ++ ws))
        ≡ (if is_error (error_of vs) then true else is_error (error_of ws))
  error_of-append [] ws = refl
  error_of-append (unreadable e ∷ vs) ws = refl
  error_of-append (directory path ∷ vs) ws = error_of-append vs ws
  error_of-append (not_exist path ∷ vs) ws = error_of-append vs ws
  error_of-append (file path ∷ vs) ws = error_of-append vs ws

  abbrev Loads : List Visit → List Mock → Option String × List Mock → Type 0
  Loads vs mocks (e, loaded) =
      (is_error e ≡ is_error (error_of vs)) × (loaded ≡ mocks ++ contents (before_error vs))

  after_walk-Loads :
      (dir : String) (dirs : List String) (vs ws : List Visit) (o : Option String)
      (mocks : List Mock)
      → error_of vs ≡ o
      → ((ms : List Mock) → Loads ws ms (load_dirs x dirs ms))
      → Loads (vs ++ ws) mocks (
          and_then x
            (failed_walk x dir (o, mocks ++ contents (before_error vs)))
            (load_dirs x dirs))
  unfolding and_then failed_walk
  after_walk-Loads dir dirs vs ws (some e) mocks h next =
      rw (error_of-append vs ws) (rw (before_error-append vs ws) (rw h (refl, refl)))
  after_walk-Loads dir dirs vs ws none mocks h next =
      let (failed, loaded) = next (mocks ++ contents (before_error vs)) in
      rw (error_of-append vs ws) (
        rw (before_error-append vs ws) (
          rw h (
            failed,
            loaded
                ∙ append_assoc mocks _ _
                ∙ ap (λ ms. mocks ++ ms)
                    (sym (contents-append (before_error vs) (before_error ws))),
          )))

  load_dirs-Loads :
      (dirs : List String) (mocks : List Mock)
      → Loads (all_visits dirs) mocks (load_dirs x dirs mocks)
  unfolding load_dirs
  load_dirs-Loads [] mocks = (refl, sym (append-nil mocks))
  load_dirs-Loads (dir ∷ dirs) mocks = rw (walk_visits_lem (x.walk dir) mocks) (
      after_walk-Loads dir dirs (x.walk dir) (all_visits dirs) _ mocks refl
        (λ ms. load_dirs-Loads dirs ms))

  -- LoadAll returns an error exactly if the walk of one of the directories meets one other than that
  -- of a missing file or directory. The loader then holds the mocks of the YAML files that can be
  -- read and parsed, in the order of the walks, up to that error or, if there is none, of all of the
  -- directories; a file that cannot be read or parsed leaves out its own mocks and no others, and
  -- mocks of an earlier call are gone.
  pub load_all-contents :
      (l : Loader)
      → (is_error (load_all x l).0 ≡ is_error (error_of (all_visits l.mocks_dirs)))
        × ((load_all x l).1.mocks ≡ contents (before_error (all_visits l.mocks_dirs)))
  unfolding load_all
  load_all-contents l = load_dirs-Loads l.mocks_dirs []
