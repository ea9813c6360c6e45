-- ===== src/Discover/Glob.antt =====
-- internal/discover/glob.go: patterns with `**` over the segments of a path.
pub mod Matches
use datum.Prelude.{
  Eq, ◌==◌, ℕ, Bool, true, false, not, ◌&&◌, ◌||◌, List, [], ◌∷◌, ◌++◌, any, if◌then◌else◌,
}
use datum.Text.{Text, text_eq, bytes, split, join}

-- path[0:], path[1:], up to the empty rest.
unfoldable pub rests : List Text → List (List Text)
rests [] = [] ∷ []
rests (s ∷ ss) = (s ∷ ss) ∷ rests ss

-- The beginnings segments[:1], segments[:2], up to the whole.
unfoldable pub beginnings : List Text → List Text → List (List Text)
beginnings before [] = []
beginnings before (s ∷ ss) = (before ++ s ∷ []) ∷ beginnings (before ++ s ∷ []) ss

-- `match_segment` is filepath.Match, false where that gives an error.
module _ (match_segment : Text → Text → Bool) where
  -- The code after the test for `**`, where `rest` is the loop's next round.
  unfoldable pub match_first : (List Text → Bool) → Text → List Text → Bool
  match_first rest segment [] = false
  match_first rest segment (s ∷ ss) = if not (match_segment segment s) then false else rest ss

  -- matchSegments
  unfoldable pub match_segments : List Text → List Text → Bool
  unfolding rests match_first
  match_segments [] [] = true
  match_segments [] (s ∷ ss) = false
  match_segments (p ∷ ps) path =
      let rest = match_segments ps in
      if p == bytes "**" then any rest (rests path) else match_first rest p path

  -- matchGlob
  unfoldable pub match_glob : Text → Text → Bool
  unfolding match_segments split
  match_glob pattern path = match_segments (split b'/' pattern) (split b'/' path)

  -- excluded
  unfoldable pub excluded : List Text → Text → Bool
  unfolding match_glob beginnings split join
  excluded patterns rel =
      any
        (λ pattern.
          any (λ segments. match_glob pattern (join (bytes "/") segments))
            (beginnings [] (split b'/' rel)))
        patterns
