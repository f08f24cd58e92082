-- ===== src/Agent/Matchers.antt =====
-- The keyword matcher: app/agent/orchestrator/matchers/keyword.py. `casefold` is Python's
-- `str.casefold`.
pub mod Keywords
use ops_knowledge.Prelude.{ℕ, Bool, true, false, ◌&&◌, ◌||◌, if◌then◌else◌, List, [], ◌∷◌, keep}
use ops_knowledge.Prelude.Texts.{Text, starts_with}

-- `match_config` of a keyword rule.
pub record KeywordConfig : Type 0 where
  pub any_of : List Text
  pub case_sensitive : Bool

-- A MatchResult, with the hits of its details.
pub record KeywordResult : Type 0 where
  pub matched : Bool
  pub hits : List Text

-- `probe in haystack`
unfoldable pub contains : Text → Text → Bool
contains [] probe = starts_with [] probe
contains (c ∷ haystack) probe = starts_with (c ∷ haystack) probe || contains haystack probe

abbrev pub folded : (Text → Text) → KeywordConfig → Text → Text
folded casefold config t = if config.case_sensitive then t else casefold t

-- `probe and probe in haystack`
abbrev pub is_hit : (Text → Text) → KeywordConfig → Text → Text → Bool
is_hit casefold config message kw = elim (folded casefold config kw) [
  | [] ↦ false
  | c ∷ probe ↦ contains (folded casefold config message) (c ∷ probe)
]

abbrev pub is_nonempty : List Text → Bool
is_nonempty [] = false
is_nonempty (h ∷ hs) = true

unfoldable pub match_keyword : (Text → Text) → KeywordConfig → Text → KeywordResult
match_keyword casefold config message =
    let found = keep (is_hit casefold config message) config.any_of in
    record { matched = is_nonempty found; hits = found }
