-- ===== src/Knowledge/Chunking.antt =====
-- Splitting a text into chunks by separators: app/knowledge/chunking/recursive.py. A chunk size is
-- a natural number; at 0 the slicing raises, which is `none`.
pub mod Sizes
pub mod Content
use ops_knowledge.Prelude.{
  ℕ, zero, suc, ◌-◌, Bool, true, false, not, leb, ltb, any, if◌then◌else◌, Option, none, some, List,
  [], ◌∷◌, ◌++◌, length, take, drop, take_last,
}
use ops_knowledge.Prelude.Texts.{Text, codes, text_eq, starts_with, strip}

pub record ChunkResult : Type 0 where
  pub content : Text
  pub level : ℕ
  pub position : ℕ

-- The keys of the configuration that the strategy reads; `none` is a key that is missing.
pub record Config : Type 0 where
  pub chunk_size : Option ℕ
  pub chunk_overlap : Option ℕ
  pub delimiter : Option Text

-- text.split(sep) for a nonempty separator: `acc` is the part begun, `skip` counts what is left of
-- a separator that was found.
unfoldable pub split_from : Text → ℕ → Text → Text → List Text
split_from sep skip acc [] = acc ∷ []
split_from sep (suc skip) acc (c ∷ t) = split_from sep skip acc t
split_from sep zero acc (c ∷ t) =
    let found = acc ∷ split_from sep (length sep - 1) [] t in
    let more = split_from sep zero (acc ++ c ∷ []) t in
    if starts_with (c ∷ t) sep then found else more

unfoldable pub split : Text → Text → List Text
split text sep = split_from sep 0 [] text

unfoldable pub join : Text → List Text → Text
join sep [] = []
join sep (p ∷ []) = p
join sep (p ∷ q ∷ ps) = p ++ sep ++ join sep (q ∷ ps)

-- s.replace(old, new) for a nonempty `old`
abbrev pub replace : Text → Text → Text → Text
replace old new s = join new (split s old)

-- range(0, len(text), chunk_size): a slice for each step.
unfoldable pub slices : ℕ → ℕ → Text → List Text
slices fuel size [] = []
slices zero size (c ∷ t) = []
slices (suc fuel) size (c ∷ t) = take size (c ∷ t) ∷ slices fuel size (drop size (c ∷ t))

-- Every slice takes a character, if the size is not 0.
unfoldable pub force_split : ℕ → Text → Option (List Text)
force_split zero text = none
force_split (suc n) text = some (slices (length text) (suc n) text)

-- `if current: chunks.append(current)`
abbrev pub flush : Text → List Text
flush [] = []
flush (c ∷ t) = (c ∷ t) ∷ []

-- f"{current}{sep}{part}" if current else part
abbrev pub extend : Text → Text → Text → Text
extend [] sep part = part
extend (c ∷ t) sep part = (c ∷ t) ++ sep ++ part

abbrev pub appended : List Text → Option (List Text) → Option (List Text)
appended xs none = none
appended xs (some ys) = some (xs ++ ys)

abbrev pub both : Option (List Text) → Option (List Text) → Option (List Text)
both none ys = none
both (some xs) ys = appended xs ys

-- The loop over the parts; `deeper` splits a part that is too long by the next separators.
unfoldable pub merge :
    (Text → Option (List Text)) → ℕ → Text → Text → List Text → Option (List Text)
merge deeper size sep current [] = some (flush current)
merge deeper size sep current (part ∷ parts) =
    let candidate = extend current sep part in
    let kept = merge deeper size sep candidate parts in
    let emptied = merge deeper size sep [] parts in
    let restarted = merge deeper size sep part parts in
    if leb (length candidate) size
    then kept
    else appended (flush current)
        (if ltb size (length part) then both (deeper part) emptied else restarted)

unfoldable pub split_recursive : List Text → ℕ → Text → Option (List Text)
split_recursive [] size text =
    if leb (length text) size then some (text ∷ []) else force_split size text
split_recursive ([] ∷ seps) size text =
    if leb (length text) size then some (text ∷ []) else force_split size text
split_recursive ((c ∷ sep) ∷ seps) size text =
    if leb (length text) size
    then some (text ∷ [])
    else merge (split_recursive seps size) size (c ∷ sep) [] (split text (c ∷ sep))

unfoldable pub overlapped : ℕ → Text → List Text → List Text
overlapped overlap previous [] = []
overlapped overlap previous (p ∷ ps) = (take_last overlap previous ++ p) ∷ overlapped overlap p ps

unfoldable pub apply_overlap : List Text → ℕ → List Text
apply_overlap [] overlap = []
apply_overlap (p ∷ ps) zero = p ∷ ps
apply_overlap (p ∷ ps) (suc n) = p ∷ overlapped (suc n) p ps

-- "\n\n", "\n", ". ", " ", ""
abbrev pub separators : List Text
separators = codes "\n\n" ∷ codes "\n" ∷ codes ". " ∷ codes " " ∷ [] ∷ []

abbrev pub with_delimiter : Option Text → List Text
with_delimiter none = separators
with_delimiter (some []) = separators
with_delimiter (some (c ∷ d)) =
    let delim = replace (codes "\\t") (codes "\t") (replace (codes "\\n") (codes "\n") (c ∷ d)) in
    if any (text_eq delim) separators then separators else delim ∷ separators

-- What is left after `strip` decides which pieces become chunks; a position counts all pieces.
abbrev pub is_blank : Text → Bool
is_blank t = elim (strip t) [ [] ↦ true | c ∷ s ↦ false ]

abbrev pub results : ℕ → List Text → List ChunkResult
results i [] = []
results i (p ∷ ps) =
    let rest = results (suc i) ps in
    if is_blank p then rest else record { content = p; level = 0; position = i } ∷ rest

abbrev pub or_default : ℕ → Option ℕ → ℕ
or_default n none = n
or_default n (some k) = k

unfoldable pub chunk : Text → Config → Option (List ChunkResult)
chunk text config =
    if is_blank text
    then some []
    else (elim (split_recursive (with_delimiter config.delimiter) (or_default 500 config.chunk_size)
        text) [
          | none ↦ none
          | some pieces ↦
              some (results 0 (apply_overlap pieces (or_default 50 config.chunk_overlap)))
        ])
