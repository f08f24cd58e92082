-- ===== src/Knowledge/Tagging.antt =====
-- The normalization of tags: app/knowledge/tagging/normalizer.py, over the rows of the tag
-- dictionary (tagging/models.py). `lower` is Python's `str.lower`, and the cached mapping is what
-- Redis holds for the knowledge base, if anything.
pub mod Lookup
pub mod Governance
use ops_knowledge.Prelude.{
  ℕ, Bool, true, false, ◌&&◌, ◌==◌, if◌then◌else◌, Option, none, some, List, [], ◌∷◌, ◌++◌, any,
  map, take,
}
use ops_knowledge.Prelude.Results.{Result, ok, err, ◌>>=◌}
use ops_knowledge.Prelude.Texts.{Text, text_eq, strip}

pub record TagDictionary : Type 0 where
  pub kb_id : ℕ
  pub canonical : Text
  pub aliases : List Text
  pub is_deprecated : Bool
  pub created_by : Option ℕ

-- A violation of the unique constraint on `kb_id` and `canonical`.
pub data IntegrityError : Type 0 where
  duplicate_canonical : Text → IntegrityError

-- dict[str, str]
abbrev pub Mapping : Type 0
Mapping = List (Text × Text)

abbrev pub get : Text → Mapping → Option Text
get k [] = none
get k ((j, v) ∷ m) = if text_eq k j then some v else get k m

abbrev pub put : Text → Text → Mapping → Mapping
put k v [] = (k, v) ∷ []
put k v ((j, w) ∷ m) = if text_eq k j then (j, v) ∷ m else (j, w) ∷ put k v m

-- s.replace("\u3000", " ")
abbrev pub plain_spaces : Text → Text
plain_spaces = map (λ c. if c == 12288 then 32 else c)

unfoldable pub canonicalize_input : (Text → Text) → Text → Text
canonicalize_input lower [] = []
canonicalize_input lower (c ∷ raw) = strip (plain_spaces (lower (strip (c ∷ raw))))

abbrev pub put_aliases : (Text → Text) → Text → List Text → Mapping → Mapping
put_aliases lower canonical [] m = m
put_aliases lower canonical (a ∷ aliases) m =
    put_aliases lower canonical aliases (put (lower a) canonical m)

abbrev pub put_rows : (Text → Text) → ℕ → List TagDictionary → Mapping → Mapping
put_rows lower kb_id [] m = m
put_rows lower kb_id (r ∷ rows) m =
    let with_row =
      put_rows lower kb_id rows
        (put_aliases lower r.canonical r.aliases (put (lower r.canonical) r.canonical m)) in
    let without = put_rows lower kb_id rows m in
    if r.kb_id == kb_id then (if r.is_deprecated then without else with_row) else without

unfoldable pub load_dict_from_db : (Text → Text) → ℕ → List TagDictionary → Mapping
load_dict_from_db lower kb_id rows = put_rows lower kb_id rows []

unfoldable pub get_kb_dict_map : (Text → Text) → ℕ → Option Mapping → List TagDictionary → Mapping
get_kb_dict_map lower kb_id none rows = load_dict_from_db lower kb_id rows
get_kb_dict_map lower kb_id (some cached) rows = cached

-- The loop's variables; `seen` holds what `result` holds.
pub record Normalized : Type 0 where
  pub rows : List TagDictionary
  pub mapping : Mapping
  pub result : List Text
  pub created_any : Bool

-- raw.strip().replace("\u3000", " ").strip(), and at most 64 characters of it
unfoldable pub display_of : Text → Text
display_of raw = take 64 (strip (plain_spaces (strip raw)))

abbrev pub is_row : ℕ → Text → TagDictionary → Bool
is_row kb_id canonical r = (r.kb_id == kb_id) && text_eq canonical r.canonical

abbrev pub add_result : Text → Normalized → Normalized
add_result c st =
    if any (text_eq c) st.result then st else record st { result = st.result ++ c ∷ [] }

-- `db.add(new_row)` and the flush, which raises on a row of the same name.
unfoldable pub create_tag :
    ℕ → Option ℕ → Text → Text → Normalized → Result IntegrityError Normalized
create_tag kb_id actor_id key display st =
    if any (is_row kb_id display) st.rows
    then err (duplicate_canonical display)
    else ok (record st {
      rows =
          st.rows
          ++ record {
            kb_id = kb_id;
            canonical = display;
            aliases = [];
            is_deprecated = false;
            created_by = actor_id;
          }
            ∷ [];
      mapping = put key display st.mapping;
      created_any = true;
    })

-- The body of the loop for a tag whose key is not empty.
unfoldable pub normalize_key :
    ℕ → Bool → Option ℕ → Text → Text → Normalized → Result IntegrityError Normalized
normalize_key kb_id allow_create actor_id raw key st = elim (get key st.mapping) [
  | some c ↦ ok (add_result c st)
  | none ↦
      if allow_create
      then (do
        st' ← create_tag kb_id actor_id key (display_of raw) st
        ok (add_result (display_of raw) st'))
      else ok st
]

unfoldable pub normalize_tag :
    (Text → Text) → ℕ → Bool → Option ℕ → Text → Normalized → Result IntegrityError Normalized
normalize_tag lower kb_id allow_create actor_id raw st = elim (canonicalize_input lower raw) [
  | [] ↦ ok st
  | c ∷ key ↦ normalize_key kb_id allow_create actor_id raw (c ∷ key) st
]

unfoldable pub normalize_all :
    (Text → Text) → ℕ → Bool → Option ℕ → List Text → Normalized → Result IntegrityError Normalized
normalize_all lower kb_id allow_create actor_id [] st = ok st
normalize_all lower kb_id allow_create actor_id (raw ∷ raws) st = do
  st' ← normalize_tag lower kb_id allow_create actor_id raw st
  normalize_all lower kb_id allow_create actor_id raws st'

-- The cache is invalidated where the result says that a row was created.
unfoldable pub normalize_tags :
    (Text → Text)
    → ℕ
    → Option Mapping
    → Bool
    → Option ℕ
    → List Text
    → List TagDictionary
    → Result IntegrityError Normalized
normalize_tags lower kb_id cached allow_create actor_id raws rows =
    normalize_all lower kb_id allow_create actor_id raws (record {
      rows = rows;
      mapping = get_kb_dict_map lower kb_id cached rows;
      result = [];
      created_any = false;
    })
