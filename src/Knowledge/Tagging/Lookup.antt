-- ===== src/Knowledge/Tagging/Lookup.antt =====
-- What the normalization of tags returns, and what it creates
-- (app/knowledge/tagging/normalizer.py).
use mathlib.Core.Option.{some-injective, none-ne-some}
use ops_knowledge.Prelude.{
  ℕ, ◌≡◌, ◌↔◌, ◌⊎◌, inl, inr, refl, sym, ap, ◌∙◌, true, false, ◌||◌, Option, none, some, List, [],
  ◌∷◌, ◌++◌, any, In, arith, Bool-cases, Option-cases,
}
use ops_knowledge.Prelude.Results.{ok, err}
use ops_knowledge.Prelude.Texts.{Text, text_eq, text_eq_refl, text_eq→eq}
use ops_knowledge.Knowledge.Tagging.{
  TagDictionary, Mapping, get, canonicalize_input, get_kb_dict_map, Normalized, display_of, is_row,
  add_result, create_tag, normalize_key, normalize_tag, normalize_all, normalize_tags,
  duplicate_canonical,
}

-- The name that a mapping gives a raw tag.
abbrev pub named : (Text → Text) → Mapping → Text → Option Text
named lower m raw = elim (canonicalize_input lower raw) [ [] ↦ none | c ∷ key ↦ get (c ∷ key) m ]

any-snoc :
    (c d : Text) (xs : List Text)
    → any (text_eq c) (xs ++ d ∷ []) ≡ (any (text_eq c) xs || text_eq c d)
any-snoc c d [] = ground arith
any-snoc c d (x ∷ xs) = ground (arith, any-snoc c d xs)

-- A name is among the results once it is added, and so are those that were.
add_result_has :
    (c d : Text) (st : Normalized)
    → (any (text_eq c) (add_result d st).result ≡ true)
      ↔ ((any (text_eq c) st.result ≡ true) ⊎ (c ≡ d))
add_result_has c d st = elim (Bool-cases (any (text_eq d) st.result)) [
  | inl present ↦ (
    λ h. inl (rw present at h),
    λ h. elim h [ inl old ↦ rw present old | inr same ↦ rw (present, same) present ],
  )
  | inr fresh ↦ (
    λ h. elim (Bool-cases (any (text_eq c) st.result)) [
      | inl old ↦ inl old
      | inr new ↦ let snoc = any-snoc c d st.result in inr (text_eq→eq c d (ground arith))
    ],
    λ h. elim h [
      | inl old ↦ let snoc = any-snoc c d st.result in ground arith
      | inr same ↦
          let snoc = any-snoc c d st.result in
          let equal : text_eq c d ≡ true = rw same (text_eq_refl d) in ground arith
    ],
  )
]

add_result_keeps :
    (d : Text) (st : Normalized)
    → ((add_result d st).rows ≡ st.rows)
      × ((add_result d st).mapping ≡ st.mapping)
      × ((add_result d st).created_any ≡ st.created_any)
add_result_keeps d st = elim (Bool-cases (any (text_eq d) st.result)) [
  | inl present ↦
      (rw (present, add_result) refl, rw (present, add_result) refl, rw (present, add_result) refl)
  | inr fresh ↦
      (rw (fresh, add_result) refl, rw (fresh, add_result) refl, rw (fresh, add_result) refl)
]

-- One tag without creation: its name is added, if it has one.
abbrev added : Option Text → Normalized → Normalized
added none st = st
added (some c) st = add_result c st

normalize_tag-added :
    (lower : Text → Text) (kb_id : ℕ) (actor_id : Option ℕ) (raw : Text) (st : Normalized)
    → normalize_tag lower kb_id false actor_id raw st ≡ ok (added (named lower st.mapping raw) st)
unfolding normalize_tag normalize_key
normalize_tag-added lower kb_id actor_id raw st = go (canonicalize_input lower raw) refl
  where
    go :
        (key : Text)
        → canonicalize_input lower raw ≡ key
        → normalize_tag lower kb_id false actor_id raw st
          ≡ ok (added (named lower st.mapping raw) st)
    go [] e = rw (e, normalize_tag, named) refl
    go (c ∷ key) e = elim (Option-cases (get (c ∷ key) st.mapping)) [
      | inl missing ↦ rw (e, missing, normalize_tag, named, normalize_key) refl
      | inr (d, found) ↦ rw (e, found, normalize_tag, named, normalize_key) refl
    ]

-- A name that some raw tag of a list has.
abbrev pub Names : (Text → Text) → Mapping → List Text → Text → Type 0
Names lower m raws c = (raw : Text) × In raw raws × (named lower m raw ≡ some c)

-- The tags of `st'` are those of `st` and the names of the raw tags.
record IsLookup (lower : Text → Text) (raws : List Text) (st st' : Normalized) : Type 0 where
  rows : st'.rows ≡ st.rows
  mapping : st'.mapping ≡ st.mapping
  created : st'.created_any ≡ st.created_any
  result :
      (c : Text)
      → (any (text_eq c) st'.result ≡ true)
        ↔ ((any (text_eq c) st.result ≡ true) ⊎ Names lower st.mapping raws c)

added-IsLookup :
    (lower : Text → Text) (raw : Text) (st : Normalized)
    → IsLookup lower (raw ∷ []) st (added (named lower st.mapping raw) st)
added-IsLookup lower raw st = go (named lower st.mapping raw) refl
  where
    go :
        (o : Option Text)
        → named lower st.mapping raw ≡ o
        → IsLookup lower (raw ∷ []) st (added o st)
    go none e = record {
      rows = refl;
      mapping = refl;
      created = refl;
      result = λ c. (
        λ h. inl h,
        λ h. elim h [
          | inl old ↦ old
          | inr (r, i, f) ↦ elim i [
            | inl same ↦
                absurd (none-ne-some _ (sym e ∙ ap (named lower st.mapping) (sym same) ∙ f))
            | inr later ↦ absurd later
          ]
        ],
      );
    }
    go (some d) e =
        let (same_rows, same_mapping, same_created) = add_result_keeps d st in
        record {
          rows = same_rows;
          mapping = same_mapping;
          created = same_created;
          result = λ c. (
            λ h. elim ((add_result_has c d st).0 h) [
              | inl old ↦ inl old
              | inr same ↦ inr (raw, inl refl, e ∙ ap some (sym same))
            ],
            λ h. (add_result_has c d st).1 (elim h [
              | inl old ↦ inl old
              | inr (r, i, f) ↦ elim i [
                | inl same ↦ inr (some-injective _ _ (sym f ∙ ap (named lower st.mapping) same ∙ e))
                | inr later ↦ absurd later
              ]
            ]),
          );
        }

cons-IsLookup :
    (lower : Text → Text) (raw : Text) (raws : List Text) (st mid last : Normalized)
    → IsLookup lower (raw ∷ []) st mid
    → IsLookup lower raws mid last
    → IsLookup lower (raw ∷ raws) st last
cons-IsLookup lower raw raws st mid last a b = record {
  rows = b.rows ∙ a.rows;
  mapping = b.mapping ∙ a.mapping;
  created = b.created ∙ a.created;
  result = λ c. (
    λ h. elim ((b.result c).0 h) [
      | inl old ↦ elim ((a.result c).0 old) [
        | inl older ↦ inl older
        | inr (r, i, f) ↦ elim i [ inl same ↦ inr (r, inl same, f) | inr later ↦ absurd later ]
      ]
      | inr (r, i, f) ↦ inr (r, inr i, ap (λ m. named lower m r) (sym a.mapping) ∙ f)
    ],
    λ h. (b.result c).1 (elim h [
      | inl old ↦ inl ((a.result c).1 (inl old))
      | inr (r, i, f) ↦ elim i [
        | inl same ↦ inl ((a.result c).1 (inr (r, inl same, f)))
        | inr later ↦ inr (r, later, ap (λ m. named lower m r) a.mapping ∙ f)
      ]
    ]),
  );
}

normalize_all-IsLookup :
    (lower : Text → Text) (kb_id : ℕ) (actor_id : Option ℕ) (raws : List Text) (st : Normalized)
    → (st' : Normalized) × (normalize_all lower kb_id false actor_id raws st ≡ ok st')
      × IsLookup lower raws st st'
unfolding normalize_all
normalize_all-IsLookup lower kb_id actor_id [] st = (
  st,
  refl,
  record {
    rows = refl;
    mapping = refl;
    created = refl;
    result = λ c. (λ h. inl h, λ h. elim h [ inl old ↦ old | inr (r, i, f) ↦ absurd i ]);
  },
)
normalize_all-IsLookup lower kb_id actor_id (raw ∷ raws) st =
    let mid = added (named lower st.mapping raw) st in
    let (last, ran, rest) = normalize_all-IsLookup lower kb_id actor_id raws mid in
    (
      last,
      rw (normalize_tag-added lower kb_id actor_id raw st) ran,
      cons-IsLookup lower raw raws st mid last (added-IsLookup lower raw st) rest,
    )

-- Without creation the normalization of tags succeeds, creates no row, and returns exactly the
-- names that the mapping of the knowledge base gives to the raw tags whose key is not empty.
pub normalize_tags_exact :
    (lower : Text → Text) (kb_id : ℕ) (cached : Option Mapping) (actor_id : Option ℕ)
    (raws : List Text) (rows : List TagDictionary)
    → (st : Normalized) × (normalize_tags lower kb_id cached false actor_id raws rows ≡ ok st)
      × (st.rows ≡ rows)
      × (st.created_any ≡ false)
      × ((c : Text)
          → (any (text_eq c) st.result ≡ true)
            ↔ Names lower (get_kb_dict_map lower kb_id cached rows) raws c)
unfolding normalize_tags
normalize_tags_exact lower kb_id cached actor_id raws rows =
    let start : Normalized = record {
      rows = rows;
      mapping = get_kb_dict_map lower kb_id cached rows;
      result = [];
      created_any = false;
    } in
    let (st, ran, found) = normalize_all-IsLookup lower kb_id actor_id raws start in
    (
      st,
      ran,
      found.rows,
      found.created,
      λ c. (
        λ h. elim ((found.result c).0 h) [ inl old ↦ absurd (ground arith) | inr new ↦ new ],
        λ n. (found.result c).1 (inr n),
      ),
    )

tag_raises :
    (lower : Text → Text) (kb_id : ℕ) (actor_id : Option ℕ) (c : ℕ) (key raw : Text)
    (st : Normalized)
    → canonicalize_input lower raw ≡ c ∷ key
    → get (c ∷ key) st.mapping ≡ none
    → any (is_row kb_id (display_of raw)) st.rows ≡ true
    → normalize_tag lower kb_id true actor_id raw st ≡ err (duplicate_canonical (display_of raw))
unfolding normalize_tag normalize_key create_tag
tag_raises lower kb_id actor_id c key raw st has_key unnamed exists =
    rw (has_key, normalize_tag) (rw (unnamed, normalize_key) (rw (exists, create_tag) refl))

-- Where the mapping has no name for a tag but the table has a row of its name (a deprecated one, or
-- one cut to 64 characters), the creation violates the unique constraint, and the whole call raises.
pub known_tag_raises :
    (lower : Text → Text) (kb_id : ℕ) (cached : Option Mapping) (actor_id : Option ℕ) (c : ℕ)
    (key raw : Text) (raws : List Text) (rows : List TagDictionary)
    → canonicalize_input lower raw ≡ c ∷ key
    → get (c ∷ key) (get_kb_dict_map lower kb_id cached rows) ≡ none
    → any (is_row kb_id (display_of raw)) rows ≡ true
    → normalize_tags lower kb_id cached true actor_id (raw ∷ raws) rows
      ≡ err (duplicate_canonical (display_of raw))
unfolding normalize_tags normalize_all
known_tag_raises lower kb_id cached actor_id c key raw raws rows has_key unnamed exists =
    let start : Normalized = record {
      rows = rows;
      mapping = get_kb_dict_map lower kb_id cached rows;
      result = [];
      created_any = false;
    } in
    rw (tag_raises lower kb_id actor_id c key raw start has_key unnamed exists) refl
