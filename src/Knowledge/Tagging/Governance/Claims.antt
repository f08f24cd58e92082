-- ===== src/Knowledge/Tagging/Governance/Claims.antt =====
-- The names in the mapping of app/knowledge/tagging/normalizer.py, and the rows that claim them.
use ops_knowledge.Prelude.{
  ℕ, ◌≡◌, inl, inr, refl, ap, ◌∙◌, Bool, true, false, not, ◌&&◌, ◌||◌, ◌==◌, if◌then◌else◌, Option,
  none, some, List, [], ◌∷◌, any, arith, Bool-cases, mem, IsUnique,
}
use ops_knowledge.Prelude.Dict.{Dict, insert, keys}
use ops_knowledge.Prelude.Texts.{Text, text_eq, text_eq_refl, text_eq→eq}
use ops_knowledge.Knowledge.Tagging.Governance.{rows_of}
use ops_knowledge.Knowledge.Tagging.{
  TagDictionary, Mapping, get, put, put_aliases, put_rows, load_dict_from_db,
}

-- A row names a text in lower case.
abbrev pub names : (Text → Text) → Text → TagDictionary → Bool
names lower x r = text_eq x (lower r.canonical) || any (λ a. text_eq x (lower a)) r.aliases

abbrev pub claims : (Text → Text) → ℕ → Text → TagDictionary → Bool
claims lower kb_id x r = (r.kb_id == kb_id) && not r.is_deprecated && names lower x r

-- The last row that claims the text decides.
abbrev pub owner : (Text → Text) → ℕ → Text → List TagDictionary → Option Text → Option Text
owner lower kb_id x [] known = known
owner lower kb_id x (r ∷ rows) known =
    owner lower kb_id x rows (if claims lower kb_id x r then some r.canonical else known)

text_eq_comm : (s t : Text) → text_eq s t ≡ true → text_eq t s ≡ true
text_eq_comm s t h = rw (text_eq→eq s t h) (text_eq_refl t)

get-put :
    (x k v : Text) (m : Mapping) → get x (put k v m) ≡ (if text_eq x k then some v else get x m)
get-put x k v [] = refl
get-put x k v ((j, w) ∷ m) = elim (Bool-cases (text_eq k j)) [
  | inl known ↦ rw (known, text_eq→eq k j known) (ground arith)
  | inr other ↦ elim (Bool-cases (text_eq x j)) [
    | inl here ↦
        let same : text_eq k x ≡ false = rw (text_eq→eq x j here) other in
        let comm = text_eq_comm x k in ground arith
    | inr there ↦ let rest = get-put x k v m in ground arith
  ]
]

get-put_aliases :
    (lower : Text → Text) (x c : Text) (aliases : List Text) (m : Mapping)
    → get x (put_aliases lower c aliases m)
      ≡ (if any (λ a. text_eq x (lower a)) aliases then some c else get x m)
get-put_aliases lower x c [] m = refl
get-put_aliases lower x c (a ∷ aliases) m =
    let put_first = get-put x (lower a) c m in
    let put_rest = get-put_aliases lower x c aliases (put (lower a) c m) in ground arith

abbrev own_names : (Text → Text) → TagDictionary → Mapping → Mapping
own_names lower r m =
    put_aliases lower r.canonical r.aliases (put (lower r.canonical) r.canonical m)

get-own_names :
    (lower : Text → Text) (x : Text) (r : TagDictionary) (m : Mapping)
    → get x (own_names lower r m) ≡ (if names lower x r then some r.canonical else get x m)
get-own_names lower x r m =
    let name = get-put x (lower r.canonical) r.canonical m in
    let rest =
      get-put_aliases lower x r.canonical r.aliases (put (lower r.canonical) r.canonical m) in
    ground arith

get-put_rows :
    (lower : Text → Text) (kb_id : ℕ) (x : Text) (rows : List TagDictionary) (m : Mapping)
    → get x (put_rows lower kb_id rows m) ≡ owner lower kb_id x rows (get x m)
get-put_rows lower kb_id x [] m = refl
get-put_rows lower kb_id x (r ∷ rows) m = elim (Bool-cases (r.kb_id == kb_id)) [
  | inl here ↦ elim (Bool-cases r.is_deprecated) [
    | inl gone ↦ rw (here, gone) (get-put_rows lower kb_id x rows m)
    | inr active ↦
        rw (here, active)
          (get-put_rows lower kb_id x rows (own_names lower r m)
            ∙ ap (owner lower kb_id x rows) (get-own_names lower x r m))
  ]
  | inr elsewhere ↦ rw elsewhere (get-put_rows lower kb_id x rows m)
]

-- The mapping gives a text the canonical name of the last active row of the base of which it is a
-- name in lower case, and no name if there is no such row.
pub load_dict_from_db_exact :
    (lower : Text → Text) (kb_id : ℕ) (x : Text) (rows : List TagDictionary)
    → get x (load_dict_from_db lower kb_id rows) ≡ owner lower kb_id x rows none
unfolding load_dict_from_db
load_dict_from_db_exact lower kb_id x rows = get-put_rows lower kb_id x rows []

-- A row other than the one with the identifier `t` claims the text.
abbrev pub is_claimed_by_another : (Text → Text) → ℕ → Text → ℕ → Dict TagDictionary → Bool
is_claimed_by_another lower kb_id x t [] = false
is_claimed_by_another lower kb_id x t ((j, r) ∷ d) =
    (not (j == t) && claims lower kb_id x r) || is_claimed_by_another lower kb_id x t d

pub owner-unclaimed :
    (lower : Text → Text) (kb_id : ℕ) (x : Text) (t : ℕ) (d : Dict TagDictionary)
    (known : Option Text)
    → mem t (keys d) ≡ false
    → is_claimed_by_another lower kb_id x t d ≡ false
    → owner lower kb_id x (rows_of d) known ≡ known
owner-unclaimed lower kb_id x t [] known other free = refl
owner-unclaimed lower kb_id x t ((j, r) ∷ d) known other free =
    ground (arith, owner-unclaimed lower kb_id x t d known)

-- The row that is written decides where it alone claims the text.
pub owner-insert :
    (lower : Text → Text) (kb_id : ℕ) (x : Text) (t : ℕ) (row : TagDictionary)
    (d : Dict TagDictionary) (known : Option Text)
    → IsUnique (keys d)
    → is_claimed_by_another lower kb_id x t d ≡ false
    → claims lower kb_id x row ≡ true
    → owner lower kb_id x (rows_of (insert t row d)) known ≡ some row.canonical
owner-insert lower kb_id x t row [] known unique free own = rw own refl
owner-insert lower kb_id x t row ((j, r) ∷ d) known unique free own = elim (Bool-cases (t == j)) [
  | inl here ↦
      let same : t ≡ j = ground arith in
      let fresh : mem t (keys d) ≡ false = rw same unique.0 in
      let rest = owner-unclaimed lower kb_id x t d (some row.canonical) fresh (ground arith) in
      let decided : ◌≡◌ {A = Option Text}
          (if claims lower kb_id x row then some row.canonical else known) (some row.canonical) =
        rw own refl in
      rw here (ap (owner lower kb_id x (rows_of d)) decided ∙ rest)
  | inr there ↦
      let not_claimed : claims lower kb_id x r ≡ false = ground arith in
      let rest = owner-insert lower kb_id x t row d known unique.1 (ground arith) own in
      let skipped : ◌≡◌ {A = Option Text}
          (if claims lower kb_id x r then some r.canonical else known) known =
        rw not_claimed refl in
      rw there (ap (owner lower kb_id x (rows_of (insert t row d))) skipped ∙ rest)
]
