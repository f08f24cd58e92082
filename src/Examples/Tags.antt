-- ===== src/Examples/Tags.antt =====
-- Tests and instances for app/knowledge/tagging/normalizer.py.
use ops_knowledge.Prelude.{
  ◌+◌, ◌≡◌, ◌↔◌, refl, true, false, ◌&&◌, leb, if◌then◌else◌, none, some, List, [], ◌∷◌, map, any,
}
use ops_knowledge.Prelude.Results.{Result, ok, err}
use ops_knowledge.Prelude.Texts.{Text, codes, text_eq, strip}
use ops_knowledge.Knowledge.Tagging.{
  TagDictionary, Normalized, canonicalize_input, load_dict_from_db, get_kb_dict_map, display_of,
  create_tag, normalize_key, normalize_tag, normalize_all, normalize_tags,
}
use ops_knowledge.Knowledge.Tagging.Lookup.{Names, normalize_tags_exact}

-- The lower case of ASCII.
abbrev lower : Text → Text
lower = map (λ c. if leb 65 c && leb c 90 then c + 32 else c)

abbrev rows : List TagDictionary
rows =
    record {
      kb_id = 1;
      canonical = codes "VPN";
      aliases = codes "Tunnel" ∷ [];
      is_deprecated = false;
      created_by = none;
    }
    ∷ record {
      kb_id = 1;
      canonical = codes "Fax";
      aliases = [];
      is_deprecated = true;
      created_by = none;
    }
    ∷ []

abbrev raws : List Text
raws = codes " tunnel" ∷ codes "" ∷ codes "vpn" ∷ codes "unknown" ∷ []

abbrev result_of {ℓ} : {E : Type ℓ} → Result E Normalized → List Text
result_of (err e) = []
result_of (ok st) = st.result

alias_found : result_of (normalize_tags lower 1 none false none raws rows) ≡ codes "VPN" ∷ []
unfolding normalize_tags normalize_all normalize_tag normalize_key canonicalize_input
    get_kb_dict_map load_dict_from_db strip text_eq
alias_found = refl

tag_created :
    result_of (normalize_tags lower 1 none true (some 3) (codes " DNS " ∷ codes "dns" ∷ []) rows)
    ≡ codes "DNS" ∷ []
unfolding normalize_tags normalize_all normalize_tag normalize_key canonicalize_input
    get_kb_dict_map load_dict_from_db create_tag display_of strip text_eq
tag_created = refl

normalize_tags_exact_example :
    (st : Normalized) × (normalize_tags lower 1 none false none raws rows ≡ ok st)
    × (st.rows ≡ rows)
    × (st.created_any ≡ false)
    × ((c : Text)
        → (any (text_eq c) st.result ≡ true)
          ↔ Names lower (get_kb_dict_map lower 1 none rows) raws c)
normalize_tags_exact_example = normalize_tags_exact lower 1 none none raws rows
