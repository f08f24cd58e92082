-- ===== src/Knowledge/Lifecycle/Archiving.antt =====
-- Days of the sweep without use of a base (app/knowledge/lifecycle/tasks.py).
use mathlib.Core.Option.{some-injective}
use ops_knowledge.Prelude.{
  ℕ, zero, suc, ◌+◌, ◌≤◌, ◌≡◌, refl, sym, ap, ◌∙◌, subst, true, false, if◌then◌else◌, none, some,
  List, [], ◌∷◌, map, arith, inl, inr, Bool-cases, Option-cases, get_elem?, IsUnique, Bool, any,
  keep, ◌==◌,
}
use ops_knowledge.Prelude.Dict.{Dict, lookup}
use ops_knowledge.Knowledge.Lifecycle.{
  Chunk, ChunkUsageEvent, is_hit_of, KnowledgeBase, Document, Tables, Db, Clock, days,
  expiration_days, is_heat_cliff, compute_doc_hit_windows, run_lifecycle, run_daily,
}
use ops_knowledge.Knowledge.Lifecycle.Documents.{
  should_be_stale, outcome, home, at_home, after_run, run_lifecycle_exact, outcome_same_kb,
}

-- Each run comes at most `period` after the one before, the first after `t`.
abbrev pub IsSpaced : ℕ → ℕ → List Clock → Type 0
IsSpaced period t [] = Unit
IsSpaced period t (clock ∷ clocks) =
    (clock.now ≤ t + period) × (clock.now ≤ clock.transaction) × IsSpaced period clock.now clocks

-- Not archived, and updated at `t` or later if it is marked.
abbrev IsRecent : ℕ → Document → Type 0
IsRecent t doc = (doc.is_archived ≡ false) × (doc.is_stale ≡ true → t ≤ doc.updated_at)

-- The event is about a chunk of the base.
abbrev pub is_of_base : Dict Chunk → ℕ → ChunkUsageEvent → Bool
is_of_base chunks kb_id e = elim (lookup e.chunk_id chunks) [
  | none ↦ false
  | some c ↦ c.knowledge_base_id == kb_id
]

no_hits :
    (chunks : Dict Chunk) (kb_id doc_id : ℕ) (events : List ChunkUsageEvent)
    → any (is_of_base chunks kb_id) events ≡ false
    → keep (is_hit_of chunks kb_id doc_id) events ≡ []
no_hits chunks kb_id doc_id [] h = refl
no_hits chunks kb_id doc_id (e ∷ events) h =
    let rest = no_hits chunks kb_id doc_id events in
    elim (Option-cases (lookup e.chunk_id chunks)) [
      | inl gone ↦ ground arith
      | inr (c, there) ↦ ground arith
    ]

no_cliff :
    (tables : Tables) (clock : Clock) (kb_id doc_id : ℕ)
    → any (is_of_base tables.chunks kb_id) tables.events ≡ false
    → is_heat_cliff (compute_doc_hit_windows tables clock kb_id doc_id) ≡ false
unfolding compute_doc_hit_windows
no_cliff tables clock kb_id doc_id h = rw (no_hits tables.chunks kb_id doc_id tables.events h) refl

outcome-IsRecent :
    (tables : Tables) (kb : KnowledgeBase) (clock : Clock) (t : ℕ) (doc : Document)
    → any (is_of_base tables.chunks kb.id) tables.events ≡ false
    → clock.now ≤ t + days (expiration_days kb)
    → clock.now ≤ clock.transaction
    → IsRecent t doc
    → IsRecent clock.now (outcome tables kb clock doc)
outcome-IsRecent tables kb clock t doc quiet spaced later recent =
    let calm = no_cliff tables clock kb.id doc.id quiet in
    elim (Bool-cases doc.is_stale) [
      | inl stale ↦
          let at_t = recent.1 stale in
          let fresh : should_be_stale tables kb clock doc ≡ false = ground arith in
          let cleared : Document = record doc {
            is_stale = false;
            stale_since = none;
            updated_at = clock.transaction;
          } in
          let e : outcome tables kb clock doc ≡ cleared = simp (stale, fresh) refl in
          subst (IsRecent clock.now) (sym e) (recent.0, λ h. absurd (ground arith))
      | inr unmarked ↦ elim (Bool-cases (should_be_stale tables kb clock doc)) [
        | inl old ↦
            let marked : Document = record doc {
              is_stale = true;
              stale_since = some clock.now;
              updated_at = clock.transaction;
            } in
            let e : outcome tables kb clock doc ≡ marked = simp (unmarked, old) refl in
            subst (IsRecent clock.now) (sym e) (recent.0, λ h. later)
        | inr young ↦
            let e : outcome tables kb clock doc ≡ doc = simp (unmarked, young) refl in
            subst (IsRecent clock.now) (sym e) (recent.0, λ h. absurd (ground arith))
      ]
    ]

-- The base of a document depends on the identifier only.
home_same :
    (kbs : List KnowledgeBase) (doc doc' : Document)
    → doc'.knowledge_base_id ≡ doc.knowledge_base_id
    → home kbs doc' ≡ home kbs doc
home_same [] doc doc' h = refl
home_same (kb ∷ kbs) doc doc' h = rw (home_same kbs doc doc' h) (simp h refl)

get_elem?-map :
    (f : Document → Document) (i : ℕ) (docs : List Document) (doc : Document)
    → get_elem? docs i ≡ some doc
    → get_elem? (map f docs) i ≡ some (f doc)
get_elem?-map f i [] doc e = absurd (ground arith)
get_elem?-map f zero (d ∷ docs) doc e = ap (λ x. some (f x)) (some-injective d doc e)
get_elem?-map f (suc i) (d ∷ docs) doc e = get_elem?-map f i docs doc e

-- The sweep never archives a document of a base of whose chunks no use is recorded, on any number of
-- days, where the document is not archived at first, every run comes at most the expiration days of
-- the base after the one before, the first at most so long after a time `t`, the document was updated
-- at `t` or later if it is marked, no transaction is before its run, and the identifiers of the bases
-- are different. A document that one run marks is cleared by the next, since the mark is an update.
pub never_archived :
    (clocks : List Clock) (db : Db) (doc : Document) (kb : KnowledgeBase) (i t : ℕ)
    → IsUnique (map (λ b. b.id) db.tables.knowledge_bases)
    → any (is_of_base db.tables.chunks kb.id) db.tables.events ≡ false
    → get_elem? db.documents i ≡ some doc
    → home db.tables.knowledge_bases doc ≡ some kb
    → doc.is_archived ≡ false
    → (doc.is_stale ≡ true → t ≤ doc.updated_at)
    → IsSpaced (days (expiration_days kb)) t clocks
    → (doc' : Document) × (get_elem? (run_daily clocks db).documents i ≡ some doc')
      × (doc'.is_archived ≡ false)
unfolding run_daily run_lifecycle
never_archived [] db doc kb i t unique quiet found at live recent spaced = (doc, found, live)
never_archived (clock ∷ clocks) db doc kb i t unique quiet found at live recent spaced =
    let doc' = outcome db.tables kb clock doc in
    let (live', recent') =
      outcome-IsRecent db.tables kb clock t doc quiet spaced.0 spaced.1 (live, recent) in
    let moved : after_run db.tables clock doc ≡ doc' =
      ap (λ b. if b then doc else at_home db.tables clock (home db.tables.knowledge_bases doc) doc)
        live
      ∙ ap (λ o. at_home db.tables clock o doc) at in
    let found' : get_elem? (run_lifecycle clock db).0.documents i ≡ some doc' =
      ap (λ l. get_elem? l i) (run_lifecycle_exact clock db unique)
      ∙ get_elem?-map (after_run db.tables clock) i db.documents doc found
      ∙ ap some moved in
    let at' : home db.tables.knowledge_bases doc' ≡ some kb =
      home_same db.tables.knowledge_bases doc doc' (outcome_same_kb db.tables kb clock doc) ∙ at in
    never_archived clocks (run_lifecycle clock db).0 doc' kb i clock.now unique quiet found' at'
      live' recent' spaced.2
