-- ===== src/Knowledge/Lifecycle/Documents.antt =====
-- What one run of the sweep does to every document (app/knowledge/lifecycle/tasks.py).
use ops_knowledge.Prelude.{
  ◌+◌, ◌≡◌, refl, sym, ap, ◌∙◌, Bool, true, false, ◌&&◌, ◌||◌, ◌==◌, if◌then◌else◌, Option, none,
  some, List, [], ◌∷◌, map, arith, inl, inr, Bool-cases, mem, IsUnique,
}
use ops_knowledge.Knowledge.Lifecycle.{
  SourceType, file, entry, unregistered, KnowledgeBase, Document, KnowledgeEntry, Tables, Db, Clock,
  Progress, expiration_days, idle_days, is_before, is_heat_cliff, is_idle, compute_doc_hit_windows,
  sweep_doc, is_swept, sweep_docs, sweep_source, sweep_kb, sweep_kbs, run_lifecycle,
}

abbrev pub should_be_stale : Tables → KnowledgeBase → Clock → Document → Bool
should_be_stale tables kb clock doc =
    is_before doc.updated_at clock (expiration_days kb)
    || is_heat_cliff (compute_doc_hit_windows tables clock kb.id doc.id)

-- A document by what it was: a stale one is archived, kept or cleared, another one marked or kept.
abbrev pub outcome : Tables → KnowledgeBase → Clock → Document → Document
outcome tables kb clock doc =
    if doc.is_stale
    then (if should_be_stale tables kb clock doc
        then (if is_idle doc clock (idle_days kb)
            then record doc { is_archived = true; updated_at = clock.transaction }
            else doc)
        else record doc { is_stale = false; stale_since = none; updated_at = clock.transaction })
    else (if should_be_stale tables kb clock doc
        then record doc {
          is_stale = true;
          stale_since = some clock.now;
          updated_at = clock.transaction;
        }
        else doc)

sweep_doc-outcome :
    (tables : Tables) (kb : KnowledgeBase) (clock : Clock) (doc : Document) (p : Progress)
    → (sweep_doc tables kb clock doc p).0 ≡ outcome tables kb clock doc
unfolding sweep_doc
sweep_doc-outcome tables kb clock doc p = elim (Bool-cases doc.is_stale) [
  | inl stale ↦ elim (Bool-cases (should_be_stale tables kb clock doc)) [
    | inl should ↦ elim (Bool-cases (is_idle doc clock (idle_days kb))) [
      | inl idle ↦ simp (stale, should, idle) refl
      | inr busy ↦ simp (stale, should, busy) refl
    ]
    | inr fresh ↦ simp (stale, fresh) refl
  ]
  | inr unmarked ↦ elim (Bool-cases (should_be_stale tables kb clock doc)) [
    | inl should ↦ simp (unmarked, should) refl
    | inr fresh ↦ simp (unmarked, fresh) refl
  ]
]

abbrev swept : Tables → Clock → KnowledgeBase → Document → Document
swept tables clock kb doc = if is_swept kb doc then outcome tables kb clock doc else doc

sweep_docs-swept :
    (tables : Tables) (kb : KnowledgeBase) (clock : Clock) (docs : List Document) (p : Progress)
    → (sweep_docs tables kb clock docs p).0 ≡ map (swept tables clock kb) docs
unfolding sweep_docs
sweep_docs-swept tables kb clock [] p = refl
sweep_docs-swept tables kb clock (doc ∷ docs) p = elim (Bool-cases (is_swept kb doc)) [
  | inl yes_ ↦
      simp (yes_, sweep_doc-outcome tables kb clock doc p, sweep_docs-swept tables kb clock docs)
        refl
  | inr not_ ↦ simp (not_, sweep_docs-swept tables kb clock docs) refl
]

abbrev is_file : SourceType → Bool
is_file file = true
is_file t = false

abbrev reached : Tables → Clock → KnowledgeBase → Document → Document
reached tables clock kb doc =
    if kb.is_active && is_file kb.source_type then swept tables clock kb doc else doc

map_self : (docs : List Document) → map (λ d. d) docs ≡ docs
map_self [] = refl
map_self (d ∷ docs) = ap (λ l. d ∷ l) (map_self docs)

map-map :
    (f g : Document → Document) (docs : List Document)
    → map g (map f docs) ≡ map (λ d. g (f d)) docs
map-map f g [] = refl
map-map f g (d ∷ docs) = ap (λ l. g (f d) ∷ l) (map-map f g docs)

map-ext :
    (f g : Document → Document)
    → ((d : Document) → f d ≡ g d)
    → (docs : List Document) → map f docs ≡ map g docs
map-ext f g h [] = refl
map-ext f g h (d ∷ docs) = rw (h d, map-ext f g h docs) refl

sweep_source-swept :
    (t : SourceType) (tables : Tables) (clock : Clock) (kb : KnowledgeBase) (docs : List Document)
    (entries : List KnowledgeEntry) (p : Progress)
    → (sweep_source t tables clock kb (docs, entries, p)).0
      ≡ map (λ d. if is_file t then swept tables clock kb d else d) docs
sweep_source-swept unregistered tables clock kb docs entries p = sym (map_self docs)
sweep_source-swept entry tables clock kb docs entries p = sym (map_self docs)
sweep_source-swept file tables clock kb docs entries p = sweep_docs-swept tables kb clock docs p

passed : Tables → Clock → List KnowledgeBase → Document → Document
passed tables clock [] doc = doc
passed tables clock (kb ∷ kbs) doc = passed tables clock kbs (reached tables clock kb doc)

sweep_kbs-passed :
    (tables : Tables) (clock : Clock) (kbs : List KnowledgeBase) (docs : List Document)
    (entries : List KnowledgeEntry) (p : Progress)
    → (sweep_kbs tables clock kbs (docs, entries, p)).0 ≡ map (passed tables clock kbs) docs
unfolding sweep_kbs sweep_kb passed
sweep_kbs-passed tables clock [] docs entries p = sym (map_self docs)
sweep_kbs-passed tables clock (kb ∷ kbs) docs entries p = elim (Bool-cases kb.is_active) [
  | inl on ↦
      let counted : Progress = record p { stats = record p.stats { kbs = p.stats.kbs + 1 } } in
      let (docs', entries', p') =
        sweep_source kb.source_type tables clock kb (docs, entries, counted) in
      simp on (
        sweep_kbs-passed tables clock kbs docs' entries' p'
        ∙ ap (map (passed tables clock kbs))
            (sweep_source-swept kb.source_type tables clock kb docs entries counted)
        ∙ map-map (λ d. if is_file kb.source_type then swept tables clock kb d else d)
            (passed tables clock kbs) docs
        ∙ map-ext _ (passed tables clock (kb ∷ kbs))
            (λ d. ap (passed tables clock kbs) (
              sym
                (ap (λ b. if b && is_file kb.source_type then swept tables clock kb d else d) on)))
            docs)
  | inr off ↦ simp off (
      sweep_kbs-passed tables clock kbs docs entries p
      ∙ map-ext _ (passed tables clock (kb ∷ kbs))
          (λ d. ap (passed tables clock kbs) (
            sym (ap (λ b. if b && is_file kb.source_type then swept tables clock kb d else d) off)))
          docs)
]

-- The knowledge base of a document, if it is one that the sweep reads.
abbrev pub home : List KnowledgeBase → Document → Option KnowledgeBase
home [] doc = none
home (kb ∷ kbs) doc =
    let rest = home kbs doc in
    if kb.is_active && is_file kb.source_type && (doc.knowledge_base_id == kb.id)
    then some kb
    else rest

abbrev pub at_home : Tables → Clock → Option KnowledgeBase → Document → Document
at_home tables clock none doc = doc
at_home tables clock (some kb) doc = outcome tables kb clock doc

abbrev pub after_run : Tables → Clock → Document → Document
after_run tables clock doc =
    if doc.is_archived then doc else at_home tables clock (home tables.knowledge_bases doc) doc

pub outcome_same_kb :
    (tables : Tables) (kb : KnowledgeBase) (clock : Clock) (doc : Document)
    → (outcome tables kb clock doc).knowledge_base_id ≡ doc.knowledge_base_id
outcome_same_kb tables kb clock doc = ground arith

-- A document is left alone by the knowledge bases that it is not in.
passed_elsewhere :
    (tables : Tables) (clock : Clock) (kbs : List KnowledgeBase) (doc : Document)
    → mem doc.knowledge_base_id (map (λ kb. kb.id) kbs) ≡ false
    → (passed tables clock kbs doc ≡ doc) × (home kbs doc ≡ none)
unfolding passed
passed_elsewhere tables clock [] doc h = (refl, refl)
passed_elsewhere tables clock (kb ∷ kbs) doc h =
    let other : (doc.knowledge_base_id == kb.id) ≡ false = ground arith in
    let later : mem doc.knowledge_base_id (map (λ kb. kb.id) kbs) ≡ false = ground arith in
    let (same, nowhere) = passed_elsewhere tables clock kbs doc later in
    let stays : reached tables clock kb doc ≡ doc = ground arith in (rw stays same, ground arith)

passed-after :
    (tables : Tables) (clock : Clock) (kbs : List KnowledgeBase) (doc : Document)
    → IsUnique (map (λ kb. kb.id) kbs)
    → passed tables clock kbs doc
      ≡ (if doc.is_archived then doc else at_home tables clock (home kbs doc) doc)
unfolding passed
passed-after tables clock [] doc unique = ground arith
passed-after tables clock (kb ∷ kbs) doc unique =
    elim (Bool-cases (doc.knowledge_base_id == kb.id)) [
      | inr other ↦
          let stays : reached tables clock kb doc ≡ doc = ground arith in
          let skipped : home (kb ∷ kbs) doc ≡ home kbs doc = ground arith in
          rw (stays, skipped) (passed-after tables clock kbs doc unique.1)
      | inl same ↦
          let id : doc.knowledge_base_id ≡ kb.id = ground arith in
          let once : mem doc.knowledge_base_id (map (λ kb. kb.id) kbs) ≡ false = rw id unique.0 in
          let (alone, nowhere) = passed_elsewhere tables clock kbs doc once in
          elim (Bool-cases (kb.is_active && is_file kb.source_type)) [
            | inr off ↦
                let stays : reached tables clock kb doc ≡ doc = ground arith in
                let skipped : home (kb ∷ kbs) doc ≡ home kbs doc = ground arith in
                rw (stays, skipped, nowhere, alone) (ground arith)
            | inl on ↦
                let here : home (kb ∷ kbs) doc ≡ some kb = ground arith in
                elim (Bool-cases doc.is_archived) [
                  | inl archived ↦
                      let stays : reached tables clock kb doc ≡ doc = ground arith in
                      rw (stays, alone, archived) refl
                  | inr live ↦
                      let moves : reached tables clock kb doc ≡ outcome tables kb clock doc =
                        ground arith in
                      ap (passed tables clock kbs) moves
                      ∙ (passed_elsewhere tables clock kbs (outcome tables kb clock doc)
                          (rw (outcome_same_kb tables kb clock doc) once)).0
                      ∙ sym (
                          ap
                            (λ b. if b then doc else at_home tables clock (home (kb ∷ kbs) doc) doc)
                            live
                          ∙ ap (λ o. at_home tables clock o doc) here)
                ]
          ]
    ]

-- A run changes every document by itself. An archived one is left alone, and so is one whose
-- knowledge base is not an active one of files. Of the others, one that should be stale (not updated
-- for the days of its knowledge base, or with a fall of its hits) is marked; a marked one that should
-- be stale no more is cleared; and a marked one that should still be stale is archived when it was
-- marked longer ago than the idle days.
pub run_lifecycle_exact :
    (clock : Clock) (db : Db)
    → IsUnique (map (λ kb. kb.id) db.tables.knowledge_bases)
    → (run_lifecycle clock db).0.documents ≡ map (after_run db.tables clock) db.documents
unfolding run_lifecycle
run_lifecycle_exact clock db unique =
    sweep_kbs-passed db.tables clock db.tables.knowledge_bases db.documents db.entries _
    ∙ map-ext _ _ (λ d. passed-after db.tables clock db.tables.knowledge_bases d unique)
        db.documents
