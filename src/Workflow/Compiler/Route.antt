-- ===== src/Workflow/Compiler/Route.antt =====
-- Where a conditional node of app/workflow/langgraph/compiler.py leads: its route function beside
-- its path map.
use mathlib.Core.Bool.{false≢true}
use ops_knowledge.Prelude.{
  ◌≡◌, refl, ◌∙◌, ◌⊎◌, inl, inr, Bool, true, false, if◌then◌else◌, Option, none, some, List, [],
  ◌∷◌, ◌++◌, String, In, any, all, Bool-cases,
}
use ops_knowledge.Prelude.Queries.{any_row, any_of}
use ops_knowledge.Prelude.Keyed.{lookup}
use ops_knowledge.Workflow.Dsl.{EdgeDef}
use ops_knowledge.Workflow.Compiler.{Target, to, end, path_map, is_plain, has_handle, route}
use ops_knowledge.Workflow.Compiler.Paths.{
  is_ordinary, has_key, last_target, lookup-path_map, last_target-none, last_target-edge,
  handle_keyed, all_of, not_default, key_handle, no_end_key, plain_default, default_plain,
}

abbrev pub is_matched : List EdgeDef → Option String → Bool
is_matched es none = false
is_matched es (some b) = any (has_handle b) es

-- What the path map holds at the route function's answer.
abbrev pub chosen : List EdgeDef → Option String → Option Target
chosen es branch = lookup (route es branch) (path_map es)

module _ (es : List EdgeDef) (ordinary_all : all is_ordinary es ≡ true) where
  route_matched :
      (b : String)
      → any (has_handle b) es ≡ true
      → (e : EdgeDef) × In e es
        × (has_handle b e ≡ true)
        × (chosen es (some b) ≡ some (to e.target))
  unfolding route
  route_matched b h =
      let (f, i, fits) = any_row (has_handle b) es h in
      let f_ok = all_of is_ordinary f es ordinary_all i in
      let apart_default = not_default b f f_ok fits in
      let keyed = any_of (has_key b) f es i (handle_keyed b f f_ok fits) in
      let (e, j, key, last) = last_target-edge b es keyed in
      (
        e,
        j,
        key_handle b e (all_of is_ordinary e es ordinary_all j) apart_default key,
        rw h (lookup-path_map b es ∙ rw last),
      )

  fallback_plain :
      any is_plain es ≡ true
      → (e : EdgeDef) × In e es
        × (is_plain e ≡ true)
        × (lookup "_default" (path_map es) ≡ some (to e.target))
  fallback_plain h =
      let (f, i, plain) = any_row is_plain es h in
      let keyed = any_of (has_key "_default") f es i (plain_default f plain) in
      let (e, j, key, last) = last_target-edge "_default" es keyed in
      (
        e,
        j,
        default_plain e (all_of is_ordinary e es ordinary_all j) key,
        lookup-path_map "_default" es ∙ rw last,
      )

  fallback_end : lookup "_end" (path_map es) ≡ some end
  fallback_end =
      lookup-path_map "_end" es ∙ rw (last_target-none "_end" es (no_end_key es ordinary_all)) refl

  route_unmatched :
      (branch : Option String)
      → is_matched es branch ≡ false
      → route es branch ≡ (if any is_plain es then "_default" else "_end")
  unfolding route
  route_unmatched none h = refl
  route_unmatched (some b) h = rw h

-- Where no edge has an empty handle or one of the compiler's own keys, the route function's answer
-- is always in the path map. A branch that some edge names leads along an edge of that name; any
-- other branch, and no branch, lead along an edge without a handle if there is one, and else to END.
pub route_exact :
    (es : List EdgeDef) (branch : Option String)
    → all is_ordinary es ≡ true
    → ((b : String) × (e : EdgeDef) × (branch ≡ some b)
        × In e es
        × (has_handle b e ≡ true)
        × (chosen es branch ≡ some (to e.target)))
      ⊎ ((is_matched es branch ≡ false)
          × (((e : EdgeDef) × In e es
                × (is_plain e ≡ true)
                × (chosen es branch ≡ some (to e.target)))
              ⊎ ((any is_plain es ≡ false) × (chosen es branch ≡ some end))))
route_exact es branch ordinary_all = elim (Bool-cases (is_matched es branch)) [
  | inl y ↦ matched branch y
  | inr n ↦ inr (
    n,
    elim (Bool-cases (any is_plain es)) [
      | inl p ↦
          let (e, i, plain, leads) = fallback_plain es ordinary_all p in
          inl (e, i, plain, rw (route_unmatched es ordinary_all branch n) (rw p leads))
      | inr q ↦
          inr
            (q, rw (route_unmatched es ordinary_all branch n) (rw q (fallback_end es ordinary_all)))
    ],
  )
]
  where
    matched :
        (o : Option String)
        → is_matched es o ≡ true
        → ((b : String) × (e : EdgeDef) × (o ≡ some b)
            × In e es
            × (has_handle b e ≡ true)
            × (chosen es o ≡ some (to e.target)))
          ⊎ ((is_matched es o ≡ false)
              × (((e : EdgeDef) × In e es
                    × (is_plain e ≡ true)
                    × (chosen es o ≡ some (to e.target)))
                  ⊎ ((any is_plain es ≡ false) × (chosen es o ≡ some end))))
    matched none h = absurd (false≢true h)
    matched (some b) h =
        let (e, i, fits, leads) = route_matched es ordinary_all b h in
        inl (b, e, refl, i, fits, leads)

In-last : (es : List EdgeDef) (e : EdgeDef) → In e (es ++ e ∷ [])
In-last [] e = inl refl
In-last (f ∷ fs) e = inr (In-last fs e)

last_target-snoc :
    (k : String) (es : List EdgeDef) (e : EdgeDef)
    → has_key k e ≡ true
    → last_target k (es ++ e ∷ []) ≡ some (to e.target)
last_target-snoc k [] e h = rw h
last_target-snoc k (f ∷ fs) e h = rw (last_target-snoc k fs e h)

-- Of two edges with one handle the later decides: whatever edges stand before it, the handle leads
-- to its target, so that an earlier edge of the handle with another target is never followed.
pub last_edge_wins :
    (es : List EdgeDef) (e : EdgeDef) (b : String)
    → all is_ordinary (es ++ e ∷ []) ≡ true
    → has_handle b e ≡ true
    → chosen (es ++ e ∷ []) (some b) ≡ some (to e.target)
unfolding route
last_edge_wins es e b ordinary_all fits =
    let all_edges = es ++ e ∷ [] in
    let here = In-last es e in
    let keyed = handle_keyed b e (all_of is_ordinary e all_edges ordinary_all here) fits in
    rw (any_of (has_handle b) e all_edges here fits)
      (lookup-path_map b all_edges ∙ rw (last_target-snoc b es e keyed))
