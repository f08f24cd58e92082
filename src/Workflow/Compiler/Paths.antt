-- ===== src/Workflow/Compiler/Paths.antt =====
-- What a path map of app/workflow/langgraph/compiler.py holds for a key.
use text.Mathlib.Text.{◌==◌ as str_eq}
use text.Mathlib.TextEquality.{eq_iff}
use mathlib.Core.Bool.{false≢true}
use ops_knowledge.Prelude.{
  ◌≡◌, refl, sym, ◌∙◌, ap, subst, inl, inr, Bool, true, false, not, ◌&&◌, if◌then◌else◌, Option,
  none, some, List, [], ◌∷◌, arith, String, In, any, all, Bool-cases,
}
use ops_knowledge.Prelude.Keyed.{Keyed, lookup, insert, lookup-insert, lookup-set_default}
use ops_knowledge.Workflow.Dsl.{EdgeDef}
use ops_knowledge.Workflow.Compiler.{
  Target, to, end, handle_key, map_handles, path_map, is_plain, has_handle,
}

-- No handle is empty or spelled like the compiler's own keys.
abbrev pub is_ordinary : EdgeDef → Bool
is_ordinary e = elim e.source_handle [
  | none ↦ true
  | some h ↦ not (str_eq h "") && (not (str_eq h "_default") && not (str_eq h "_end"))
]

abbrev pub has_key : String → EdgeDef → Bool
has_key k e = str_eq k (handle_key e.source_handle)

-- The last edge with a key decides where it leads.
abbrev pub last_target : String → List EdgeDef → Option Target
last_target k [] = none
last_target k (e ∷ es) = elim (last_target k es) [
  | some t ↦ some t
  | none ↦ if has_key k e then some (to e.target) else none
]

abbrev pub or_first : Option Target → Option Target → Option Target
or_first none b = b
or_first (some t) b = some t

pub lookup-map_handles :
    (k : String) (m : Keyed Target) (es : List EdgeDef)
    → lookup k (map_handles m es) ≡ or_first (last_target k es) (lookup k m)
unfolding map_handles
lookup-map_handles k m [] = refl
lookup-map_handles k m (e ∷ es) =
    lookup-map_handles k (insert (handle_key e.source_handle) (to e.target) m) es
    ∙ ap (or_first (last_target k es))
        (lookup-insert (handle_key e.source_handle) k (to e.target) m)
    ∙ ground arith

pub lookup-path_map :
    (k : String) (es : List EdgeDef)
    → lookup k (path_map es)
      ≡ or_first (last_target k es) (if str_eq k "_end" then some end else none)
unfolding path_map lookup
lookup-path_map k es =
    lookup-set_default "_end" k end (map_handles [] es)
    ∙ rw (lookup-map_handles k [] es) (ground arith)

pub last_target-none :
    (k : String) (es : List EdgeDef) → any (has_key k) es ≡ false → last_target k es ≡ none
last_target-none k [] h = refl
last_target-none k (e ∷ es) h = ground (arith, last_target-none k es)

-- A key of some edge leads along one of the edges with that key.
pub last_target-edge :
    (k : String) (es : List EdgeDef)
    → any (has_key k) es ≡ true
    → (e : EdgeDef) × In e es × (has_key k e ≡ true) × (last_target k es ≡ some (to e.target))
last_target-edge k [] h = absurd (false≢true h)
last_target-edge k (e ∷ es) h = elim (Bool-cases (any (has_key k) es)) [
  | inl later ↦ let (f, i, q, t) = last_target-edge k es later in (f, inr i, q, ground arith)
  | inr last ↦
      let here : has_key k e ≡ true = ground arith in
      (e, inl refl, here, ground (arith, last_target-none k es last))
]

pub handle_keyed :
    (b : String) (e : EdgeDef) → is_ordinary e ≡ true → has_handle b e ≡ true → has_key b e ≡ true
handle_keyed b e o h = ground arith

pub all_of :
    (p : EdgeDef → Bool) (e : EdgeDef) (es : List EdgeDef) → all p es ≡ true → In e es → p e ≡ true
all_of p e [] h i = absurd i
all_of p e (f ∷ fs) h (inl q) = rw q (ground arith)
all_of p e (f ∷ fs) h (inr i) = all_of p e fs (ground arith) i

-- A handle of an ordinary edge is not the compiler's default key.
pub not_default :
    (b : String) (e : EdgeDef)
    → is_ordinary e ≡ true
    → has_handle b e ≡ true
    → str_eq b "_default" ≡ false
not_default b e o h = go e.source_handle o h
  where
    go :
        (s : Option String)
        → (elim s [
          | none ↦ true
          | some h ↦ not (str_eq h "") && (not (str_eq h "_default") && not (str_eq h "_end"))
        ])
          ≡ true
        → (elim s [ none ↦ false | some g ↦ str_eq b g ]) ≡ true
        → str_eq b "_default" ≡ false
    go none o h = absurd (false≢true h)
    go (some g) o h = let same : b ≡ g = (eq_iff b g).0 h in rw same (ground arith)

pub key_handle :
    (b : String) (e : EdgeDef)
    → is_ordinary e ≡ true
    → str_eq b "_default" ≡ false
    → has_key b e ≡ true
    → has_handle b e ≡ true
key_handle b e o n h = ground arith

abbrev pub ordinary : Option String → Bool
ordinary none = true
ordinary (some h) = not (str_eq h "") && (not (str_eq h "_default") && not (str_eq h "_end"))

pub apart : (a b : String) → str_eq b a ≡ false → str_eq a b ≡ false
apart a b h = ground (arith, eq_iff a b, eq_iff b a)

pub default_key :
    (s : Option String) → ordinary s ≡ true → str_eq "_default" (handle_key s) ≡ true → s ≡ none
default_key none o h = refl
default_key (some g) o h = elim (Bool-cases (str_eq g "_default")) [
  | inl y ↦ absurd (ground arith)
  | inr n ↦ absurd (ground (arith, apart "_default" g n))
]

pub end_key : (s : Option String) → ordinary s ≡ true → str_eq "_end" (handle_key s) ≡ false
end_key none o = refl
end_key (some g) o = elim (Bool-cases (str_eq g "_end")) [
  | inl y ↦ absurd (ground arith)
  | inr n ↦ ground (arith, apart "_end" g n)
]

pub is_ordinary-ordinary : (e : EdgeDef) → is_ordinary e ≡ true → ordinary e.source_handle ≡ true
is_ordinary-ordinary e h = ground arith

pub no_end_key : (es : List EdgeDef) → all is_ordinary es ≡ true → any (has_key "_end") es ≡ false
no_end_key [] h = refl
no_end_key (e ∷ es) h =
    ground (arith, end_key e.source_handle (is_ordinary-ordinary e (ground arith)), no_end_key es)

pub plain_default : (e : EdgeDef) → is_plain e ≡ true → has_key "_default" e ≡ true
plain_default e h =
    let bare : e.source_handle ≡ none = ground arith in
    subst (λ s. str_eq "_default" (handle_key s) ≡ true) (sym bare) refl

pub default_plain :
    (e : EdgeDef) → is_ordinary e ≡ true → has_key "_default" e ≡ true → is_plain e ≡ true
default_plain e o h =
    let none_there : e.source_handle ≡ none =
      default_key e.source_handle (is_ordinary-ordinary e o) h in
    ground arith
