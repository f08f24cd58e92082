-- ===== src/Workflow/Webhook.antt =====
-- Webhooks of a workflow: `WebhookService` of app/workflow/webhook_service.py. The keyed digest
-- `hmac.new(key, message, sha256).hexdigest()` is an argument, and so are the random values of
-- `regenerate`. Bodies, tokens and addresses are texts;
-- that `compare_digest` raises on texts outside ASCII is left out.
pub mod Access
use text.Mathlib.Text.{◌==◌ as str_eq}
use ops_knowledge.Prelude.{
  ℕ, Bool, true, false, not, ◌||◌, ◌==◌, if◌then◌else◌, Option, none, some, List, [], ◌∷◌, ◌++◌,
  String, any,
}
use ops_knowledge.Prelude.Dict.{Dict, lookup, insert}
use ops_knowledge.Prelude.Keyed.{Keyed, lookup as header}
use ops_knowledge.Prelude.Results.{Result, ok, err}
use ops_knowledge.Prelude.Texts.{Text, codes, text_eq, starts_with, remove_prefix, strip}

-- The JSON object, a field for each key that the code reads or writes.
pub record WebhookConfig : Type 0 where
  pub hook_id : Option Text
  pub auth_type : Option String
  pub secret : Option Text
  pub allowed_ips : Option (List Text)

abbrev pub empty_config : WebhookConfig
empty_config = record { hook_id = none; auth_type = none; secret = none; allowed_ips = none }

-- The rows of the table, by id: `webhook_config` of each workflow.
abbrev pub Workflows : Type 0
Workflows = Dict (Option WebhookConfig)

pub data WebhookError : Type 0 where
  not_configured : ℕ → WebhookError
  ip_not_allowed : WebhookError
  missing_bearer : WebhookError
  bearer_mismatch : WebhookError
  missing_signature : WebhookError
  signature_mismatch : WebhookError
  unknown_auth_type : String → WebhookError

abbrev pub or_else {ℓ} : {A : Type ℓ} → Option A → A → A
or_else none d = d
or_else (some a) d = a

abbrev pub has_hook : Text → Option WebhookConfig → Bool
has_hook hook_id none = false
has_hook hook_id (some cfg) = elim cfg.hook_id [ none ↦ false | some h ↦ text_eq h hook_id ]

unfoldable pub find_by_hook_id : Text → Workflows → Option ℕ
find_by_hook_id hook_id [] = none
find_by_hook_id hook_id ((k, cfg) ∷ rows) =
    let rest = find_by_hook_id hook_id rows in if has_hook hook_id cfg then some k else rest

abbrev pub renewed : Text → Text → String → WebhookConfig → WebhookConfig
renewed fresh_id token auth_type cfg = record {
  hook_id = some fresh_id;
  auth_type = some auth_type;
  secret = if str_eq auth_type "bearer" || str_eq auth_type "hmac" then some token else none;
  allowed_ips = cfg.allowed_ips;
}

-- `fresh_id` is the new uuid in hexadecimal, `token` the new url-safe token.
unfoldable pub regenerate :
    Text → Text → ℕ → String → Workflows → Result WebhookError (WebhookConfig × Workflows)
regenerate fresh_id token wf_id auth_type rows = elim (lookup wf_id rows) [
  | none ↦ err (not_configured wf_id)
  | some old ↦
      let cfg : WebhookConfig = renewed fresh_id token auth_type (or_else old empty_config) in
      ok (cfg, insert wf_id (some cfg) rows)
]

-- The keys that a patch may carry.
pub record Patch : Type 0 where
  pub auth_type : Option String
  pub allowed_ips : Option (List Text)

abbrev pub first_given {ℓ} : {A : Type ℓ} → Option A → Option A → Option A
first_given none b = b
first_given (some a) b = some a

abbrev pub patched : Patch → WebhookConfig → WebhookConfig
patched patch cfg = record cfg {
  auth_type = first_given patch.auth_type cfg.auth_type;
  allowed_ips = first_given patch.allowed_ips cfg.allowed_ips;
}

unfoldable pub update_config :
    ℕ → Patch → Workflows → Result WebhookError (WebhookConfig × Workflows)
update_config wf_id patch rows = elim (lookup wf_id rows) [
  | none ↦ err (not_configured wf_id)
  | some old ↦
      let cfg : WebhookConfig = patched patch (or_else old empty_config) in
      ok (cfg, insert wf_id (some cfg) rows)
]

unfoldable pub delete : ℕ → Workflows → Result WebhookError Workflows
delete wf_id rows = elim (lookup wf_id rows) [
  | none ↦ err (not_configured wf_id)
  | some old ↦ ok (insert wf_id none rows)
]

-- headers.get(low, "") or headers.get(high, "")
abbrev pub get_header : String → String → Keyed Text → Text
get_header low high headers = elim (or_else (header low headers) []) [
  | [] ↦ or_else (header high headers) []
  | c ∷ t ↦ c ∷ t
]

-- `allowed and client_ip not in allowed`
abbrev pub is_blocked : List Text → Text → Bool
is_blocked [] client_ip = false
is_blocked (a ∷ allowed) client_ip = not (any (text_eq client_ip) (a ∷ allowed))

unfoldable pub verify_bearer : Text → Keyed Text → Result WebhookError (Unit {0})
verify_bearer secret headers =
    let auth = get_header "authorization" "Authorization" headers in
    if not (starts_with auth (codes "Bearer "))
    then err missing_bearer
    else if not (text_eq (strip (remove_prefix auth (codes "Bearer "))) secret)
    then err bearer_mismatch
    else ok tt

-- The signed message is the body followed by the hook id.
unfoldable pub verify_hmac :
    (Text → Text → Text) → Text → Text → Keyed Text → Text → Result WebhookError (Unit {0})
verify_hmac hexdigest secret hook_id headers raw_body =
    let sig = get_header "x-signature" "X-Signature" headers in
    if not (starts_with sig (codes "sha256="))
    then err missing_signature
    else if not (
        text_eq (strip (remove_prefix sig (codes "sha256=")))
          (hexdigest secret (raw_body ++ hook_id)))
    then err signature_mismatch
    else ok tt

unfoldable pub verify :
    (Text → Text → Text) → WebhookConfig → Keyed Text → Text → Text → Result WebhookError (Unit {0})
verify hexdigest cfg headers raw_body client_ip =
    let auth_type = or_else cfg.auth_type "none" in
    let secret = or_else cfg.secret [] in
    if is_blocked (or_else cfg.allowed_ips []) client_ip
    then err ip_not_allowed
    else if str_eq auth_type "none"
    then ok tt
    else if str_eq auth_type "bearer"
    then verify_bearer secret headers
    else if str_eq auth_type "hmac"
    then verify_hmac hexdigest secret (or_else cfg.hook_id []) headers raw_body
    else err (unknown_auth_type auth_type)
