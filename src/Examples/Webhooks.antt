-- ===== src/Examples/Webhooks.antt =====
-- Tests and instances for app/workflow/webhook_service.py.
use ops_knowledge.Prelude.{◌≡◌, ◌↔◌, refl, false, none, some, [], ◌∷◌, ◌++◌}
use ops_knowledge.Prelude.Dict.{lookup}
use ops_knowledge.Prelude.Keyed.{lookup as header}
use ops_knowledge.Prelude.Results.{ok, err}
use ops_knowledge.Prelude.Texts.{Text, codes, text_eq, starts_with, remove_prefix, strip}
use ops_knowledge.Workflow.Webhook.{
  WebhookConfig, Workflows, ip_not_allowed, bearer_mismatch, find_by_hook_id, is_blocked,
  update_config, verify, verify_bearer,
}
use ops_knowledge.Workflow.Webhook.Access.{IsAuthentic, verify_exact, blank_bearer_admitted}

-- A stand-in for the digest: the key, a dot and the message.
abbrev hexdigest : Text → Text → Text
hexdigest key message = key ++ codes "." ++ message

abbrev guarded : WebhookConfig
guarded = record {
  hook_id = some (codes "h");
  auth_type = some "bearer";
  secret = some (codes "s3");
  allowed_ips = some (codes "10.0.0.1" ∷ []);
}

abbrev unguarded : WebhookConfig
unguarded = record {
  hook_id = some (codes "u");
  auth_type = some "none";
  secret = none;
  allowed_ips = none;
}

abbrev rows : Workflows
rows = (4, none) ∷ (5, some unguarded) ∷ (6, some guarded) ∷ []

hook_found : find_by_hook_id (codes "h") rows ≡ some 6
unfolding find_by_hook_id text_eq
hook_found = refl

stranger_refused :
    verify hexdigest guarded (("Authorization", codes "Bearer s3") ∷ []) [] (codes "10.0.0.2")
    ≡ err ip_not_allowed
unfolding verify text_eq
stranger_refused = refl

wrong_token_refused :
    verify hexdigest guarded (("Authorization", codes "Bearer s4") ∷ []) [] (codes "10.0.0.1")
    ≡ err bearer_mismatch
unfolding verify verify_bearer text_eq header starts_with remove_prefix strip
wrong_token_refused = refl

verify_exact_example :
    (verify hexdigest guarded (("Authorization", codes "Bearer s3") ∷ []) [] (codes "10.0.0.1")
      ≡ ok tt)
    ↔ ((is_blocked (codes "10.0.0.1" ∷ []) (codes "10.0.0.1") ≡ false)
        × IsAuthentic hexdigest guarded (("Authorization", codes "Bearer s3") ∷ []) [])
verify_exact_example =
    verify_exact hexdigest guarded (("Authorization", codes "Bearer s3") ∷ []) [] (codes "10.0.0.1")

plain_digest :
    strip (hexdigest (codes "t") (codes "{}" ++ codes "n"))
    ≡ hexdigest (codes "t") (codes "{}" ++ codes "n")
unfolding strip
plain_digest = refl

blank_bearer_admitted_example :
    (cfg : WebhookConfig) × (rows' : Workflows) × (update_config 5
        (record { auth_type = some "bearer"; allowed_ips = none })
        rows
      ≡ ok (cfg, rows'))
    × (lookup 5 rows' ≡ some (some cfg))
    × (verify hexdigest cfg
          (("authorization", codes "Bearer " ++ 160 ∷ []) ∷ [])
          (codes "{}")
          (codes "10.0.0.9")
        ≡ ok tt)
blank_bearer_admitted_example =
    blank_bearer_admitted hexdigest (codes "{}") (codes "10.0.0.9") 5 rows unguarded refl refl refl
