-- ===== src/Workflow/Webhook/Access.antt =====
-- Which calls of a webhook are let in (app/workflow/webhook_service.py).
use text.Mathlib.Text.{◌==◌ as str_eq}
use text.Mathlib.TextEquality.{eq_iff}
use ops_knowledge.Prelude.{
  ℕ, ◌≡◌, ◌↔◌, refl, sym, ap, ◌∙◌, Bool, true, false, not, if◌then◌else◌, none, some, [], ◌∷◌, ◌++◌,
  arith, Bool-cases, inl, inr, length, drop,
}
use ops_knowledge.Prelude.Dict.{lookup, insert, lookup-insert}
use ops_knowledge.Prelude.Keyed.{Keyed, lookup as header}
use ops_knowledge.Prelude.Results.{Result, ok, err}
use ops_knowledge.Prelude.Texts.{
  Text, codes, text_eq, starts_with, remove_prefix, strip, text_eq_refl, text_eq→eq,
}
use ops_knowledge.Workflow.Webhook.{
  WebhookError, missing_bearer, bearer_mismatch, missing_signature, signature_mismatch,
  WebhookConfig, or_else, get_header, is_blocked, verify_bearer, verify_hmac, verify, renewed,
  regenerate, update_config, patched, Workflows,
}

-- What a caller shows, by the configured type of authentication.
pub data IsAuthentic (hexdigest : Text → Text → Text) (cfg : WebhookConfig) (headers : Keyed Text)
    (raw_body : Text) : Type 0 where
  unguarded : or_else cfg.auth_type "none" ≡ "none" → IsAuthentic hexdigest cfg headers raw_body
  bearer :
      or_else cfg.auth_type "none" ≡ "bearer"
      → starts_with (get_header "authorization" "Authorization" headers) (codes "Bearer ") ≡ true
      → strip (remove_prefix (get_header "authorization" "Authorization" headers) (codes "Bearer "))
        ≡ or_else cfg.secret []
      → IsAuthentic hexdigest cfg headers raw_body
  signed :
      or_else cfg.auth_type "none" ≡ "hmac"
      → starts_with (get_header "x-signature" "X-Signature" headers) (codes "sha256=") ≡ true
      → strip (remove_prefix (get_header "x-signature" "X-Signature" headers) (codes "sha256="))
        ≡ hexdigest (or_else cfg.secret []) (raw_body ++ or_else cfg.hook_id [])
      → IsAuthentic hexdigest cfg headers raw_body

-- Two guards that raise let through what meets both.
two_guards :
    (b : Bool) (s t : Text) (e f : WebhookError)
    → (◌≡◌ {A = Result WebhookError (Unit {0})}
        (if not b then err e else if not (text_eq s t) then err f else ok tt)
        (ok tt))
      ↔ ((b ≡ true) × (s ≡ t))
two_guards false s t e f = (λ h. absurd (ground arith), λ h. absurd (ground arith))
two_guards true s t e f = (
  λ h. elim (Bool-cases (text_eq s t)) [
    | inl same ↦ (refl, text_eq→eq s t same)
    | inr other ↦ absurd (ground arith)
  ],
  λ h. let same : text_eq s t ≡ true = rw h.1 (text_eq_refl t) in rw same refl,
)

verify_bearer_exact :
    (secret : Text) (headers : Keyed Text)
    → (verify_bearer secret headers ≡ ok tt) ↔ (
        (starts_with (get_header "authorization" "Authorization" headers) (codes "Bearer ") ≡ true)
        × (strip
              (remove_prefix (get_header "authorization" "Authorization" headers) (codes "Bearer "))
            ≡ secret))
unfolding verify_bearer
verify_bearer_exact secret headers =
    let auth = get_header "authorization" "Authorization" headers in
    two_guards (starts_with auth (codes "Bearer ")) (strip (remove_prefix auth (codes "Bearer ")))
      secret missing_bearer bearer_mismatch

verify_hmac_exact :
    (hexdigest : Text → Text → Text) (secret hook_id : Text) (headers : Keyed Text)
    (raw_body : Text)
    → (verify_hmac hexdigest secret hook_id headers raw_body ≡ ok tt) ↔ (
        (starts_with (get_header "x-signature" "X-Signature" headers) (codes "sha256=") ≡ true)
        × (strip (remove_prefix (get_header "x-signature" "X-Signature" headers) (codes "sha256="))
            ≡ hexdigest secret (raw_body ++ hook_id)))
unfolding verify_hmac
verify_hmac_exact hexdigest secret hook_id headers raw_body =
    let sig = get_header "x-signature" "X-Signature" headers in
    two_guards (starts_with sig (codes "sha256=")) (strip (remove_prefix sig (codes "sha256=")))
      (hexdigest secret (raw_body ++ hook_id)) missing_signature signature_mismatch

-- A call is let in exactly if its address is allowed (or none is listed) and the caller shows what
-- the type of authentication asks for: nothing, the secret as a bearer token, or the digest of the
-- body and the hook id under the secret. A type other than these three lets nobody in.
pub verify_exact :
    (hexdigest : Text → Text → Text) (cfg : WebhookConfig) (headers : Keyed Text)
    (raw_body client_ip : Text)
    → (verify hexdigest cfg headers raw_body client_ip ≡ ok tt) ↔ (
        (is_blocked (or_else cfg.allowed_ips []) client_ip ≡ false)
        × IsAuthentic hexdigest cfg headers raw_body)
unfolding verify
verify_exact hexdigest cfg headers raw_body client_ip =
    let type = or_else cfg.auth_type "none" in
    let secret = or_else cfg.secret [] in
    let hook_id = or_else cfg.hook_id [] in
    (
      λ h. elim (Bool-cases (is_blocked (or_else cfg.allowed_ips []) client_ip)) [
        | inl blocked ↦ absurd (ground arith)
        | inr allowed ↦ elim (Bool-cases (str_eq type "none")) [
          | inl is_none ↦ (allowed, unguarded ((eq_iff type "none").0 is_none))
          | inr not_none ↦ elim (Bool-cases (str_eq type "bearer")) [
            | inl is_bearer ↦
                let (has, same) =
                  (verify_bearer_exact secret headers).0 (rw (allowed, not_none, is_bearer) at h) in
                (allowed, bearer ((eq_iff type "bearer").0 is_bearer) has same)
            | inr not_bearer ↦ elim (Bool-cases (str_eq type "hmac")) [
              | inl is_hmac ↦
                  let (has, same) =
                    (verify_hmac_exact hexdigest secret hook_id headers raw_body).0
                      (rw (allowed, not_none, not_bearer, is_hmac) at h) in
                  (allowed, signed ((eq_iff type "hmac").0 is_hmac) has same)
              | inr not_hmac ↦ absurd (ground arith)
            ]
          ]
        ]
      ],
      λ h. admitted h.0 h.1,
    )
  where
    admitted :
        is_blocked (or_else cfg.allowed_ips []) client_ip ≡ false
        → IsAuthentic hexdigest cfg headers raw_body
        → verify hexdigest cfg headers raw_body client_ip ≡ ok tt
    admitted allowed (unguarded t) = rw (allowed, t) refl
    admitted allowed (bearer t has same) =
        rw (allowed, t) ((verify_bearer_exact (or_else cfg.secret []) headers).1 (has, same))
    admitted allowed (signed t has same) =
        rw (allowed, t)
          ((verify_hmac_exact hexdigest (or_else cfg.secret []) (or_else cfg.hook_id []) headers
              raw_body).1
            (has, same))

drop_prefix : (s t : Text) → drop (length s) (s ++ t) ≡ t
drop_prefix [] t = refl
drop_prefix (c ∷ s) t = drop_prefix s t

starts_prefix : (s t : Text) → starts_with (s ++ t) s ≡ true
unfolding starts_with
starts_prefix [] t = refl
starts_prefix (c ∷ s) t = ground (arith, starts_prefix s t)

remove-prefix : (s t : Text) → remove_prefix (s ++ t) s ≡ t
unfolding remove_prefix
remove-prefix s t = rw (starts_prefix s t) (drop_prefix s t)

-- After a webhook is renewed with signatures, a call from an allowed address that is signed by the
-- new secret over the body and the new hook id is let in, if the digest has no white space around
-- it.
pub verify-regenerate :
    (hexdigest : Text → Text → Text) (fresh_id token raw_body client_ip : Text) (wf_id : ℕ)
    (rows : Workflows) (old : WebhookConfig)
    → lookup wf_id rows ≡ some (some old)
    → is_blocked (or_else old.allowed_ips []) client_ip ≡ false
    → strip (hexdigest token (raw_body ++ fresh_id)) ≡ hexdigest token (raw_body ++ fresh_id)
    → (cfg : WebhookConfig) × (rows' : Workflows) × (regenerate fresh_id token wf_id "hmac" rows
        ≡ ok (cfg, rows'))
      × (lookup wf_id rows' ≡ some (some cfg))
      × (verify hexdigest cfg
            (("x-signature", codes "sha256=" ++ hexdigest token (raw_body ++ fresh_id)) ∷ [])
            raw_body
            client_ip
          ≡ ok tt)
unfolding regenerate header
verify-regenerate hexdigest fresh_id token raw_body client_ip wf_id rows old found allowed plain =
    let cfg : WebhookConfig = renewed fresh_id token "hmac" old in
    let digest = hexdigest token (raw_body ++ fresh_id) in
    let headers : Keyed Text = ("x-signature", codes "sha256=" ++ digest) ∷ [] in
    let shown : strip (remove_prefix (codes "sha256=" ++ digest) (codes "sha256=")) ≡ digest =
      ap strip (remove-prefix (codes "sha256=") digest) ∙ plain in
    (
      cfg,
      insert wf_id (some cfg) rows,
      rw (found, regenerate) refl,
      ground (arith, lookup-insert wf_id wf_id (some cfg) rows),
      (verify_exact hexdigest cfg headers raw_body client_ip).1
          (allowed, signed refl (starts_prefix (codes "sha256=") digest) shown),
    )

-- A webhook without a secret that is switched to bearer tokens lets in every caller whose address is
-- not excluded and whose token is white space only: here a no-break space.
pub blank_bearer_admitted :
    (hexdigest : Text → Text → Text) (raw_body client_ip : Text) (wf_id : ℕ) (rows : Workflows)
    (old : WebhookConfig)
    → lookup wf_id rows ≡ some (some old)
    → old.secret ≡ none
    → is_blocked (or_else old.allowed_ips []) client_ip ≡ false
    → (cfg : WebhookConfig) × (rows' : Workflows) × (update_config wf_id
          (record { auth_type = some "bearer"; allowed_ips = none })
          rows
        ≡ ok (cfg, rows'))
      × (lookup wf_id rows' ≡ some (some cfg))
      × (verify hexdigest cfg
            (("authorization", codes "Bearer " ++ 160 ∷ []) ∷ [])
            raw_body
            client_ip
          ≡ ok tt)
unfolding update_config starts_with remove_prefix strip header
blank_bearer_admitted hexdigest raw_body client_ip wf_id rows old found no_secret allowed =
    let cfg : WebhookConfig =
      patched (record { auth_type = some "bearer"; allowed_ips = none }) old in
    (
      cfg,
      insert wf_id (some cfg) rows,
      rw (found, update_config) refl,
      ground (arith, lookup-insert wf_id wf_id (some cfg) rows),
      (verify_exact hexdigest cfg (("authorization", codes "Bearer " ++ 160 ∷ []) ∷ []) raw_body
            client_ip).1
          (allowed, bearer refl refl (sym (ap (λ s. or_else s []) no_secret))),
    )
