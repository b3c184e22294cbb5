-- ===== src/Webhook/Routes.antt =====
-- The routes of the webhook server (`Setup...WebhookWithManager` of internal/webhook/v1alpha1 and the
-- middleware of internal/webhook). The library calls the method for the operation of a request.
use runtime_overrides_operat.Prelude.{Str, bytes, Option, none, some, [], ◌∷◌, ◌++◌, Dict, lookup}
use runtime_overrides_operat.Value.{Fields}
use runtime_overrides_operat.Platform.{Platform, Error, Target, loki, mimir}
use runtime_overrides_operat.Webhook.{
  RuntimeObject, validate_create, validate_update, validate_delete, with_source_code_header,
}

pub data Operation : Type 0 where
  create : RuntimeObject → Operation
  update : RuntimeObject → RuntimeObject → Operation
  delete : RuntimeObject → Operation

abbrev pub loki_validate_path : Str
loki_validate_path = bytes "/validate-runtimeoverrides-io-v1alpha1-lokitenantoverride"

abbrev pub mimir_validate_path : Str
mimir_validate_path = bytes "/validate-runtimeoverrides-io-v1alpha1-mimirtenantoverride"

-- The answer to a request: the response headers and the error of the check.
abbrev pub Answer : Type 0
Answer = Dict Str × Option Error

abbrev pub Handler : Type 0
Handler = Dict Str → Operation → Answer

module _ (w : Platform) (validator : Target → Fields → Option Error) where
  -- The methods of `CustomValidator` of a kind.
  abbrev pub admit : Target → Operation → Option Error
  admit t (create obj) = validate_create w t (some (validator t)) obj
  admit t (update old_obj new_obj) = validate_update w t (some (validator t)) old_obj new_obj
  admit t (delete obj) = validate_delete obj

  abbrev pub admission_handler : Target → Handler
  admission_handler t headers op = (headers, admit t op)

  -- `Register` of the server adds a route.
  unfoldable pub setup_webhook_with_manager : Dict Handler → Dict Handler
  setup_webhook_with_manager routes =
      routes ++ ((loki_validate_path, with_source_code_header (admission_handler loki)) ∷ [])

  unfoldable pub setup_mimir_webhook_with_manager : Dict Handler → Dict Handler
  setup_mimir_webhook_with_manager routes =
      routes ++ ((mimir_validate_path, with_source_code_header (admission_handler mimir)) ∷ [])

  unfoldable pub serve : Dict Handler → Str → Operation → Option Answer
  serve routes path op = elim (lookup path routes) [
    | none ↦ none
    | some handler ↦ some (handler [] op)
  ]
