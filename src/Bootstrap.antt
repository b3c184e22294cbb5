-- ===== src/Bootstrap.antt =====
-- internal/controller/bootstrap.go: at startup each output ConfigMap is created empty if it does not
-- exist, and the hash of what it holds is remembered.
use mathlib.Core.Option
use runtime_overrides_operat.Prelude.{Str, bytes, Bool, false, List, [], ◌∷◌, lookup, if◌then◌else◌}
use runtime_overrides_operat.Api.{NamespacedName}
use runtime_overrides_operat.Drift.{set_hash}
use runtime_overrides_operat.Platform.{Platform, Error, ok, err, wrap}
use runtime_overrides_operat.Proc.{
  Proc, pure, fail, of_result, on_error, call, returns, ◌>>=◌, ◌>>◌,
}
use runtime_overrides_operat.Format.{concat}
use runtime_overrides_operat.Render.{render, data_key}
use runtime_overrides_operat.Apply.{apply_config_map, print_name, is_not_found}
use runtime_overrides_operat.Reconciler.Output.{or_empty_text}

pub record BootstrapTarget : Type 0 where
  pub name : Str
  pub output_cm : NamespacedName

abbrev pub need_leader_election : Bool
need_leader_election = false

module _ (w : Platform) where
  open w use {Cluster, get_config_map, sha256_hex}

  abbrev pub cache_hash : Str → Str → Proc Cluster Unit
  cache_hash target hash s =
      (returns tt, record s { hashes = Option.map (λ h. set_hash h target hash) s.hashes })

  abbrev failing : Str → Str → Error → Proc Cluster Unit
  failing what target e = fail (wrap (concat (what ∷ target ∷ [])) e)

  -- The ConfigMap is not there: it is written with no tenant.
  unfoldable pub create_output : BootstrapTarget → Proc Cluster Unit
  unfolding apply_config_map render on_error
  create_output t = do
    body ←
        on_error (of_result (render w []))
          (λ e. fail (wrap (concat (bytes "bootstrap render for " ∷ t.name ∷ [])) e))
    res ←
        on_error (apply_config_map w t.output_cm body)
          (λ e. fail (wrap (concat (bytes "bootstrap apply for " ∷ t.name ∷ [])) e))
    cache_hash t.name res.hash

  unfoldable pub bootstrap_target : BootstrapTarget → Proc Cluster Unit
  unfolding create_output
  bootstrap_target t = do
    got ← call (get_config_map t.output_cm)
    elim got [
      | ok live ↦ cache_hash t.name (sha256_hex (or_empty_text (lookup data_key live.contents)))
      | err e ↦
          if is_not_found e
          then create_output t
          else fail (
              wrap
                (concat
                  (bytes "bootstrap get " ∷ print_name t.output_cm ∷ bytes " for " ∷ t.name ∷ []))
                e)
    ]

  -- `Start`: the first error ends the loop.
  unfoldable pub start : List BootstrapTarget → Proc Cluster Unit
  unfolding bootstrap_target
  start [] = pure tt
  start (t ∷ ts) = do bootstrap_target t; start ts
