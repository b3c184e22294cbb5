-- ===== src/Reconciler/OutputWrite.antt =====
-- The rendering and the apply in `Reconcile` of the reconcilers, where they return.
use mathlib.Core.Option.{some-injective, none-ne-some}
use runtime_overrides_operat.Prelude.{Str, bytes, [], ◌∷◌, ◌≡◌, refl, sym, ap, ◌∙◌, length}
use runtime_overrides_operat.Platform.{Platform, Result, ok, err}
use runtime_overrides_operat.Proc.{
  State, returned, returns, Proc, emit, of_result, gauge, ◌>>=◌, ◌>>◌,
}
use runtime_overrides_operat.Proc.Laws.{bind_returned, then_returned, on_error-returned}
use runtime_overrides_operat.Metrics.{output_size_bytes}
use runtime_overrides_operat.Render.{Output, render}
use runtime_overrides_operat.Apply.{ApplyResult, apply_config_map}
use runtime_overrides_operat.Reconciler.Gather.{Reconciler, label}
use runtime_overrides_operat.Reconciler.Loop.{counting_failure, wrapping, write_output}

module _ (w : Platform) (r : Reconciler) where
  open w use {Cluster, sha256_hex, get_config_map}

  pub counting_returned :
      {A : Type 0} (m : Proc Cluster A) (s : State Cluster) (a : A)
      → (counting_failure w r m s).0 ≡ returns a
      → counting_failure w r m s ≡ m s
  unfolding ◌>>◌ ◌>>=◌
  counting_returned m s a h = on_error-returned m _ s a (λ e s'. refl) h

  wrapping_returned :
      {A : Type 0} (prefix : Str) (m : Proc Cluster A) (s : State Cluster) (a : A)
      → (wrapping w prefix m s).0 ≡ returns a
      → wrapping w prefix m s ≡ m s
  wrapping_returned prefix m s a h = on_error-returned m _ s a (λ e s'. refl) h

  wrapped_returned :
      {A : Type 0} (prefix : Str) (m : Proc Cluster A) (s : State Cluster) (a : A)
      → (counting_failure w r (wrapping w prefix m) s).0 ≡ returns a
      → counting_failure w r (wrapping w prefix m) s ≡ m s
  wrapped_returned prefix m s a h =
      let counted = counting_returned (wrapping w prefix m) s a h in
      counted ∙ wrapping_returned prefix m s a (sym (ap (λ p. p.0) counted) ∙ h)

  of_result_returned :
      {A : Type 0} (result : Result A) (s : State Cluster) (a : A)
      → (of_result result s).0 ≡ returns a
      → result ≡ ok a
  of_result_returned (ok b) s a h = ap (λ x. ok x) (some-injective _ _ (ap returned h))
  of_result_returned (err e) s a h = absurd (none-ne-some a (ap returned h))

  pub write_output_returned :
      (out : Output) (s : State Cluster) (res : ApplyResult)
      → (write_output w r out s).0 ≡ returns res
      → (body : Str) × (s' : State Cluster) × (render w out ≡ ok body)
        × ((apply_config_map w r.output_cm body s').0 ≡ returns res)
        × (write_output w r out s ≡ apply_config_map w r.output_cm body s')
  unfolding write_output
  write_output_returned out s res h =
      let rendering : Proc Cluster Str = of_result (render w out) in
      let first : Proc Cluster Str = counting_failure w r (wrapping w (bytes "render") rendering) in
      let (body, got, rest) = bind_returned first _ s res h in
      let sized : Proc Cluster Unit = emit (gauge output_size_bytes (label r ∷ []) (length body)) in
      let applied : Proc Cluster ApplyResult =
        counting_failure w r (wrapping w (bytes "apply") (apply_config_map w r.output_cm body)) in
      let (_, emitted, rest') =
        then_returned sized applied (first s).1 res (sym (ap (λ p. p.0) rest) ∙ h) in
      let s' = (sized (first s).1).1 in
      let done : (applied s').0 ≡ returns res =
        sym (ap (λ p. p.0) rest') ∙ sym (ap (λ p. p.0) rest) ∙ h in
      let same =
        wrapped_returned (bytes "apply") (apply_config_map w r.output_cm body) s' res done in
      (
        body,
        s',
        of_result_returned (render w out) s body
            (sym (ap (λ p. p.0) (wrapped_returned (bytes "render") rendering s body got)) ∙ got),
        sym (ap (λ p. p.0) same) ∙ done,
        rest ∙ rest' ∙ same,
      )
