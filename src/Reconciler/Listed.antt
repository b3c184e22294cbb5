-- ===== src/Reconciler/Listed.antt =====
-- `gather` of the reconcilers: the envelopes of the listed CRs, and the valid ones among them.
use runtime_overrides_operat.Prelude.{
  Option, none, some, List, [], ◌∷◌, ◌≡◌, refl, ap, map, keep, Option-cases, inl, inr, Bool, true,
  false,
}
use runtime_overrides_operat.Api.{TenantOverride}
use runtime_overrides_operat.Platform.{Platform, Error, ok}
use runtime_overrides_operat.Proc.{State, returns, Proc, pure, ◌>>=◌}
use runtime_overrides_operat.Proc.Emits.{Emits, Emits-bind, Emits-then}
use runtime_overrides_operat.Reconciler.Gather.{
  Reconciler, Envelope, envelope_of, envelopes_of, gather, report_invalid,
}
use runtime_overrides_operat.Reconciler.Output.{valid_overrides}

-- A CR that the reconciler takes into the merge.
abbrev pub is_valid : Envelope → Bool
is_valid e = elim e.valid_err [ none ↦ true | some x ↦ false ]

pub valid_overrides-eq :
    (es : List Envelope)
    → valid_overrides es ≡ map (λ (e : Envelope). e.override) (keep is_valid es)
unfolding valid_overrides
valid_overrides-eq [] = refl
valid_overrides-eq (e ∷ es) = elim (Option-cases e.valid_err) [
  | inl valid ↦ rw valid (ap (λ l. e.override ∷ l) (valid_overrides-eq es))
  | inr (x, invalid) ↦ rw invalid (valid_overrides-eq es)
]

module _ (w : Platform) (r : Reconciler) where
  open w use {list_overrides}

  report_invalid-Emits :
      (cr : TenantOverride) (x : Option Error) → Emits (report_invalid w r cr x) tt
  report_invalid-Emits cr none s = (refl, refl, refl)
  report_invalid-Emits cr (some e) s = (refl, refl, refl)

  pub envelopes_of-Emits :
      (crs : List TenantOverride) → Emits (envelopes_of w r crs) (map (envelope_of w r) crs)
  unfolding envelopes_of
  envelopes_of-Emits [] = λ s. (refl, refl, refl)
  envelopes_of-Emits (cr ∷ crs) =
      let finish : List Envelope → Proc w.Cluster (List Envelope) =
        λ rest. pure (envelope_of w r cr ∷ rest) in
      Emits-then (report_invalid w r cr (envelope_of w r cr).valid_err)
        (envelopes_of w r crs >>= finish) tt (map (envelope_of w r) (cr ∷ crs))
        (report_invalid-Emits cr (envelope_of w r cr).valid_err)
        (Emits-bind (envelopes_of w r crs) finish (map (envelope_of w r) crs)
          (map (envelope_of w r) (cr ∷ crs)) (envelopes_of-Emits crs) (λ s. (refl, refl, refl)))

  -- Where the API lists the CRs, `gather` returns an envelope for each of them, in the order of the
  -- list; and of these the valid ones, and no others, go into the merge, with the overrides that were
  -- decoded. A CR that does not decode or is invalid fails nothing.
  pub gather-envelopes :
      (items : List TenantOverride) (s : State w.Cluster)
      → (list_overrides r.target s.cluster).0 ≡ ok items
      → ((gather w r s).0 ≡ returns (map (envelope_of w r) items))
        × (valid_overrides (map (envelope_of w r) items)
            ≡ map (λ (e : Envelope). e.override) (keep is_valid (map (envelope_of w r) items)))
  unfolding gather ◌>>=◌
  gather-envelopes items s h = (
    rw h
        (envelopes_of-Emits items (record s { cluster = (list_overrides r.target s.cluster).1 })).0,
    valid_overrides-eq (map (envelope_of w r) items),
  )
