-- ===== src/Reconciler/Remembered.antt =====
-- `Reconcile` of the reconcilers and the hash cache, however it ends.
use mathlib.Core.Option
use mathlib.Core.Option.{some-injective, none-ne-some}
use runtime_overrides_operat.Prelude.{
  Str, ℕ, Option, none, some, List, [], ◌≡◌, refl, sym, ap, ◌∙◌, ◌⊎◌, inl, inr, Dict, length,
  Bool-cases,
}
use runtime_overrides_operat.Overrides.{group_by_tenant}
use runtime_overrides_operat.Conflict.{FieldConflict}
use runtime_overrides_operat.Drift.{HashCache, set_hash}
use runtime_overrides_operat.Platform.{Platform, ok}
use runtime_overrides_operat.Proc.{State, Outcome, returned, returns, Proc, ◌>>=◌, ◌>>◌}
use runtime_overrides_operat.Proc.Laws.{Outcome-cases, Keeps-bind}
use runtime_overrides_operat.Proc.Emits.{after_then}
use runtime_overrides_operat.Render.{Output, render}
use runtime_overrides_operat.Apply.{ApplyResult}
use runtime_overrides_operat.Apply.Laws.{Result-cases, apply_config_map-Lands}
use runtime_overrides_operat.Reconciler.Gather.{Reconciler, Envelope, label, gather}
use runtime_overrides_operat.Reconciler.Output.{check_drift, valid_overrides, merge_groups}
use runtime_overrides_operat.Reconciler.Statuses.{update_statuses}
use runtime_overrides_operat.Reconciler.Loop.{
  counting_failure, write_output, record_output, reconcile, report_drift,
}
use runtime_overrides_operat.Reconciler.Written.{finishing}
use runtime_overrides_operat.Reconciler.OutputWrite.{write_output_returned, counting_returned}
use runtime_overrides_operat.Reconciler.Returns.{record_output-Returns, finishing-Returns}
use runtime_overrides_operat.Reconciler.Quiet.{update_statuses-Keeps}
use runtime_overrides_operat.Reconciler.SameHashes.{
  report_drift-hashes, check_drift-Keeps, gather-Keeps, merge_groups-Keeps, counting-Keeps,
  write_output-Keeps,
}

module _ (w : Platform) (r : Reconciler) where
  open w use {Cluster, get_config_map, sha256_hex}

  -- A reconcile from this state has come to render these outputs of its merge loop to this body, and
  -- its write of the output has returned.
  abbrev pub HasWritten : State Cluster → Str → Type 0
  HasWritten s body =
      (drift : Option Str) × (es : List Envelope) × (merged : Output × Dict (List FieldConflict))
      × (res : ApplyResult) × (let s1 = (check_drift w r s).1 in
          let s2 = (report_drift w r drift s1).1 in
          let s3 = (gather w r s2).1 in
          let looped = merge_groups w r (group_by_tenant (valid_overrides es)) [] [] in
          ((check_drift w r s).0 ≡ returns drift)
          × ((gather w r s2).0 ≡ returns es)
          × ((looped s3).0 ≡ returns merged)
          × (render w merged.0 ≡ ok body)
          × ((write_output w r merged.0 (looped s3).1).0 ≡ returns res))

  -- Nothing is returned and the cache is as it was, or something is returned and the hash of a body
  -- for which this holds has been put into the cache, where there is one.
  abbrev pub Remembers :
      {A : Type 0} → (Str → Type 0) → Option HashCache → Outcome A × State Cluster → Type 0
  Remembers {A} Q hashes p =
      ((returned p.0 ≡ none) × (p.1.hashes ≡ hashes))
      ⊎ ((body : Str) × (answer : A) × Q body
          × (p.0 ≡ returns answer)
          × (p.1.hashes ≡ Option.map (λ h. set_hash h (label r) (sha256_hex body)) hashes))

  bind-Remembers :
      {A B : Type 0} (Q : Str → Type 0) (hashes : Option HashCache) (m : Proc Cluster A)
      (f : A → Proc Cluster B) (s : State Cluster)
      → (m s).1.hashes ≡ hashes
      → ((a : A) → (m s).0 ≡ returns a → Remembers Q hashes (f a (m s).1))
      → Remembers Q hashes ((m >>= f) s)
  unfolding ◌>>=◌
  bind-Remembers Q hashes m f s same next = elim (Outcome-cases (m s).0) [
    | inl (a, done) ↦ rw done (next a done)
    | inr (inl (e, failed)) ↦ rw failed (inl (refl, same))
    | inr (inr failed) ↦ rw failed (inl (refl, same))
  ]

  record_output-hashes :
      (drift : Option Str) (crs tenants : ℕ) (res : ApplyResult) (s : State Cluster)
      → (record_output w r drift crs tenants res s).1.hashes
        ≡ Option.map (λ h. set_hash h (label r) res.hash) s.hashes
  unfolding record_output ◌>>◌ ◌>>=◌
  record_output-hashes none crs tenants res s = refl
  record_output-hashes (some manager) crs tenants res s = elim (Bool-cases r.recorder) [
    | inr off ↦ rw off refl
    | inl on ↦ elim (Result-cases (get_config_map r.output_cm s.cluster).0) [
      | inl (live, got) ↦ rw (on, got) refl
      | inr (e, missing) ↦ rw (on, missing) refl
    ]
  ]

  finishing-hashes :
      (drift : Option Str) (es : List Envelope) (out : Output)
      (conflicts : Dict (List FieldConflict)) (res : ApplyResult) (s : State Cluster)
      → (finishing w r drift es out conflicts res s).1.hashes
        ≡ Option.map (λ h. set_hash h (label r) res.hash) s.hashes
  finishing-hashes drift es out conflicts res s =
      let recorded = record_output w r drift (length es) (length out) res in
      let remembered = Option.map (λ h. set_hash h (label r) res.hash) s.hashes in
      let (_, done) = record_output-Returns w r drift (length es) (length out) res s in
      let updated = update_statuses w r es (valid_overrides es) conflicts res in
      ap (λ p. p.1.hashes) (after_then recorded _ s tt done)
      ∙ Keeps-bind (λ c h. h ≡ remembered) updated _
          (update_statuses-Keeps w (λ c h. h ≡ remembered) ((λ c h. λ e. e), (λ t cr c h. λ e. e)) r
            es (valid_overrides es) conflicts res)
          (λ hit s'. λ e. e) (recorded s).1
          (record_output-hashes drift (length es) (length out) res s)

  -- Either a reconcile returns: it has then rendered the outputs of its own merge loop and its write
  -- of them has returned, and the hash cache, where there is one, is as before but for the hash of
  -- that rendering, which it has for the target. Or it does not return, and leaves the hash cache as
  -- it was. Nothing is assumed of the API or of the libraries.
  pub reconcile-Remembers :
      (s : State Cluster) → Remembers (HasWritten s) s.hashes (reconcile w r s)
  unfolding reconcile ◌>>◌
  reconcile-Remembers s =
      let Q = HasWritten s in
      let same = λ (h : Option HashCache). h ≡ s.hashes in
      let s1 = (check_drift w r s).1 in
      let h1 : s1.hashes ≡ s.hashes = check_drift-Keeps w same r s refl in
      bind-Remembers Q s.hashes (check_drift w r) _ s h1 (λ drift checked.
        let s2 = (report_drift w r drift s1).1 in
        let h2 : s2.hashes ≡ s.hashes = report_drift-hashes w r drift s1 ∙ h1 in
        bind-Remembers Q s.hashes (report_drift w r drift) _ s1 h2 (λ _ reported.
          let gathering : Proc Cluster (List Envelope) = counting_failure w r (gather w r) in
          bind-Remembers Q s.hashes gathering _ s2
            (counting-Keeps w same r (gather w r) (gather-Keeps w same r) s2 h2)
            (λ es gathered.
              let as_is = counting_returned w r (gather w r) s2 es gathered in
              let looped = merge_groups w r (group_by_tenant (valid_overrides es)) [] [] in
              let h3 : (gather w r s2).1.hashes ≡ s.hashes = gather-Keeps w same r s2 h2 in
              let s3 = (gather w r s2).1 in
              let h4 : (looped s3).1.hashes ≡ s.hashes =
                merge_groups-Keeps w same r (group_by_tenant (valid_overrides es)) [] [] s3 h3 in
              rw as_is (
                bind-Remembers Q s.hashes looped _ s3 h4 (λ merged merges.
                  let s4 = (looped s3).1 in
                  let h5 : (write_output w r merged.0 s4).1.hashes ≡ s.hashes =
                    write_output-Keeps w same r merged.0 s4 h4 in
                  bind-Remembers Q s.hashes (write_output w r merged.0) _ s4 h5 (λ res wrote.
                    let (body, s', is_body, applied, _) =
                      write_output_returned w r merged.0 s4 res wrote in
                    let hash = (apply_config_map-Lands w r.output_cm body s' res applied).0 in
                    let after = (write_output w r merged.0 s4).1 in
                    let (answer, done) =
                      finishing-Returns w r drift es merged.0 merged.1 res after in
                    inr (
                      body,
                      answer,
                      (
                        drift,
                        es,
                        merged,
                        res,
                        (checked, sym (ap (λ p. p.0) as_is) ∙ gathered, merges, is_body, wrote),
                      ),
                      done,
                      finishing-hashes drift es merged.0 merged.1 res after
                          ∙ ap (Option.map (λ h. set_hash h (label r) res.hash)) h5
                          ∙ ap (λ x. Option.map (λ h. set_hash h (label r) x) s.hashes) hash,
                    )))))))
