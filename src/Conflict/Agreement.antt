-- ===== src/Conflict/Agreement.antt =====
-- What the report of internal/merge/conflict.go says of a leaf on which some of the writers agree.
use mathlib.Core.Option.{some-injective}
use runtime_overrides_operat.Prelude.{
  ℕ, Str, str_eq_refl, eqb_ℤ, some, List, [], ◌∷◌, ◌≡◌, sym, ◌∙◌, arith, true, false,
}
use runtime_overrides_operat.Value.{number, Fields, end, field, float_eq}
use runtime_overrides_operat.Overrides.{Override, ref_of}
use runtime_overrides_operat.Conflict.{FieldConflict, tracking_merge, join, leaf_values_equal}
use runtime_overrides_operat.Conflict.Events.{events, leaves}
use runtime_overrides_operat.Conflict.Summary.{
  writes_at, overruled, last_winner, same_weights, loser_refs,
}
use runtime_overrides_operat.Conflict.Report.{find}
use runtime_overrides_operat.Conflict.Correct.{tracking_merge-find}

module _ (tenant : Str) (a b c : Override) (k : Str) (x y z : ℕ)
    (ha : a.overrides ≡ field k (number x) end) (hb : b.overrides ≡ field k (number y) end)
    (hc : c.overrides ≡ field k (number z) end) where
  three_writes :
      writes_at k (a ∷ b ∷ c ∷ [])
      ≡ record { ref = ref_of a; path = k ∷ []; value = number x }
        ∷ record { ref = ref_of b; path = k ∷ []; value = number y }
        ∷ record { ref = ref_of c; path = k ∷ []; value = number z }
        ∷ []
  unfolding events leaves join
  three_writes = rw (ha, hb, hc) (simp (str_eq_refl k))

  -- Of three CRs whose overrides are exactly one number at the same top-level key, the
  -- third the number of the second and the first another, where the merge does not panic, the second
  -- is the winner and the first the only loser, though the third is the last to write.
  pub tracking_merge-agreeing_last :
      (merged : Fields) (out : List FieldConflict)
      → float_eq x y ≡ false
      → float_eq y z ≡ true
      → tracking_merge tenant (a ∷ b ∷ c ∷ []) ≡ some (merged, out)
      → find k out
        ≡ some (record {
          tenant = tenant;
          path = k ∷ [];
          winner = ref_of b;
          losers = ref_of a ∷ [];
          same_weight = eqb_ℤ a.weight b.weight;
        })
  unfolding overruled leaf_values_equal last_winner loser_refs same_weights
  tracking_merge-agreeing_last merged out differ agree done = some-injective _ _ (
      sym (tracking_merge-find tenant (a ∷ b ∷ c ∷ []) merged out k done)
      ∙ (rw (three_writes, agree, differ) (ground arith)))

  -- Of three CRs whose overrides are exactly one number at the same top-level key, the second the
  -- number of the first and the third another, where the merge does not panic, the third is the
  -- winner and the second the only loser: the first, whose number the second repeats, is none.
  pub tracking_merge-agreeing_first :
      (merged : Fields) (out : List FieldConflict)
      → float_eq x y ≡ true
      → float_eq y z ≡ false
      → tracking_merge tenant (a ∷ b ∷ c ∷ []) ≡ some (merged, out)
      → find k out
        ≡ some (record {
          tenant = tenant;
          path = k ∷ [];
          winner = ref_of c;
          losers = ref_of b ∷ [];
          same_weight = eqb_ℤ b.weight c.weight;
        })
  unfolding overruled leaf_values_equal last_winner loser_refs same_weights
  tracking_merge-agreeing_first merged out agree differ done = some-injective _ _ (
      sym (tracking_merge-find tenant (a ∷ b ∷ c ∷ []) merged out k done)
      ∙ (rw (three_writes, differ, agree) (ground arith)))
