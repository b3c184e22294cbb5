-- ===== src/Status/Settled.antt =====
-- internal/controller/status.go: the conditions after an upsert beside the desired ones.
use runtime_overrides_operat.Prelude.{
  Str, str_eq, str_eq_iff, str_eq_refl, ℕ, true, false, List, [], ◌∷◌, none, some, lookup, insert,
  ◌≡◌, ◌≢◌, refl, sym, ap, ◌∙◌, arith, All, inl, inr, ◌⊎◌,
}
use runtime_overrides_operat.Api.{Condition}
use runtime_overrides_operat.Status.{
  conditions_equivalent, upsert_condition, by_type, some_changed, conditions_changed,
}
use runtime_overrides_operat.Status.Laws.{upserted, upserted-equivalent}

upsert_here :
    (now : ℕ) (c : Condition) (cs : List Condition) (d : Condition)
    → c.type ≡ d.type
    → upsert_condition now (c ∷ cs) d ≡ upserted now (some c) d ∷ cs
unfolding upsert_condition
upsert_here now c cs d same = ground (arith, str_eq_iff c.type d.type)

upsert_there :
    (now : ℕ) (c : Condition) (cs : List Condition) (d : Condition)
    → c.type ≢ d.type
    → upsert_condition now (c ∷ cs) d ≡ c ∷ upsert_condition now cs d
unfolding upsert_condition
upsert_there now c cs d other = ground (arith, str_eq_iff c.type d.type)

upsert_empty : (now : ℕ) (d : Condition) → upsert_condition now [] d ≡ upserted now none d ∷ []
unfolding upsert_condition
upsert_empty now d = refl

equivalent-type : (a b : Condition) → conditions_equivalent a b ≡ true → a.type ≡ b.type
unfolding conditions_equivalent
equivalent-type a b h = ground (arith, h, str_eq_iff a.type b.type)

differ : (s t : Str) → s ≢ t → str_eq s t ≡ false
differ s t h = ground (arith, h, str_eq_iff s t)

module _ (v a : Condition) where
  -- Conditions of these two types only, at most one of each.
  abbrev pub AreOwn : List Condition → Type 0
  AreOwn [] = Unit
  AreOwn (c ∷ cs) =
      ((c.type ≡ v.type) ⊎ (c.type ≡ a.type)) × All (λ d. c.type ≢ d.type) cs × AreOwn cs

module _ (v a : Condition) (apart : v.type ≢ a.type) where
  no_third :
      (p q r : Str)
      → (p ≡ v.type) ⊎ (p ≡ a.type)
      → (q ≡ v.type) ⊎ (q ≡ a.type)
      → (r ≡ v.type) ⊎ (r ≡ a.type)
      → p ≢ q
      → p ≢ r
      → q ≢ r
      → ⊥
  no_third p q r hp hq hr pq pr qr = ground (arith, hp, hq, hr, pq, pr, qr)

  pair_unchanged :
      (x y : Condition)
      → conditions_equivalent x v ≡ true
      → conditions_equivalent y a ≡ true
      → (conditions_changed (x ∷ y ∷ []) (v ∷ a ∷ []) ≡ false)
        × (conditions_changed (y ∷ x ∷ []) (v ∷ a ∷ []) ≡ false)
  unfolding conditions_changed by_type some_changed lookup insert
  pair_unchanged x y hx hy =
      let ex = equivalent-type x v hx in
      let ey = equivalent-type y a hy in
      let xv : str_eq x.type v.type ≡ true = rw ex (str_eq_refl v.type) in
      let ya : str_eq y.type a.type ≡ true = rw ey (str_eq_refl a.type) in
      let xa = differ x.type a.type (λ e. apart (sym ex ∙ e)) in
      let yv = differ y.type v.type (λ e. apart (sym e ∙ ey)) in
      let xy = differ x.type y.type (λ e. apart (sym ex ∙ e ∙ ey)) in
      let yx = differ y.type x.type (λ e. apart (sym ex ∙ sym e ∙ ey)) in
      (ground (arith, xy, xv, xa, ya, hx, hy), ground (arith, yx, yv, ya, xv, hx, hy))

  -- What the two upserts leave: a condition for each, in some order.
  IsPair : List Condition → Type 0
  IsPair cs =
      (x : Condition) × (y : Condition) × ((cs ≡ x ∷ y ∷ []) ⊎ (cs ≡ y ∷ x ∷ []))
      × (conditions_equivalent x v ≡ true)
      × (conditions_equivalent y a ≡ true)

  IsPair-unchanged : (cs : List Condition) → IsPair cs → conditions_changed cs (v ∷ a ∷ []) ≡ false
  unfolding IsPair
  IsPair-unchanged cs (x, y, inl e, hx, hy) = rw e ((pair_unchanged x y hx hy).0)
  IsPair-unchanged cs (x, y, inr e, hx, hy) = rw e ((pair_unchanged x y hx hy).1)

  module _ (now later : ℕ) where
    -- The upsert of the second condition, after that of the first.
    upsert_second :
        (x : Condition)
        → conditions_equivalent x v ≡ true
        → IsPair (upsert_condition later (x ∷ []) a)
    unfolding IsPair upsert_condition
    upsert_second x hx = (
      x,
      upserted later none a,
      inl (upsert_there later x [] a (λ e. apart (sym (equivalent-type x v hx) ∙ e))),
      hx,
      upserted-equivalent later none a,
    )

    -- The list is first the pair of these two.
    upsert_both :
        (c d : Condition)
        → conditions_equivalent c v ≡ true
        → d.type ≡ a.type
        → IsPair (upsert_condition later (c ∷ d ∷ []) a)
          × IsPair (upsert_condition later (d ∷ c ∷ []) a)
    unfolding IsPair
    upsert_both c d hc hd = (
      (
        c,
        upserted later (some d) a,
        inl (
            upsert_there later c (d ∷ []) a (λ e. apart (sym (equivalent-type c v hc) ∙ e))
            ∙ ap (λ l. c ∷ l) (upsert_here later d [] a hd)),
        hc,
        upserted-equivalent later (some d) a,
      ),
      (
        c,
        upserted later (some d) a,
        inr (upsert_here later d (c ∷ []) a hd),
        hc,
        upserted-equivalent later (some d) a,
      ),
    )

    upserts-IsPair :
        (cs : List Condition)
        → AreOwn v a cs
        → IsPair (upsert_condition later (upsert_condition now cs v) a)
    upserts-IsPair [] own =
        rw (upsert_empty now v)
          (upsert_second (upserted now none v) (upserted-equivalent now none v))
    upserts-IsPair (c ∷ []) (inl first, other, rest) =
        rw (upsert_here now c [] v first)
          (upsert_second (upserted now (some c) v) (upserted-equivalent now (some c) v))
    upserts-IsPair (c ∷ []) (inr second, other, rest) =
        rw (upsert_there now c [] v (λ e. apart (sym e ∙ second)), upsert_empty now v)
          (upsert_both (upserted now none v) c (upserted-equivalent now none v) second).1
    upserts-IsPair (c ∷ d ∷ []) (inl first, other, (inl first', _, rest)) =
        absurd (other.0 (first ∙ sym first'))
    upserts-IsPair (c ∷ d ∷ []) (inl first, other, (inr second, _, rest)) =
        rw (upsert_here now c (d ∷ []) v first)
          (upsert_both (upserted now (some c) v) d (upserted-equivalent now (some c) v) second).0
    upserts-IsPair (c ∷ d ∷ []) (inr second, other, (inl first, _, rest)) =
        rw
          (
            upsert_there now c (d ∷ []) v (λ e. apart (sym e ∙ second)),
            upsert_here now d [] v first,
          )
          (upsert_both (upserted now (some d) v) c (upserted-equivalent now (some d) v) second).1
    upserts-IsPair (c ∷ d ∷ []) (inr second, other, (inr second', _, rest)) =
        absurd (other.0 (second ∙ sym second'))
    upserts-IsPair (c ∷ d ∷ e ∷ cs) (tc, (cd, (ce, _)), (td, (de, _), (te, _, _))) =
        absurd (no_third c.type d.type e.type tc td te cd ce de)

    -- Once the two conditions of a reconcile have been upserted, at whatever times, into conditions
    -- that hold at most one of each of the two types and no other, nothing has changed.
    pub upserts-unchanged :
        (cs : List Condition)
        → AreOwn v a cs
        → conditions_changed (upsert_condition later (upsert_condition now cs v) a) (v ∷ a ∷ [])
          ≡ false
    upserts-unchanged cs own = IsPair-unchanged _ (upserts-IsPair cs own)
