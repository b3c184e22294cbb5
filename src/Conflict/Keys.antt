-- ===== src/Conflict/Keys.antt =====
-- The tracking of internal/merge/conflict.go, one path key at a time.
use mathlib.Core.Option.{some-injective, none-ne-some}
use runtime_overrides_operat.Prelude.{
  sym, Str, str_eq, str_eq_iff, Option, none, some, List, [], ◌∷◌, ◌≡◌, refl, ap, ◌∙◌, arith, keep,
  Option-cases, Bool-cases, inl, inr, lookup, lookup-insert, Bool, true, false, if◌then◌else◌,
}
use runtime_overrides_operat.Overrides.{CrRef}
use runtime_overrides_operat.Conflict.{
  ◌>>=◌, Tracking, WriterInfo, FieldConflict, join, leaf_values_equal, visit, record_loss, remember,
  fresh_conflict, add_conflict,
}
use runtime_overrides_operat.Conflict.Events.{Event, run, step}

-- What the maps hold at one key.
pub record KeyState : Type 0 where
  pub last : Option WriterInfo
  pub conflict : Option FieldConflict

abbrev pub key_of : Event → Str
key_of e = join e.path

abbrev pub writer_of : Event → WriterInfo
writer_of e = record { ref = e.ref; value = e.value }

abbrev pub or_fresh : Str → List Str → Option FieldConflict → FieldConflict
or_fresh tenant path none = fresh_conflict tenant path
or_fresh tenant path (some fc) = fc

abbrev pub at_key : Str → Tracking → KeyState
at_key k st = record { last = lookup k st.provenance; conflict = lookup k st.conflicts }

-- A write, as its own key sees it.
abbrev pub overruling : Str → Event → WriterInfo → Option FieldConflict → Bool → KeyState
overruling tenant e prior conflict same = record {
  last = some (writer_of e);
  conflict =
      if same
      then conflict
      else some (record_loss prior.ref e.ref (or_fresh tenant e.path conflict));
}

abbrev pub key_write : Str → Event → Option WriterInfo → Option FieldConflict → Option KeyState
key_write tenant e none conflict = some (record { last = some (writer_of e); conflict = conflict })
key_write tenant e (some prior) conflict =
    leaf_values_equal prior.value e.value >>= λ same. some (overruling tenant e prior conflict same)

abbrev pub key_step : Str → Event → KeyState → Option KeyState
key_step tenant e ks = key_write tenant e ks.last ks.conflict

abbrev is_at : Str → Event → Bool
is_at k e = str_eq (key_of e) k

pub lookup-add_conflict :
    (tenant key : Str) (path : List Str) (prior ref : CrRef) (st : Tracking) (k : Str)
    → lookup k (add_conflict tenant key path prior ref st).conflicts ≡ (
        if str_eq key k
        then some (record_loss prior ref (or_fresh tenant path (lookup key st.conflicts)))
        else lookup k st.conflicts)
unfolding add_conflict
lookup-add_conflict tenant key path prior ref st k = elim (Option-cases (lookup key st.conflicts)) [
  | inl missing ↦
      rw (missing, add_conflict)
        (lookup-insert key k (record_loss prior ref (fresh_conflict tenant path)) st.conflicts)
  | inr (fc, found) ↦
      rw (found, add_conflict) (lookup-insert key k (record_loss prior ref fc) st.conflicts)
]

pub provenance-add_conflict :
    (tenant key : Str) (path : List Str) (prior ref : CrRef) (st : Tracking)
    → (add_conflict tenant key path prior ref st).provenance ≡ st.provenance
unfolding add_conflict
provenance-add_conflict tenant key path prior ref st = ground arith

-- What a step does at its own key.
abbrev pub own_write : Str → Event → Tracking → Option WriterInfo → Option Tracking
own_write tenant e st none = some (remember (key_of e) (writer_of e) st)
own_write tenant e st (some prior) = leaf_values_equal prior.value e.value >>= λ same. some (
    remember (key_of e) (writer_of e)
      (if same then st else add_conflict tenant (key_of e) e.path prior.ref e.ref st))

pub step-eq :
    (tenant : Str) (e : Event) (st : Tracking)
    → step tenant e st ≡ own_write tenant e st (lookup (key_of e) st.provenance)
unfolding visit
step-eq tenant e st = ground arith

after_write :
    (tenant k : Str) (e : Event) (st : Tracking) (prior : WriterInfo) (same : Bool)
    → (if is_at k e
        then overruling tenant e prior (lookup (key_of e) st.conflicts) same
        else at_key k st)
      ≡ at_key k (
          remember
            (key_of e)
            (writer_of e)
            (if same then st else add_conflict tenant (key_of e) e.path prior.ref e.ref st))
after_write tenant k e st prior true =
    ground (arith, lookup-insert (key_of e) k (writer_of e) st.provenance, str_eq_iff (key_of e) k)
after_write tenant k e st prior false = rw (provenance-add_conflict tenant) (
    ground (
      arith,
      lookup-insert (key_of e) k (writer_of e) st.provenance,
      lookup-add_conflict tenant (key_of e) e.path prior.ref e.ref st k,
    ))

if_some {ℓ} :
    {A : Type ℓ} (b : Bool) (x y : A) → (if b then some x else some y) ≡ some (if b then x else y)
if_some true x y = refl
if_some false x y = refl

at_key-write :
    (tenant k : Str) (e : Event) (st st' : Tracking) (last : Option WriterInfo)
    → own_write tenant e st last ≡ some st'
    → (if is_at k e
        then key_write tenant e last (lookup (key_of e) st.conflicts)
        else some (at_key k st))
      ≡ some (at_key k st')
at_key-write tenant k e st st' none h =
    rw (sym (some-injective (remember (key_of e) (writer_of e) st) st' h)) (
      ground
        (arith, lookup-insert (key_of e) k (writer_of e) st.provenance, str_eq_iff (key_of e) k))
at_key-write tenant k e st st' (some prior) h =
    elim (Option-cases (leaf_values_equal prior.value e.value)) [
      | inl panics ↦ absurd (none-ne-some st' (rw panics at h))
      | inr (same, found) ↦
          let next =
            remember (key_of e) (writer_of e)
              (if same then st else add_conflict tenant (key_of e) e.path prior.ref e.ref st) in
          rw (found, sym (some-injective next st' (rw found at h)))
            (if_some (is_at k e) (overruling tenant e prior (lookup (key_of e) st.conflicts) same)
                (at_key k st)
              ∙ ap (λ ks. some ks) (after_write tenant k e st prior same))
    ]

-- A step leaves the other keys alone, and does to its own key what `key_step` does.
at_key-step :
    (tenant k : Str) (e : Event) (st st' : Tracking)
    → step tenant e st ≡ some st'
    → (if is_at k e then key_step tenant e (at_key k st) else some (at_key k st))
      ≡ some (at_key k st')
at_key-step tenant k e st st' h =
    let written =
      at_key-write tenant k e st st' (lookup (key_of e) st.provenance)
        (rw (step-eq tenant e st) at h) in
    elim (Bool-cases (is_at k e)) [
      | inl own ↦ rw own (rw ((str_eq_iff (key_of e) k).0 own) at (rw own at written))
      | inr other ↦ rw other (rw other at written)
    ]

-- The maps at a key after a run are those of the run over the writes at that key.
pub at_key-run :
    (tenant k : Str) (es : List Event) (st st' : Tracking)
    → run (step tenant) es st ≡ some st'
    → run (key_step tenant) (keep (is_at k) es) (at_key k st) ≡ some (at_key k st')
at_key-run tenant k [] st st' h = ap (λ s. some (at_key k s)) (some-injective st st' h)
at_key-run tenant k (e ∷ es) st st' h = elim (Option-cases (step tenant e st)) [
  | inl panics ↦ absurd (none-ne-some st' (rw panics at h))
  | inr (next, found) ↦
      let rest = at_key-run tenant k es next st' (rw found at h) in
      let first = at_key-step tenant k e st next found in
      elim (Bool-cases (is_at k e)) [
        | inl own ↦ rw own (rw (rw own at first) rest)
        | inr other ↦
            rw (other, some-injective (at_key k st) (at_key k next) (rw other at first)) rest
      ]
]
