-- ===== src/Peers.antt =====
-- internal/controller/peers.go: the other CRs that shape a tenant.
pub mod Laws
use runtime_overrides_operat.Prelude.{
  Str, str_eq, compare_str, eqb_ℤ, ltb_ℤ, Ordering, Bool, true, false, not, ◌&&◌, ◌||◌, List, [],
  ◌∷◌, if◌then◌else◌, length, ◌==◌,
}
use runtime_overrides_operat.Api.{ContributingPeer}
use runtime_overrides_operat.Overrides.{Override}
use runtime_overrides_operat.Order.Sort.{sort_stable}

abbrev pub peer_of : Override → ContributingPeer
peer_of o = record { namespace = o.namespace; name = o.name; weight = o.weight }

-- The loop of `computePeers`.
unfoldable pub collect_peers : Override → List Override → List ContributingPeer
collect_peers self [] = []
collect_peers self (o ∷ all) =
    let rest = collect_peers self all in
    if not (str_eq o.tenant_id self.tenant_id)
    then rest
    else if str_eq o.namespace self.namespace && str_eq o.name self.name
    then rest
    else peer_of o ∷ rest

-- Go's `<` on strings.
abbrev pub str_lt : Str → Str → Bool
str_lt a b = elim (compare_str a b) [ Ordering.lt ↦ true | _ ↦ false ]

unfoldable pub peer_less : ContributingPeer → ContributingPeer → Bool
peer_less a b =
    if not (eqb_ℤ a.weight b.weight)
    then ltb_ℤ a.weight b.weight
    else if not (str_eq a.namespace b.namespace)
    then str_lt a.namespace b.namespace
    else str_lt a.name b.name

-- The comparison that a `less` function stands for, as `sort.SliceStable` uses it.
abbrev pub of_less {ℓ} : {A : Type ℓ} → (A → A → Bool) → A → A → Ordering
of_less less a b = if less a b then Ordering.lt else if less b a then Ordering.gt else Ordering.eq

unfoldable pub compute_peers : Override → List Override → List ContributingPeer
unfolding collect_peers peer_less
compute_peers self all = sort_stable (of_less peer_less) (collect_peers self all)

unfoldable pub peer_eq : ContributingPeer → ContributingPeer → Bool
peer_eq a b = str_eq a.namespace b.namespace && str_eq a.name b.name && eqb_ℤ a.weight b.weight

unfoldable pub some_peer_differs : List ContributingPeer → List ContributingPeer → Bool
unfolding peer_eq
some_peer_differs (a ∷ as') (b ∷ bs) =
    let rest = some_peer_differs as' bs in if not (peer_eq a b) then true else rest
some_peer_differs as' bs = false

unfoldable pub peers_changed : List ContributingPeer → List ContributingPeer → Bool
unfolding some_peer_differs
peers_changed a b = if not (length a == length b) then true else some_peer_differs a b
