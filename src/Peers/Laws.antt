-- ===== src/Peers/Laws.antt =====
-- internal/controller/peers.go: the list of peers, and the comparison of two lists.
use mathlib.Core.List.{Perm}
use runtime_overrides_operat.Prelude.{
  eqb_ℤ_iff, compare_ℤ, str_eq, str_eq_iff, compare_str, Ordering, Bool, true, false, not, ◌&&◌,
  List, [], ◌∷◌, ◌≡◌, ◌↔◌, refl, fun_ext, arith, map, keep,
}
use runtime_overrides_operat.Api.{ContributingPeer}
use runtime_overrides_operat.Overrides.{Override}
use runtime_overrides_operat.Order.{IsOrder, then_by, lexicographic-IsOrder, on-IsOrder}
use runtime_overrides_operat.Order.Text.{compare_str-IsOrder, compare_ℤ-IsOrder, compare_str_eq}
use runtime_overrides_operat.Order.Sort.{IsSorted, sort_stable-IsSorted, sort_stable-perm}
use runtime_overrides_operat.Peers.{
  peer_of, collect_peers, peer_less, of_less, compute_peers, peer_eq, peers_changed,
}

-- Another CR of the same tenant.
abbrev pub is_peer : Override → Override → Bool
is_peer self o =
    str_eq o.tenant_id self.tenant_id
    && not (str_eq o.namespace self.namespace && str_eq o.name self.name)

collect_peers-eq :
    (self : Override) (all : List Override)
    → collect_peers self all ≡ map peer_of (keep (is_peer self) all)
unfolding collect_peers
collect_peers-eq self [] = refl
collect_peers-eq self (o ∷ all) = ground (arith, collect_peers-eq self all)

-- The order of the peers: weight, namespace, name.
pub by_peer_key : ContributingPeer → ContributingPeer → Ordering
by_peer_key a b =
    then_by (compare_ℤ a.weight b.weight)
      (then_by (compare_str a.namespace b.namespace) (compare_str a.name b.name))

of_less-eq : (a b : ContributingPeer) → of_less peer_less a b ≡ by_peer_key a b
unfolding peer_less by_peer_key
of_less-eq a b = ground (
  arith,
  compare_str-IsOrder.swaps a.namespace b.namespace,
  compare_str-IsOrder.swaps a.name b.name,
  compare_str_eq a.namespace b.namespace,
  str_eq_iff a.namespace b.namespace,
  str_eq_iff b.namespace a.namespace,
)

by_peer_key-IsOrder : IsOrder by_peer_key
unfolding by_peer_key
by_peer_key-IsOrder =
    lexicographic-IsOrder (on-IsOrder (λ (p : ContributingPeer). p.weight) compare_ℤ-IsOrder) (
      lexicographic-IsOrder (on-IsOrder (λ (p : ContributingPeer). p.namespace) compare_str-IsOrder)
        (on-IsOrder (λ (p : ContributingPeer). p.name) compare_str-IsOrder))

of_less-path : of_less peer_less ≡ by_peer_key
of_less-path = fun_ext λ a. fun_ext λ b. of_less-eq a b

-- `computePeers` lists exactly the other CRs of the tenant of `self`, each as often as it is given,
-- in ascending order of weight, namespace and name.
pub compute_peers-IsSorted :
    (self : Override) (all : List Override)
    → Perm (compute_peers self all) (map peer_of (keep (is_peer self) all))
      × IsSorted by_peer_key (compute_peers self all)
unfolding compute_peers
compute_peers-IsSorted self all = (
  rw (collect_peers-eq self all)
      (sort_stable-perm (of_less peer_less) (map peer_of (keep (is_peer self) all))),
  rw of_less-path (sort_stable-IsSorted by_peer_key-IsOrder (collect_peers self all)),
)

peer_eq_iff : (a b : ContributingPeer) → (peer_eq a b ≡ true) ↔ (a ≡ b)
unfolding peer_eq
peer_eq_iff a b = ground (
  arith,
  str_eq_iff a.namespace b.namespace,
  str_eq_iff a.name b.name,
  eqb_ℤ_iff a.weight b.weight,
)

peers_changed_sound : (a b : List ContributingPeer) → peers_changed a b ≡ false → a ≡ b
unfolding peers_changed
peers_changed_sound [] [] h = refl
peers_changed_sound [] (q ∷ b) h = ground arith
peers_changed_sound (p ∷ a) [] h = ground arith
peers_changed_sound (p ∷ a) (q ∷ b) h = ground (arith, peer_eq_iff p q, peers_changed_sound a b)

peers_changed_refl : (a : List ContributingPeer) → peers_changed a a ≡ false
unfolding peers_changed
peers_changed_refl [] = refl
peers_changed_refl (p ∷ a) = ground (arith, peer_eq_iff p p, peers_changed_refl a)

-- `peersChanged` tells whether two lists differ.
pub peers_changed_iff : (a b : List ContributingPeer) → (peers_changed a b ≡ false) ↔ (a ≡ b)
peers_changed_iff a b = (peers_changed_sound a b, λ e. rw e (peers_changed_refl b))
