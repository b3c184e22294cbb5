-- ===== src/Watches.antt =====
-- `SetupWithManager` of the reconcilers and of the disabled reconcilers (internal/controller): what
-- each controller watches, and which requests an event of the API gives rise to. The predicate on
-- generations is the library's, a parameter.
pub mod Laws
use runtime_overrides_operat.Prelude.{
  Str, bytes, Bool, true, false, ◌&&◌, ℤ, Option, none, some, List, [], ◌∷◌, ◌++◌, if◌then◌else◌,
}
use runtime_overrides_operat.Api.{NamespacedName}
use runtime_overrides_operat.Drift.{output_cm_predicate, config_map_handler}
use runtime_overrides_operat.Platform.{Target, loki, mimir, target_label}
use runtime_overrides_operat.Reconciler.Gather.{Reconciler, label}

-- The kinds that are watched.
pub data ObjectKind : Type 0 where
  override_kind : Target → ObjectKind
  config_map_kind : ObjectKind

abbrev pub same_kind : ObjectKind → ObjectKind → Bool
same_kind (override_kind loki) (override_kind loki) = true
same_kind (override_kind mimir) (override_kind mimir) = true
same_kind config_map_kind config_map_kind = true
same_kind a b = false

-- An event of the API: `old_generation` is that of the old object of an update, and `none` where an
-- object is created or deleted.
pub record ObjectEvent : Type 0 where
  pub kind : ObjectKind
  pub object : NamespacedName
  pub old_generation : Option ℤ
  pub generation : ℤ

-- `Watches` and `For` of the builder: the predicate, and the requests for an object.
pub record Watch : Type 0 where
  pub kind : ObjectKind
  pub admits : ObjectEvent → Bool
  pub requests : NamespacedName → List NamespacedName

pub record Controller : Type 0 where
  pub name : Str
  pub watches : List Watch

-- `lokiReconcileKey` and `mimirReconcileKey`.
abbrev pub reconcile_key : Target → NamespacedName
reconcile_key t = record { namespace = bytes "_target"; name = target_label t }

abbrev pub controller_name : Target → Str
controller_name loki = bytes "lokitenantoverride"
controller_name mimir = bytes "mimirtenantoverride"

-- The requests of the watches that an event passes.
unfoldable pub enqueued : List Watch → ObjectEvent → List NamespacedName
enqueued [] e = []
enqueued (watch ∷ watches) e =
    let rest = enqueued watches e in
    if same_kind watch.kind e.kind && watch.admits e then watch.requests e.object ++ rest else rest

module _ (generation_changed : ObjectEvent → Bool) where
  -- The reconciler gets a recorder if it has none.
  unfoldable pub setup_with_manager : Reconciler → Reconciler × Controller
  setup_with_manager r = (
    record r { recorder = true },
    record {
      name = controller_name r.target;
      watches =
          record {
            kind = override_kind r.target;
            admits = generation_changed;
            requests = λ object. reconcile_key r.target ∷ [];
          }
          ∷ record {
            kind = config_map_kind;
            admits = λ e. output_cm_predicate r.output_cm (some e.object);
            requests = λ object. config_map_handler (reconcile_key r.target);
          }
          ∷ [];
    },
  )

  -- `SetupWithManager` of the two disabled reconcilers: an object is its own request.
  unfoldable pub setup_disabled_with_manager : Target → Controller
  setup_disabled_with_manager t = record {
    name = controller_name t ++ bytes "-disabled";
    watches =
        record {
          kind = override_kind t;
          admits = generation_changed;
          requests = λ object. object ∷ [];
        }
        ∷ [];
  }

  -- `SetupWithManager` of `MimirReconciler`, in mimir_controller.go.
  unfoldable pub setup_mimir_with_manager : Reconciler → Reconciler × Controller
  unfolding setup_with_manager
  setup_mimir_with_manager r = setup_with_manager (record r { target = mimir })

  unfoldable pub setup_mimir_disabled_with_manager : Controller
  unfolding setup_disabled_with_manager
  setup_mimir_disabled_with_manager = setup_disabled_with_manager mimir
