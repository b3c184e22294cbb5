-- ===== src/Tests/Cluster.antt =====
-- A cluster with one ConfigMap and a list of CRs, as the platform of the tests.
use runtime_overrides_operat.Prelude.{
  if◌then◌else◌, bytes, ℕ, suc, List, [], Option, none, some, pos, refl, true, map,
}
use runtime_overrides_operat.Api.{TenantOverride, NamespacedName}
use runtime_overrides_operat.Drift.{ConfigMap}
use runtime_overrides_operat.Platform.{Platform, Error, ErrorKind, Result, ok, err, loki}
use runtime_overrides_operat.Proc.{State}
use runtime_overrides_operat.Apply.Laws.{GetReads}
use runtime_overrides_operat.Reconciler.Gather.{Reconciler}
use runtime_overrides_operat.Reconciler.Quiet.{IsQuiet}
use runtime_overrides_operat.Reconciler.Objects.{same_object}
use runtime_overrides_operat.Tests.Documents.{base}

pub record SmallCluster : Type 0 where
  pub live : Option ConfigMap
  pub crs : List TenantOverride
  pub clock : ℕ

abbrev pub found_or_not : Option ConfigMap → Result ConfigMap
found_or_not none = err (record { kind = ErrorKind.not_found; message = bytes "not found" })
found_or_not (some cm) = ok cm

-- A CR once the status of an object has been written.
abbrev put_status : TenantOverride → TenantOverride → TenantOverride
put_status written cr = if same_object written cr then record cr { status = written.status } else cr

abbrev pub small : Platform
small = record {
  Cluster = SmallCluster;
  get_config_map = λ name c. (found_or_not c.live, c);
  get_override =
      λ t name c. (err (record { kind = ErrorKind.not_found; message = bytes "not found" }), c);
  list_overrides = λ t c. (ok c.crs, c);
  patch_config_map = λ cm manager force c. (none, record c { live = some cm });
  update_status = λ t cr c. (none, record c { crs = map (put_status cr) c.crs });
  now = λ c. (c.clock, record c { clock = suc c.clock });
  encode = λ v. ok (bytes "body");
  close_encoder = λ buffer. ok buffer;
  sha256_hex = λ body. body;
  json_unmarshal = λ raw. ok (some base);
}

pub small-GetReads : GetReads small
small-GetReads name c = refl

abbrev pub output_name : NamespacedName
output_name = record { namespace = bytes "ns"; name = bytes "overrides" }

abbrev pub empty_cluster : State SmallCluster
empty_cluster = record {
  cluster = record { live = none; crs = []; clock = 5 };
  hashes = some [];
  trace = [];
}

-- A reconciler of the Loki target whose validator has this answer.
abbrev pub reconciler_with : Option Error → Reconciler
reconciler_with answer = record {
  target = loki;
  output_cm = output_name;
  validate = λ raw. answer;
  recorder = true;
}

abbrev pub cr : TenantOverride
cr = record {
  namespace = bytes "ns";
  name = bytes "a";
  generation = pos 2;
  spec = record { tenant_id = []; weight = pos 10; overrides = some (bytes "{}") };
  status = record {
    observed_generation = pos 1;
    effective_tenant_id = bytes "ns";
    conditions = [];
    contributing_peers = [];
  };
}

pub small-IsQuiet : IsQuiet small
small-IsQuiet = ((λ name c. refl), (λ t cr name c. refl))
