-- ===== src/Witnesses/Derived.antt =====
-- Derived worker slices at concrete inputs.
use kubeslice_controller.Common.{
  suc, ◌≡◌, refl, [], ◌∷◌, some, none, contains, ◌=?◌, if◌then◌else◌, get_or, lookup,
}
use kubeslice_controller.Resources.Meta.{label}
use kubeslice_controller.Resources.Slice.{SliceConfig}
use kubeslice_controller.Resources.Worker.{WorkerSliceConfig}
use kubeslice_controller.Platform.{Platform, found}
use kubeslice_controller.WorkerConfigs.Derivation.{Copier, completed, no_external_gateway}
use kubeslice_controller.WorkerConfigs.Derivation.Choice.{
  first_naming, last_starred, completed-external_gateway,
}
use kubeslice_controller.WorkerConfigs.Derivation.Isolation.{is_selected, completed-namespaces}
use kubeslice_controller.Witnesses.Data.{Server, nothing, server, worker, slice, gateway}

abbrev copier : Copier
copier = record {
  spec_of = λ spec. some (worker "" none).spec;
  external_of = λ config. record {
    ingress = config.ingress;
    egress = config.egress;
    ns_ingress = config.ns_ingress;
    gateway_type = config.gateway_type;
    vpc_service_access = config.vpc_service_access;
  };
}

abbrev guarded : SliceConfig
guarded =
    let s = slice ("west" ∷ "east" ∷ []) in
    record s {
      spec = record s.spec {
        external_gateway_config = gateway ("*" ∷ []) ∷ gateway ("west" ∷ []) ∷ [];
      };
    }

abbrev west : WorkerSliceConfig
west = worker "west" (some 3)

external_choice_example :
    (completed copier guarded (some 3) "/20" west).spec.external_gateway_config
    ≡ copier.external_of (
        get_or
          (first_naming (label west.metadata "worker-cluster") guarded.spec.external_gateway_config)
          (last_starred guarded.spec.external_gateway_config no_external_gateway))
unfolding lookup
external_choice_example = completed-external_gateway copier guarded (some 3) "/20" west refl

namespaces_example :
    (contains
        (completed copier guarded
          (some 3)
          "/20"
          west).spec.namespace_isolation_profile.application_namespaces
        "shop"
      ≡ is_selected
          (label west.metadata "worker-cluster")
          "shop"
          guarded.spec.namespace_isolation_profile.application_namespaces)
    × (contains
          (completed copier guarded
            (some 3)
            "/20"
            west).spec.namespace_isolation_profile.allowed_namespaces
          "shop"
        ≡ is_selected
            (label west.metadata "worker-cluster")
            "shop"
            guarded.spec.namespace_isolation_profile.allowed_namespaces)
namespaces_example = completed-namespaces copier guarded (some 3) "/20" west "shop"

-- The same with the controller's finalizer.
abbrev kept_worker : WorkerSliceConfig
kept_worker = record west {
  metadata = record west.metadata {
    finalizers = "worker.kubeslice.io/worker-slice-configuration-finalizer" ∷ [];
  };
}

-- A server with this worker slice and the slice, which counts the updates that change the octet.
abbrev strict : Platform Server
strict = record server {
  slice_configs = record nothing { get = λ key w. found guarded };
  worker_slice_configs = record nothing {
    get = λ key w. found kept_worker;
    update = λ new w. (none, if get_or new.spec.octet 0 =? 3 then w else suc w);
  };
}
