-- ===== src/Kube/Objects.antt =====
-- The metadata of each kind of object, as `client.Object` gives access to it.
use supabase_kubernetes.Kube.Core.{ConfigMap, PersistentVolumeClaim, Secret, Service}
use supabase_kubernetes.Kube.Meta.{Object}
use supabase_kubernetes.Kube.Workload.{DaemonSet, Deployment, Job, StatefulSet}
use supabase_kubernetes.Prelude.{refl}

abbrev pub config_map_object : Object ConfigMap
config_map_object = record {
  meta = λ t. t.meta;
  with_meta = λ m t. record t { meta = m };
  meta-with_meta = λ m t. refl;
}

abbrev pub secret_object : Object Secret
secret_object = record {
  meta = λ t. t.meta;
  with_meta = λ m t. record t { meta = m };
  meta-with_meta = λ m t. refl;
}

abbrev pub service_object : Object Service
service_object = record {
  meta = λ t. t.meta;
  with_meta = λ m t. record t { meta = m };
  meta-with_meta = λ m t. refl;
}

abbrev pub pvc_object : Object PersistentVolumeClaim
pvc_object = record {
  meta = λ t. t.meta;
  with_meta = λ m t. record t { meta = m };
  meta-with_meta = λ m t. refl;
}

abbrev pub deployment_object : Object Deployment
deployment_object = record {
  meta = λ t. t.meta;
  with_meta = λ m t. record t { meta = m };
  meta-with_meta = λ m t. refl;
}

abbrev pub stateful_set_object : Object StatefulSet
stateful_set_object = record {
  meta = λ t. t.meta;
  with_meta = λ m t. record t { meta = m };
  meta-with_meta = λ m t. refl;
}

abbrev pub daemon_set_object : Object DaemonSet
daemon_set_object = record {
  meta = λ t. t.meta;
  with_meta = λ m t. record t { meta = m };
  meta-with_meta = λ m t. refl;
}

abbrev pub job_object : Object Job
job_object = record {
  meta = λ t. t.meta;
  with_meta = λ m t. record t { meta = m };
  meta-with_meta = λ m t. refl;
}
