-- ===== src/Tests/Site.antt =====
-- A cluster in which a component runs: its objects exist already, or can be created.
use supabase_kubernetes.Api.Components.{ComponentSpec, Resource, resource_conditioned}
use supabase_kubernetes.Api.Databases.{SingleDatabase}
use supabase_kubernetes.Api.Projects.{Project}
use supabase_kubernetes.Controller.Component.{Component}
use supabase_kubernetes.Controller.Component.Run.{Cluster}
use supabase_kubernetes.Controller.Component.Stamp.{config_input, secret_input}
use supabase_kubernetes.Go.Exec.{pure}
use supabase_kubernetes.Go.GoMap.{literal, nil, text_at}
use supabase_kubernetes.Go.Outcome.{Outcome, err, ok}
use supabase_kubernetes.Helper.Overlay.{Patching}
use supabase_kubernetes.Kube.Client.{Client}
use supabase_kubernetes.Kube.Core.{ConfigMap, Secret, Service}
use supabase_kubernetes.Kube.Meta.{object_meta}
use supabase_kubernetes.Kube.Objects.{
  config_map_object, deployment_object, pvc_object, secret_object, service_object,
  stateful_set_object,
}
use supabase_kubernetes.Kube.Workload.{Deployment}
use supabase_kubernetes.Prelude.{
  List, Option, String, [], false, if◌then◌else◌, none, some, true, ◌=s◌, ◌∷◌,
}
use supabase_kubernetes.Tests.Namespace.{pod, ready_project_of}
use supabase_kubernetes.Tests.Objects.{assets, json_text, single_database, text_digest}
use supabase_kubernetes.Tests.World.{conditions, controller_reference, no_object, plain_machinery}

pub record Site : Type 0 where
  pub components : List (Resource ComponentSpec)
  pub auths : List (Resource ComponentSpec)
  pub project : Option Project
  pub database : Option SingleDatabase
  pub service : Option Service
  pub config_map : Option ConfigMap
  pub deployment : Option Deployment
  pub version : String

abbrev pub find_component :
    List (Resource ComponentSpec) → String → Outcome (Resource ComponentSpec)
find_component [] name = err no_object
find_component (p ∷ ps) name = if p.meta.name =s name then ok p else find_component ps name

-- statuses go to the first component
abbrev pub put_component : Resource ComponentSpec → Site → Site
put_component t w = record w { components = t ∷ [] }

abbrev pub component_client : Client Site (Resource ComponentSpec)
component_client = record {
  get = λ namespace name w. find_component w.components name;
  list = λ namespace w. ok w.components;
  create = λ t. pure tt;
  update = λ t. pure tt;
  update_status = λ t w. (ok tt, put_component t w);
  delete = λ namespace name. pure tt;
}

-- a client for a kind of which there is nothing but what the state lists
abbrev pub listing : {T : Type 0} → (Site → List T) → Client Site T
listing items = record {
  get = λ namespace name w. err no_object;
  list = λ namespace w. ok (items w);
  create = λ t. pure tt;
  update = λ t. pure tt;
  update_status = λ t. pure tt;
  delete = λ namespace name. pure tt;
}

-- Every Secret is there, with the version of the state in it.
abbrev pub secret_of : String → String → Secret
secret_of name version = record {
  meta = record (object_meta name "ns" nil) {
    owner_references = controller_reference (object_meta "a" "ns" nil) ∷ [];
  };
  type = "Opaque";
  data_map = literal (("password", version) ∷ []);
}

abbrev pub site_secrets : Client Site Secret
site_secrets = record (listing (λ w. [])) {
  get = λ namespace name w. ok (secret_of name w.version);
}

-- a client for one object that has any name
abbrev pub the_only : {T : Type 0} → (Site → Option T) → (T → Site → Site) → Client Site T
the_only read write = record {
  get = λ namespace name w. elim (read w) [ none ↦ err no_object | some t ↦ ok t ];
  list = λ namespace w. ok [];
  create = λ t w. (ok tt, write t w);
  update = λ t w. (ok tt, write t w);
  update_status = λ t w. (ok tt, write t w);
  delete = λ namespace name. pure tt;
}

abbrev pub site_patches : {T : Type 0} → Patching T
site_patches = record {
  marshal = λ t. ok "{}";
  unmarshal = λ s. err no_object;
  strategic_merge_patch = λ base user. ok base;
}

abbrev pub site_cluster : Cluster Site
site_cluster = record {
  machinery = plain_machinery;
  services = record {
    object = service_object;
    client = the_only (λ w. w.service) (λ t w. record w { service = some t });
    same = λ a b. false;
  };
  secrets = record { object = secret_object; client = site_secrets; same = λ a b. true };
  config_maps = record {
    object = config_map_object;
    client = the_only (λ w. w.config_map) (λ t w. record w { config_map = some t });
    same = λ a b. false;
  };
  claims = record { object = pvc_object; client = listing (λ w. []); same = λ a b. false };
  deployments = record {
    object = deployment_object;
    client = the_only (λ w. w.deployment) (λ t w. record w { deployment = some t });
    same = λ a b. false;
  };
  stateful_sets = record {
    object = stateful_set_object;
    client = listing (λ w. []);
    same = λ a b. false;
  };
  tools = record {
    json = json_text;
    pods = site_patches;
    services = site_patches;
    claims = site_patches;
    digest = text_digest;
    assets = assets;
    cluster_domain = "cluster.local";
  };
  random = record { read = λ n. pure []; int = λ n. pure 0 };
  urls = record { url_string = λ scheme user password host path. host };
  encode = λ contents. ok (elim (contents "secret/main-password") [
    | none ↦ ""
    | some (secret_input m) ↦ text_at m "password"
    | some (config_input m b) ↦ ""
  ]);
  templates = record { parse = λ name text. ok text; execute = λ parsed given. ok parsed };
  keys = λ m. [];
}

abbrev pub site_component : Component Site (Resource ComponentSpec)
site_component = record {
  writer = record {
    machinery = plain_machinery;
    conditions = conditions;
    conditioned = resource_conditioned;
    client = component_client;
    same_status = λ a b. false;
  };
  project_ref = λ p. p.spec.project_ref;
  kind = "Auth";
  projects = the_only (λ w. w.project) (λ t w. record w { project = some t });
  databases = the_only (λ w. w.database) (λ t w. record w { database = some t });
}

abbrev pub the_component : Resource ComponentSpec
the_component = record {
  meta = object_meta "a" "ns" nil;
  spec = record { project_ref = "p"; pod = none; replicas = none; service = none; config = [] };
  conditions = [];
}

-- the Deployment of the component, rolled out
abbrev pub rolled_out : Deployment
rolled_out = record {
  meta = record (object_meta "a-auth" "ns" nil) {
    owner_references = controller_reference (object_meta "a" "ns" nil) ∷ [];
  };
  spec = record { replicas = some 1; selector = none; template = pod; strategy = ""; rest = "" };
  status = record { observed_generation = 0; ready_replicas = 1; updated_replicas = 1 };
}

abbrev pub site : Site
site = record {
  components = the_component ∷ [];
  auths = record the_component { meta = object_meta "auth" "ns" nil } ∷ [];
  project = some ready_project_of;
  database = some single_database;
  service = none;
  config_map = none;
  deployment = some rolled_out;
  version = "1";
}

-- the same while the Project is not ready
abbrev pub unready_project : Project
unready_project = record ready_project_of {
  status = record { conditions = []; jwt_sync_hash = ""; password_sync_hash = "" };
}

abbrev pub unready_site : Site
unready_site = record site { project = some unready_project }
