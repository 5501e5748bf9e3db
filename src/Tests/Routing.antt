-- ===== src/Tests/Routing.antt =====
-- Runs of an Analytics and of an Envoy at a concrete cluster.
use supabase_kubernetes.Api.Common.{database_ref_eq}
use supabase_kubernetes.Api.Components.{AnalyticsSpec, EnvoySpec, Resource}
use supabase_kubernetes.Api.Projects.{Project}
use supabase_kubernetes.Controller.Analytics.{
  analytics_password, analytics_resolved, analytics_started, analytics_tasks, by_conflict,
  check_database_conflict, conflict_among, mutate_analytics_secret, reconcile_analytics,
  reconcile_analytics_secret,
}
use supabase_kubernetes.Controller.Analytics.Alone.{IsAlone, reconcile_analytics-finished}
use supabase_kubernetes.Controller.Common.{finished, put_status}
use supabase_kubernetes.Controller.Component.{
  Component, check_unique, list_optional, list_referring, only_item, ready, referring,
  resolve_database, start, start_found, with_project, with_resolved,
}
use supabase_kubernetes.Controller.Component.Plain.{state_of}
use supabase_kubernetes.Controller.Component.Rollout.{check_deployment, deployment_ready}
use supabase_kubernetes.Controller.Component.Run.{
  conclude, ensure, ensure_object, ensure_stamped, reconcile_deployment, reconcile_service,
  run_tasks,
}
use supabase_kubernetes.Controller.Component.Stamp.{
  note_containers, note_env, note_env_from, note_input, note_key, note_object, note_source,
  note_sources, note_volumes, pod_inputs, read_contents, read_inputs, stamp_inputs,
}
use supabase_kubernetes.Controller.Envoy.{
  Routed, applied_to, dependencies, dependency, ensured_config_map, ensured_secret, envoy_gathered,
  envoy_started, envoy_tasks, gather, reconcile_envoy, reconcile_envoy_config_map,
  reconcile_envoy_secret,
}
use supabase_kubernetes.Controller.Envoy.Finished.{IsRouted, reconcile_envoy-finished}
use supabase_kubernetes.Database.{resolve_ref, resolve_single_database}
use supabase_kubernetes.Defaults.Component.{built_deployment, built_service, password_env_var}
use supabase_kubernetes.Defaults.Component.Analytics.{
  analytics_auth_secret, analytics_auth_secret_name, analytics_deployment, analytics_env_vars,
  analytics_probe, analytics_service, build_analytics_container, join_host_port,
}
use supabase_kubernetes.Defaults.Component.Envoy.{
  build_envoy_env_vars, build_envoy_init_container, envoy_config_map_name, envoy_deployment,
  envoy_pod, envoy_secret, envoy_secret_name, envoy_service,
}
use supabase_kubernetes.Defaults.Component.Envoy.Routes.{
  envoy_config_map, render_envoy_config_map_data, render_envoy_template,
}
use supabase_kubernetes.Defaults.Context.{component_name, new_context}
use supabase_kubernetes.Defaults.Project.{jwt_secret_name}
use supabase_kubernetes.Go.GoMap.{nil}
use supabase_kubernetes.Go.Outcome.{ok}
use supabase_kubernetes.Go.Strings.{sort_strings}
use supabase_kubernetes.Helper.Env.{env_var, env_var_from_secret}
use supabase_kubernetes.Helper.Env.Hash.{config_map_hash, hash_of, hashed_entries, secret_hash}
use supabase_kubernetes.Helper.Env.Merge.{index_from, merge_env_vars, merge_from, set_at}
use supabase_kubernetes.Helper.Name.{resource_name}
use supabase_kubernetes.Helper.Overlay.{overlay, overlay_service}
use supabase_kubernetes.Helper.Random.{
  char_at?, encode_to_string, generate_random_alphanumeric, generate_random_hex, put_char,
}
use supabase_kubernetes.Kube.Meta.{object_meta}
use supabase_kubernetes.Prelude.{[], if◌then◌else◌, refl, ◌=s◌, ◌∷◌, ◌≡◌}
use supabase_kubernetes.Reconciler.Ensure.{
  belongs_to_another, check_existing, create_missing, ensure_resource, is_foreign, own,
  ownership_error, update_existing,
}
use supabase_kubernetes.Reconciler.Mutate.Pods.{
  existing_by_name, merge_container, merge_containers, merge_named, merge_pod_spec,
  merge_pod_template_spec, merge_probe,
}
use supabase_kubernetes.Reconciler.Mutate.Service.{
  find_service_port, mutate_service, preserve_port_defaults, preserve_service_defaults,
}
use supabase_kubernetes.Reconciler.Mutate.Simple.{copy_missing, mutate_config_map, mutate_secret}
use supabase_kubernetes.Reconciler.Mutate.Workloads.{mutate_deployment}
use supabase_kubernetes.Reconciler.Status.{set_ready, update_status, update_status_once}
use supabase_kubernetes.Reconciler.StringMap.{merge_string_maps}
use supabase_kubernetes.Tests.Namespace.{ready_project_of}
use supabase_kubernetes.Tests.Site.{
  Site, listing, site, site_cluster, site_component, the_component,
}

-- a second Project, with another database
abbrev other_project : Project
other_project = record ready_project_of {
  spec = record ready_project_of.spec {
    database_ref = record { kind = "SingleDatabase"; name = "second" };
  };
}

abbrev analytics_component : Component Site (Resource AnalyticsSpec)
analytics_component = record site_component {
  kind = "Analytics";
  projects = record site_component.projects {
    get = λ namespace name w. if name =s "q" then ok other_project else ok ready_project_of;
  };
}

-- two Analytics, of two Projects
abbrev two_analytics : Site
two_analytics = record site {
  components =
      the_component
      ∷ record the_component {
        meta = object_meta "b" "ns" nil;
        spec = record the_component.spec { project_ref = "q" };
      }
      ∷ [];
}

abbrev after_analytics : Site
after_analytics = (reconcile_analytics site_cluster analytics_component "ns" "a" two_analytics).1

analytics_run :
    reconcile_analytics site_cluster analytics_component "ns" "a" two_analytics
    ≡ (ok finished, after_analytics)
unfolding start start_found with_project list_referring referring check_unique resolve_database
    resolve_ref resolve_single_database with_resolved state_of new_context conclude run_tasks
    reconcile_service ensure_object ensure ensure_resource own check_existing ownership_error
    update_existing create_missing is_foreign belongs_to_another built_service overlay_service
    mutate_service preserve_service_defaults preserve_port_defaults find_service_port
    reconcile_deployment ensure_stamped built_deployment overlay stamp_inputs read_contents
    read_inputs pod_inputs note_volumes note_sources note_containers note_env note_env_from
    note_source note_key note_object note_input merge_env_vars index_from merge_from set_at
    mutate_deployment merge_pod_template_spec merge_pod_spec merge_containers merge_named
    existing_by_name merge_container merge_probe merge_string_maps deployment_ready check_deployment
    ready put_status update_status update_status_once set_ready env_var env_var_from_secret
    password_env_var jwt_secret_name reconcile_analytics analytics_started check_database_conflict
    conflict_among database_ref_eq by_conflict analytics_resolved analytics_tasks
    reconcile_analytics_secret analytics_password analytics_auth_secret generate_random_hex
    encode_to_string mutate_analytics_secret mutate_secret copy_missing analytics_service
    analytics_deployment analytics_env_vars build_analytics_container analytics_probe join_host_port
    analytics_auth_secret_name component_name resource_name
analytics_run = refl

reconcile_analytics-finished_example :
    IsAlone site_cluster analytics_component "ns" "a" the_component two_analytics after_analytics
reconcile_analytics-finished_example =
    reconcile_analytics-finished site_cluster analytics_component "ns" "a" the_component
      two_analytics after_analytics refl refl analytics_run

-- An Envoy beside an Auth.
abbrev routed : Routed Site
routed = record {
  auths = listing (λ w. w.auths);
  rests = listing (λ w. []);
  metas = listing (λ w. []);
  realtimes = listing (λ w. []);
  storages = listing (λ w. []);
  studios = listing (λ w. []);
  edge_runtimes = listing (λ w. []);
}

abbrev envoy_component : Component Site (Resource EnvoySpec)
envoy_component = record site_component { kind = "Envoy" }

abbrev after_envoy : Site
after_envoy = (reconcile_envoy site_cluster envoy_component routed "ns" "a" site).1

envoy_run :
    reconcile_envoy site_cluster envoy_component routed "ns" "a" site ≡ (ok finished, after_envoy)
unfolding start start_found with_project list_referring referring check_unique resolve_database
    resolve_ref resolve_single_database with_resolved state_of new_context conclude run_tasks
    reconcile_service ensure_object ensure ensure_resource own check_existing ownership_error
    update_existing create_missing is_foreign belongs_to_another built_service overlay_service
    mutate_service preserve_service_defaults preserve_port_defaults find_service_port
    reconcile_deployment ensure_stamped built_deployment overlay stamp_inputs read_contents
    read_inputs pod_inputs note_volumes note_sources note_containers note_env note_env_from
    note_source note_key note_object note_input merge_env_vars index_from merge_from set_at
    mutate_deployment merge_pod_template_spec merge_pod_spec merge_containers merge_named
    existing_by_name merge_container merge_probe merge_string_maps deployment_ready check_deployment
    ready put_status update_status update_status_once set_ready env_var env_var_from_secret
    password_env_var jwt_secret_name reconcile_envoy envoy_started gather dependencies dependency
    applied_to list_optional only_item envoy_gathered reconcile_envoy_secret ensured_secret
    reconcile_envoy_config_map ensured_config_map envoy_secret generate_random_alphanumeric put_char
    char_at? mutate_secret copy_missing secret_hash config_map_hash hash_of sort_strings
    hashed_entries envoy_config_map render_envoy_config_map_data render_envoy_template
    mutate_config_map envoy_tasks envoy_service envoy_deployment build_envoy_env_vars
    build_envoy_init_container envoy_pod envoy_secret_name envoy_config_map_name component_name
    resource_name
envoy_run = refl

reconcile_envoy-finished_example :
    IsRouted site_cluster envoy_component routed "ns" "a" the_component site after_envoy
reconcile_envoy-finished_example =
    reconcile_envoy-finished site_cluster envoy_component routed "ns" "a" the_component site
      after_envoy refl refl envoy_run
