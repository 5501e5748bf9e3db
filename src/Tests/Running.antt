-- ===== src/Tests/Running.antt =====
-- Runs of components, and what StampInputs reads, at a concrete cluster.
use supabase_kubernetes.Api.Components.{ComponentSpec, Resource}
use supabase_kubernetes.Api.Projects.{Project, project_conditioned}
use supabase_kubernetes.Controller.Common.{finished, put_status}
use supabase_kubernetes.Controller.Component.{
  check_unique, list_referring, ready, referring, resolve_database, start, start_found,
  with_project, with_resolved,
}
use supabase_kubernetes.Controller.Component.Plain.{
  auth_parts, plain_tasks, reconcile_plain, reconcile_resolved, reconcile_started, state_of,
}
use supabase_kubernetes.Controller.Component.Plain.Finished.{IsDeployed, reconcile_plain-finished}
use supabase_kubernetes.Controller.Component.Plain.Suspended.{reconcile_plain-suspended}
use supabase_kubernetes.Controller.Component.Rollout.{check_deployment, deployment_ready}
use supabase_kubernetes.Controller.Component.Run.{
  conclude, ensure, ensure_object, ensure_stamped, reconcile_deployment, reconcile_service,
  run_tasks,
}
use supabase_kubernetes.Controller.Component.Stamp.{
  Contents, Encoding, note_containers, note_env, note_env_from, note_input, note_key, note_object,
  note_source, note_volumes, pod_inputs, read_contents, read_inputs, stamp_inputs, stamped,
}
use supabase_kubernetes.Controller.Component.Stamp.Laws.{secret_entry, stamp_inputs_detects}
use supabase_kubernetes.Database.{resolve_ref, resolve_single_database}
use supabase_kubernetes.Defaults.Assets.{job_pod}
use supabase_kubernetes.Defaults.Component.{built_deployment, built_service, password_env_var}
use supabase_kubernetes.Defaults.Component.Auth.{
  auth_deployment, auth_probe_handler, auth_service, build_auth_container, build_auth_env_vars,
}
use supabase_kubernetes.Defaults.Context.{new_context}
use supabase_kubernetes.Defaults.Project.{jwt_secret_name}
use supabase_kubernetes.Go.Exec.Keeps.{Keeps}
use supabase_kubernetes.Go.GoMap.{index, nil}
use supabase_kubernetes.Go.Outcome.{Outcome, ok}
use supabase_kubernetes.Helper.Env.{env_var, env_var_from_secret}
use supabase_kubernetes.Helper.Env.Merge.{index_from, merge_env_vars, merge_from, set_at}
use supabase_kubernetes.Helper.Overlay.{overlay, overlay_service}
use supabase_kubernetes.Kube.Pod.{PodTemplateSpec}
use supabase_kubernetes.Prelude.{
  Option, String, [], ap, false, inl, inr, none, refl, some, sym, ◌∙◌, ◌∷◌, ◌≡◌,
}
use supabase_kubernetes.Reconciler.Ensure.{
  belongs_to_another, check_existing, create_missing, ensure_resource, is_foreign, own,
  ownership_error, update_existing,
}
use supabase_kubernetes.Reconciler.Mutate.Pods.{
  blank_container, existing_by_name, merge_container, merge_containers, merge_named, merge_pod_spec,
  merge_pod_template_spec, merge_probe,
}
use supabase_kubernetes.Reconciler.Mutate.Service.{
  find_service_port, mutate_service, preserve_port_defaults, preserve_service_defaults,
}
use supabase_kubernetes.Reconciler.Mutate.Workloads.{mutate_deployment}
use supabase_kubernetes.Reconciler.Status.{
  set_not_ready, set_ready, update_status, update_status_once,
}
use supabase_kubernetes.Reconciler.Status.Laws.{is_ready}
use supabase_kubernetes.Reconciler.StringMap.{merge_string_maps}
use supabase_kubernetes.Tests.Objects.{text_digest}
use supabase_kubernetes.Tests.Site.{
  Site, component_client, rolled_out, secret_of, site, site_cluster, site_component, site_secrets,
  the_component, unready_site,
}
use supabase_kubernetes.Tests.World.{conditions}

abbrev after_auth : Site
after_auth = (reconcile_plain site_cluster site_component auth_parts "ns" "a" site).1

auth_run :
    reconcile_plain site_cluster site_component auth_parts "ns" "a" site ≡ (ok finished, after_auth)
unfolding reconcile_plain reconcile_started reconcile_resolved start start_found with_project
    list_referring referring check_unique resolve_database resolve_ref resolve_single_database
    with_resolved plain_tasks state_of new_context conclude run_tasks reconcile_service
    ensure_object ensure ensure_resource own check_existing ownership_error update_existing
    create_missing is_foreign belongs_to_another auth_service built_service overlay_service
    mutate_service preserve_service_defaults preserve_port_defaults find_service_port
    reconcile_deployment ensure_stamped auth_deployment built_deployment build_auth_env_vars overlay
    stamp_inputs read_contents read_inputs pod_inputs note_volumes note_containers note_env
    note_env_from note_source note_key note_object note_input merge_env_vars index_from merge_from
    set_at mutate_deployment merge_pod_template_spec merge_pod_spec merge_containers merge_named
    existing_by_name merge_container merge_probe merge_string_maps deployment_ready check_deployment
    ready put_status update_status update_status_once set_ready build_auth_container
    auth_probe_handler env_var env_var_from_secret password_env_var jwt_secret_name
auth_run = refl

reconcile_plain-finished_example :
    IsDeployed site_cluster site_component auth_parts "ns" "a" the_component site after_auth
reconcile_plain-finished_example =
    reconcile_plain-finished site_cluster site_component auth_parts "ns" "a" the_component site
      after_auth refl refl auth_run

-- a write of a status of a component leaves the Deployment
deployment-Keeps :
    (obj latest : Resource ComponentSpec) (reason message : String)
    → Keeps
        (λ (w : Site). w.deployment ≡ some rolled_out)
        (component_client.update_status (
          site_component.writer.conditioned.copy_status
            (set_not_ready site_component.writer.conditioned site_component.writer.conditions obj
              reason message)
            latest))
deployment-Keeps obj latest reason message = record { at = λ w h. h }

reconcile_plain-suspended_example :
    (reconcile_plain site_cluster site_component auth_parts "ns" "a" unready_site).1.deployment
    ≡ some rolled_out
reconcile_plain-suspended_example =
    reconcile_plain-suspended site_cluster site_component auth_parts "ns" "a" the_component
      unready_site deployment-Keeps refl unready refl
  where
    value_of : {x y : Project} → ◌≡◌ {A = Outcome Project} (ok x) (ok y) → x ≡ y
    value_of h = cc

    unready :
        (project : Project)
        → site_component.projects.get "ns" "p" unready_site ≡ ok project
        → is_ready project_conditioned conditions project ≡ false
    unready project read = ap (is_ready project_conditioned conditions) (sym (value_of read))

-- A pod with one variable from the Secret of the database.
abbrev reading_pod : PodTemplateSpec
reading_pod =
    job_pod nil
      (record (blank_container "x") {
        env =
            record {
              name = "P";
              value = "";
              value_from = some (record {
                secret_key_ref =
                    some (record { name = "main-password"; key = "password"; optional = none });
                config_map_key_ref = none;
                rest = "";
              });
            }
            ∷ [];
      })
      []

-- an encoding of the password alone, and what it shows
abbrev encode_entry : Option String → String
encode_entry none = ""
encode_entry (some p) = String.◌∷◌ "v" p

abbrev shown_entry : String → Option String
shown_entry String.[] = none
shown_entry (String.◌∷◌ c s) = some s

abbrev encode_password : Encoding
encode_password contents = ok (encode_entry (secret_entry "main-password" "password" contents))

shown_lem : (o : Option String) → shown_entry (encode_entry o) ≡ o
shown_lem none = refl
shown_lem (some p) = refl

shows_password :
    (contents : Contents) (t : String)
    → encode_password contents ≡ ok t
    → shown_entry t ≡ secret_entry "main-password" "password" contents
shows_password contents t e =
    ap shown_entry (sym (text_of e)) ∙ shown_lem (secret_entry "main-password" "password" contents)
  where
    text_of : {a b : String} → ◌≡◌ {A = Outcome String} (ok a) (ok b) → a ≡ b
    text_of h = cc

-- the cluster before and after a run for the component
abbrev stamp_at : Site → Outcome PodTemplateSpec
stamp_at =
    stamp_inputs site_secrets site_cluster.config_maps.client encode_password text_digest "ns"
      reading_pod

abbrev stamped_pod : PodTemplateSpec
stamped_pod = stamped reading_pod "v1"

stamp_before : stamp_at site ≡ ok stamped_pod
unfolding stamp_inputs read_contents read_inputs pod_inputs note_volumes note_containers note_env
    note_env_from note_source note_key note_input
stamp_before = refl

stamp_after : stamp_at unready_site ≡ ok stamped_pod
unfolding stamp_inputs read_contents read_inputs pod_inputs note_volumes note_containers note_env
    note_env_from note_source note_key note_input
stamp_after = refl

stamp_inputs_detects_example :
    index (secret_of "main-password" "1").data_map "password"
    ≡ index (secret_of "main-password" "1").data_map "password"
stamp_inputs_detects_example =
    stamp_inputs_detects site_secrets site_cluster.config_maps.client "ns" reading_pod
      encode_password text_digest "main-password" "password" shown_entry site unready_site
      stamped_pod stamped_pod (secret_of "main-password" "1") (secret_of "main-password" "1")
      shows_password (λ t t' e e' h. h) (inr (inl (inl (inl refl)))) refl refl stamp_before
      stamp_after refl
