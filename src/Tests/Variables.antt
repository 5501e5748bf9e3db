-- ===== src/Tests/Variables.antt =====
-- The theorem on environment variables at concrete lists.
use supabase_kubernetes.Helper.Env.{env_var}
use supabase_kubernetes.Helper.Env.Laws.{laid_over, names_of, merge_env_vars_lem}
use supabase_kubernetes.Helper.Env.Merge.{
  index_from, last_named, merge_env_vars, merge_from, set_at,
}
use supabase_kubernetes.Kube.Pod.{EnvVar}
use supabase_kubernetes.Prelude.{List, String, [], refl, ◌∷◌, ◌≡◌}

abbrev base_vars : List EnvVar
base_vars = env_var "A" "1" ∷ env_var "B" "1" ∷ []

abbrev overlay_vars : List EnvVar
overlay_vars = env_var "B" "2" ∷ env_var "C" "1" ∷ env_var "C" "2" ∷ []

merge_env_vars_example :
    ((name : String)
      → last_named name (merge_env_vars base_vars overlay_vars)
        ≡ laid_over (last_named name overlay_vars) (last_named name base_vars))
    × (names_of (merge_env_vars base_vars overlay_vars) ≡ "A" ∷ "B" ∷ "C" ∷ [])
unfolding env_var
merge_env_vars_example = merge_env_vars_lem base_vars overlay_vars

merged_vars :
    merge_env_vars base_vars overlay_vars ≡ env_var "A" "1" ∷ env_var "B" "2" ∷ env_var "C" "2" ∷ []
unfolding merge_env_vars index_from merge_from set_at env_var
merged_vars = refl
