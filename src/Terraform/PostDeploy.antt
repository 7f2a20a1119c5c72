-- ===== src/Terraform/PostDeploy.antt =====
-- `runPostDeploy` and `convertToRawExtensionMap`.
pub mod Laws
use alustan.Base.{
  ℕ, String, Option, none, some, List, [], ◌∷◌, Result, ok, err, Error, errorf, new_error,
  StringMap, lookup, bind_result, map_error, starts_with, ◌<>◌, if◌then◌else◌,
}
use alustan.Value.{Value, Fields, end, field}
use alustan.Cluster.{Cluster, M, pure, lift, wrap, ◌>>=◌}
use alustan.Types.{Terraform, PostDeploy}
use alustan.Containers.Script.{with_dot_slash}
use alustan.Containers.RunPod.{create_or_update_run_pod}
use alustan.Containers.Wait.{extract_post_deploy_output}
use alustan.Terraform.Run.{RunArgs}

abbrev value_or_error : String → Option String → Result String
value_or_error key none = err (new_error ("environment variable " <> key <> " not found"))
value_or_error key (some value) = ok value

-- The flags of the script: one for each argument, with the value of its variable.
unfoldable pub format_args : StringMap String → StringMap String → Result (List String)
unfolding lookup
format_args env_vars [] = ok []
format_args env_vars ((flag, env_var_key) ∷ args) =
    bind_result (value_or_error env_var_key (lookup env_var_key env_vars)) λ value.
      bind_result (format_args env_vars args) λ rest. ok (("-" <> flag <> "=" <> value) ∷ rest)

-- `strings.Join(args, " ")`
unfoldable pub join_args : List String → String
join_args [] = ""
join_args (a ∷ []) = a
join_args (a ∷ b ∷ rest) = a <> " " <> join_args (b ∷ rest)

-- Go's `encoding/json`.
pub record Json : Type 0 where
  pub marshal : Value → Result String
  pub unmarshal_map : String → Result Fields

module _ (J : Json) where
  -- `convertToRawExtensionMap`
  unfoldable pub convert_to_raw_extension_map : Fields → Result (StringMap String)
  convert_to_raw_extension_map end = ok []
  convert_to_raw_extension_map (field key value fs) =
      bind_result
        (map_error (errorf ("error marshaling value for key " <> key <> " to JSON: "))
          (J.marshal value))
        λ raw. bind_result (convert_to_raw_extension_map fs) λ rest. ok ((key, raw) ∷ rest)

  -- `runPostDeploy`
  unfoldable pub run_post_deploy : Cluster → Terraform → RunArgs → ℕ → M (StringMap String)
  unfolding format_args join_args with_dot_slash
  run_post_deploy c observed run fuel = do
    let script_path = with_dot_slash observed.spec.post_deploy.script
    args ← lift (format_args run.env_vars observed.spec.post_deploy.args)
    pod_name ← wrap (errorf "failed to create post-deploy pod: ") (
        create_or_update_run_pod c observed.metadata.name observed.metadata.namespace
          (script_path <> " " <> join_args args) run.env_vars run.tagged_image_name run.secret_name
          "postdeploy")
    output ←
        wrap (errorf "error executing postDeploy script: ")
          (extract_post_deploy_output c observed.metadata.namespace pod_name J.unmarshal_map fuel)
    wrap (errorf "error converting postDeploy output: ")
        (lift (convert_to_raw_extension_map output))
