-- ===== src/Terraform/PostDeploy/Laws.antt =====
-- The flags of the post-deploy script against the variables of the run.
use alustan.Base.{
  inr, true, ℕ, inl, is_some, ◌<>◌, map, Result-cases, All, String, ◌≡◌, refl, List, [], ◌∷◌, ok,
  arith, StringMap, lookup, Error, err,
}
use alustan.Cluster.{Cluster, History, returns}
use alustan.Terraform.PostDeploy.{format_args, run_post_deploy, Json}
use alustan.Types.{Terraform}
use alustan.Terraform.Run.{RunArgs}
use alustan.Containers.Script.{args_or_empty}

-- Every argument names a variable of the run.
abbrev pub AllBound : StringMap String → StringMap String → Type 0
AllBound env_vars args =
    All (λ (arg : String × String). is_some (lookup arg.1 env_vars) ≡ true) args

-- The flag that an argument becomes.
abbrev pub flag_of : StringMap String → String × String → String
flag_of env_vars (flag, key) = "-" <> flag <> "=" <> args_or_empty (lookup key env_vars)

-- The flags are built exactly when every argument names a variable: then there is one flag for each
-- argument, in order, with the value of its variable; otherwise the result is an error.
format_args-bound :
    (env_vars args : StringMap String)
    → AllBound env_vars args
    → format_args env_vars args ≡ ok (map (flag_of env_vars) args)
unfolding format_args
format_args-bound env_vars [] h = refl
format_args-bound env_vars ((flag, key) ∷ args) (here, rest) =
    ground (arith, format_args-bound env_vars args rest)

format_args-ok :
    (env_vars args : StringMap String) (flags : List String)
    → format_args env_vars args ≡ ok flags
    → AllBound env_vars args
unfolding format_args
format_args-ok env_vars [] flags h = tt
format_args-ok env_vars ((flag, key) ∷ args) flags h =
    elim (Result-cases (format_args env_vars args)) [
      | inl (rest, e) ↦ (ground arith, format_args-ok env_vars args rest e)
      | inr (x, e) ↦ absurd (ground arith)
    ]

-- runPostDeploy sends no request unless every argument of the script names a variable of the run.
pub run_post_deploy-unbound :
    (J : Json) (c : Cluster) (observed : Terraform) (run : RunArgs) (fuel : ℕ) (h : History)
    → ¬ AllBound run.env_vars observed.spec.post_deploy.args
    → (e : Error) × (run_post_deploy J c observed run fuel h ≡ (returns (err e), h))
unfolding run_post_deploy
run_post_deploy-unbound J c observed run fuel h missing =
    elim (Result-cases (format_args run.env_vars observed.spec.post_deploy.args)) [
      | inl (flags, e) ↦
          absurd (missing (format_args-ok run.env_vars observed.spec.post_deploy.args flags e))
      | inr (x, e) ↦ (x, rw e refl)
    ]
