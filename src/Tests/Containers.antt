-- ===== src/Tests/Containers.antt =====
-- Examples for the pods and their scripts.
use alustan.Base.{refl, [], ◌∷◌, ◌≡◌}
use alustan.Containers.Script.{script_env}
use alustan.Containers.RunPod.{replace_pod}
use alustan.Containers.RunPod.Laws.{replace_pod-ok, IsReplaced}
use alustan.Tests.Fixtures.{calm, pod_in}
use alustan.Cluster.{pending}

script_env_test : script_env "setup -a b" ≡ ("SCRIPT", "./setup") ∷ ("ARGS", "-a b") ∷ []
unfolding script_env
script_env_test = refl

replace_pod-ok_example :
    ("shop-deploy-docker-run-pod" ≡ (pod_in pending).name)
    × IsReplaced calm "default"
        (pod_in pending)
        []
        (replace_pod calm "default" (pod_in pending) []).1
unfolding replace_pod
replace_pod-ok_example =
    replace_pod-ok calm "default" (pod_in pending) [] "shop-deploy-docker-run-pod" refl
