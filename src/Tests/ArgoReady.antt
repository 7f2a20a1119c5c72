-- ===== src/Tests/ArgoReady.antt =====
-- Examples for the readiness of Argo CD.
use alustan.Base.{false, ok, [], ◌≡◌, refl}
use alustan.Cluster.{returns}
use alustan.ArgoReady.{is_argo_installed_and_ready}
use alustan.Tests.Fixtures.{calm}

-- The components are missing.
is_argo_installed_and_ready_test :
    (is_argo_installed_and_ready calm []).0 ≡ returns (ok (false, false))
unfolding is_argo_installed_and_ready
is_argo_installed_and_ready_test = refl
