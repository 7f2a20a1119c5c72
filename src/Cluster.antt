-- ===== src/Cluster.antt =====
-- What stands outside the program: the Kubernetes API server, the Argo CD server, Helm and the image
-- registries. The environment answers each request by any function of the
-- requests sent before, so a theorem over every `Cluster` covers whatever the server, other
-- clients and failures do between two requests.
mod Objects
mod Monad
mod Invariants
mod Values
mod Termination
unfoldable pub use Objects.*
unfoldable pub use Monad.*
unfoldable pub use Invariants.*
unfoldable pub use Values.*
unfoldable pub use Termination.*
