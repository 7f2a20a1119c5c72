-- ===== src/Controller/Application/Converged.antt =====
-- What a work item of the application controller that ends well has done.
use alustan.Cluster.{History, apps}
use alustan.Types.{App, AppStatus}
use alustan.Kube.Retry.{Converter}
use alustan.Kube.Status.Laws.{IsStored}
use alustan.Controller.Worker.{Cache}
use alustan.Controller.Application.{Surroundings}

module _ {V : Type 0} (E : Surroundings V) (codec : Converter App) (cache : Cache) where
  -- The resource with this status, and its generation as the observed one.
  abbrev pub observed_with : App → AppStatus → App
  observed_with observed status = record observed {
    status = record status { observed_generation = observed.metadata.generation };
  }

  -- The resource is gone, or was read again and sent back with this status, which was
  -- acknowledged.
  abbrev pub IsRecorded : App → AppStatus → History → Type 0
  IsRecorded observed status h' =
      let set_status : App → App =
        λ a. record a { status = (observed_with observed status).status } in
      IsStored E.environment.cluster codec set_status apps observed.metadata.name
        observed.metadata.namespace h'
