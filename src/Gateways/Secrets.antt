-- ===== src/Gateways/Secrets.antt =====
-- DeleteSecret of service/secret_service.go.
use kubeslice_controller.Common.{String, [], Option, none, some}
use kubeslice_controller.Go.Effect.{M, ◌>>=◌, pure, asks}
use kubeslice_controller.Resources.Meta.{Secret, named}
use kubeslice_controller.Platform.{Platform, get_resource_if_exist, delete_resource}
use kubeslice_controller.Platform.Reporting.{Notice, reported}

module _ {W : Type 0} (platform : Platform W) where
  abbrev secret_deleted : Notice
  secret_deleted = record { event = "EventSecretDeleted"; action = "deleted" }

  abbrev secret_deletion_failed : Notice
  secret_deletion_failed = record {
    event = "EventSecretDeletionFailed";
    action = "deletion_failed";
  }

  abbrev delete_found : (namespace secret_name : String) → Option Secret → M W (Unit {0})
  delete_found namespace secret_name none = pure tt
  delete_found namespace secret_name (some found) = λ w.
      reported platform "secret" secret_deleted secret_deletion_failed found.metadata.name (
        delete_resource platform.secrets
          (record { metadata = named secret_name namespace []; secret_type = ""; contents = [] }) w)

  -- DeleteSecret
  unfoldable pub delete_secret : (namespace secret_name : String) → M W (Unit {0})
  delete_secret namespace secret_name = do
    found ← asks (
        get_resource_if_exist platform.secrets
          (record { namespace = namespace; name = secret_name }))
    delete_found namespace secret_name found
