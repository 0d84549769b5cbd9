-- ===== src/Clusters/Deregistration/Waiting.antt =====
-- The ten minutes that a worker has to leave (service/cluster_service.go).
use kubeslice_controller.Resources.Cluster.{Cluster}
use kubeslice_controller.Platform.{Platform}
