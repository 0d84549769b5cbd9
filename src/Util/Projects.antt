-- ===== src/Util/Projects.antt =====
-- The names of projects, their namespaces and their default slices (util/reconciliation_utility.go,
-- util/constants.go).
use kubeslice_controller.Common.{String, Bool, List, ◌∷◌, ◌==◌}
use kubeslice_controller.Go.Text.{◌<>◌, split}
use kubeslice_controller.Resources.Meta.{Namespace, label}

second : List String → String
second (x ∷ y ∷ rest) = y
second _ = ""

-- GetProjectName
unfoldable pub get_project_name : String → String
unfolding second
get_project_name namespace = second (split namespace "kubeslice-")

-- fmt.Sprintf(DefaultProjectSliceName, projectName)
abbrev pub default_slice_name : String → String
default_slice_name project_name = project_name <> "-default-slice"

-- CheckForProjectNamespace
unfoldable pub check_for_project_namespace : Namespace → Bool
check_for_project_namespace namespace =
    label namespace.metadata "kubeslice-controller-resource-name" == "Project-" <> namespace.name
