-- ===== src/Manifests/Build.antt =====
-- The Job of a build (control-plane/builder.go). The shell script of its clone step is an argument.
use vercel_clone.Prelude.{true, [], ◌∷◌, ◌++◌}
use vercel_clone.Prelude.Text.{Text, codes}
use vercel_clone.Prelude.Json.{Json, str, num, bool, object, array, text, ◌⇒◌}
use vercel_clone.Builder.Effects.{BuildJobInput}
use vercel_clone.Manifests.App.{docker_cfg_secret}

abbrev pub workspace_mount : Json
workspace_mount = object ("name" ⇒ text "workspace" ∷ "mountPath" ⇒ text "/workspace" ∷ [])

abbrev pub docker_cfg_mount : Json
docker_cfg_mount = object (
    "name" ⇒ text "docker-config"
    ∷ "mountPath" ⇒ text "/kaniko/.docker"
    ∷ "readOnly" ⇒ bool true
    ∷ [])

abbrev pub clone_container : Text → BuildJobInput → Json
clone_container script i = object (
    "name" ⇒ text "clone"
    ∷ "image" ⇒ text "alpine/git:latest"
    ∷ "command" ⇒ array (text "sh" ∷ text "-c" ∷ str script ∷ [])
    ∷ "envFrom"
      ⇒ array (object ("secretRef" ⇒ object ("name" ⇒ str i.git_secret_name ∷ []) ∷ []) ∷ [])
    ∷ "volumeMounts" ⇒ array (workspace_mount ∷ [])
    ∷ "resources"
      ⇒ object (
          "requests" ⇒ object ("cpu" ⇒ text "50m" ∷ "memory" ⇒ text "64Mi" ∷ [])
          ∷ "limits" ⇒ object ("cpu" ⇒ text "500m" ∷ "memory" ⇒ text "256Mi" ∷ [])
          ∷ [])
    ∷ [])

abbrev pub kaniko_container : BuildJobInput → Json
kaniko_container i = object (
    "name" ⇒ text "kaniko"
    ∷ "image" ⇒ text "gcr.io/kaniko-project/executor:v1.23.2"
    ∷ "args"
      ⇒ array (
          text "--context=dir:///workspace"
          ∷ text "--dockerfile=Dockerfile"
          ∷ str (codes "--destination=" ++ i.destination)
          ∷ text "--insecure"
          ∷ text "--snapshot-mode=redo"
          ∷ text "--use-new-run"
          ∷ text "--cache=false"
          ∷ text "--verbosity=info"
          ∷ [])
    ∷ "volumeMounts" ⇒ array (workspace_mount ∷ docker_cfg_mount ∷ [])
    ∷ "resources"
      ⇒ object (
          "requests" ⇒ object ("cpu" ⇒ text "1" ∷ "memory" ⇒ text "1536Mi" ∷ [])
          ∷ "limits" ⇒ object ("cpu" ⇒ text "2" ∷ "memory" ⇒ text "4Gi" ∷ [])
          ∷ [])
    ∷ [])

abbrev pub build_volumes : Json
build_volumes = array (
    object ("name" ⇒ text "workspace" ∷ "emptyDir" ⇒ object [] ∷ [])
    ∷ object (
        "name" ⇒ text "docker-config"
        ∷ "secret"
          ⇒ object (
              "secretName" ⇒ docker_cfg_secret
              ∷ "items"
                ⇒ array (
                    object ("key" ⇒ text ".dockerconfigjson" ∷ "path" ⇒ text "config.json" ∷ [])
                    ∷ [])
              ∷ [])
        ∷ [])
    ∷ [])

abbrev pub build_job_manifest : Text → BuildJobInput → Json
build_job_manifest script i = object (
    "apiVersion" ⇒ text "batch/v1"
    ∷ "kind" ⇒ text "Job"
    ∷ "metadata"
      ⇒ object (
          "name" ⇒ str i.name
          ∷ "namespace" ⇒ str i.namespace
          ∷ "labels"
            ⇒ object (
                "app.kubernetes.io/component" ⇒ text "build"
                ∷ "app.kubernetes.io/managed-by" ⇒ text "control-plane"
                ∷ "paas.deployment" ⇒ str i.deployment_id
                ∷ "paas.project" ⇒ str i.project_slug
                ∷ [])
          ∷ [])
    ∷ "spec"
      ⇒ object (
          "backoffLimit" ⇒ num 0
          ∷ "activeDeadlineSeconds" ⇒ num 1200
          ∷ "ttlSecondsAfterFinished" ⇒ num 1800
          ∷ "template"
            ⇒ object (
                "metadata"
                  ⇒ object (
                      "labels"
                        ⇒ object (
                            "app.kubernetes.io/component" ⇒ text "build"
                            ∷ "paas.deployment" ⇒ str i.deployment_id
                            ∷ [])
                      ∷ [])
                ∷ "spec"
                  ⇒ object (
                      "restartPolicy" ⇒ text "Never"
                      ∷ "volumes" ⇒ build_volumes
                      ∷ "initContainers" ⇒ array (clone_container script i ∷ [])
                      ∷ "containers" ⇒ array (kaniko_container i ∷ [])
                      ∷ [])
                ∷ [])
          ∷ [])
    ∷ [])
