-- ===== src/Manifests/Examples.antt =====
-- The objects of one deployment with a database.
use vercel_clone.Prelude.{◌≡◌, refl, []}
use vercel_clone.Prelude.Text.{codes, text_key}
use vercel_clone.Prelude.Json.{Json}
use vercel_clone.Builder.Effects.{DeployInput, BuildJobInput}
use vercel_clone.Manifests.Tenant.{sanitize_label_value}
use vercel_clone.Manifests.App.{
  deployment_manifest, service_manifest, ingress_route_manifest, production_alias_manifest,
}

abbrev input : DeployInput
input = record {
  name = codes "blog-cafe1234";
  namespace = codes "paas-tenant-ada";
  slug = codes "blog";
  short_sha = codes "cafe1234";
  image = codes "registry/blog";
  deployment_id = codes "d1";
  commit_sha = codes "cafe123456";
  db_secret_name = codes "paas-db-blog";
  env_secret_name = [];
}

abbrev build : BuildJobInput
build = record {
  name = codes "build-d1";
  namespace = codes "paas-system";
  destination = codes "registry/blog";
  git_secret_name = codes "build-d1-git";
  deployment_id = codes "d1";
  project_slug = codes "blog";
}

label_sample : sanitize_label_value (codes "dependabot[bot]") ≡ codes "dependabotbot"
unfolding sanitize_label_value
label_sample = refl

abbrev service : Json
service =
    service_manifest (codes "blog-cafe1234") (codes "paas-tenant-ada") (codes "blog")
      (codes "cafe1234") 8080

abbrev route : Json
route =
    ingress_route_manifest (codes "blog-cafe1234") (codes "paas-tenant-ada")
      (codes "blog.example.com") (codes "blog") (codes "cafe1234")

abbrev alias : Json
alias =
    production_alias_manifest (codes "prod-blog") (codes "paas-tenant-ada") (codes "blog.spinup.in")
      (codes "blog-cafe1234") (codes "blog")

abbrev deployment : Json
deployment = deployment_manifest input 8080
