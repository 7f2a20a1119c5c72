-- ===== src/Terraform.antt =====
-- pkg/infrastructure/terraform/terraform.go: applying, destroying and the post-deploy script.
pub mod Run
pub mod PostDeploy
pub mod Destroy
pub mod Execute
pub mod Termination
