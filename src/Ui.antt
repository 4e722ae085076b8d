-- ===== src/Ui.antt =====
-- ui/app_common.go: what the window of the program asks for.
pub mod Jobs
pub mod Uploads
