-- ===== src/Startup.antt =====
-- The start of the program: the scheme (api/v1alpha1/groupversion_info.go), the options of the
-- manager (internal/manager/options.go), the registration of the reconciler (SetupWithManager of
-- internal/controller/paperlessinstance_controller.go) and the command (cmd/main.go).
pub mod Runtime
pub mod Options
pub mod Command
