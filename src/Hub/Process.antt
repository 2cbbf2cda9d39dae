-- ===== src/Hub/Process.antt =====
-- cmd/service-hub/main.go and pkg/about/about.go: how the process of a hub ends. The build replaces the
-- values of `version`, `gitCommit` and `buildTime` by others.
use Prim.Native.String.{◌++◌}
use fab_dns.Base.{ℕ, String, Bool, true, false}
use fab_dns.Hub.Options.{Options, Outcome, done, failed, panic}
use fab_dns.Hub.Startup.{Env, execute}

-- The variables of package about.
pub record About : Type 0 where
  pub version : String
  pub git_commit : String
  pub build_time : String

abbrev pub default_about : About
default_about = record {
  version = "0.0.0";
  git_commit = "00000000";
  build_time = "1970-01-01T00:00:00Z";
}

-- What `DisplayVersion` prints.
unfoldable pub display_version : About → String
display_version about =
    "Version: " ++ about.version ++ "\nBuildTime: " ++ about.build_time ++ "\nGitCommit: "
    ++ about.git_commit ++ "\n"

-- The exit code and what the program itself has printed, or a panic.
pub data Exit : Type 0 where
  exits : ℕ → String → Exit
  crashes : Exit

-- `DisplayAndExitIfRequested`, which `Execute` calls when the flags are parsed, with what follows it.
unfoldable pub display_and_exit_if_requested : About → (show_version : Bool) → Exit → Exit
unfolding display_version
display_and_exit_if_requested about true rest = exits 0 (display_version about)
display_and_exit_if_requested about false rest = rest

-- `main`, from what `Execute` returns on.
abbrev main_after : Outcome (Unit {0}) → Exit
main_after (done u) = exits 0 ""
main_after (failed e) = exits 1 ""
main_after panic = crashes

-- `main`, with the options and the flag of package about that have been parsed.
unfoldable pub main : Env → About → (show_version : Bool) → Options → Exit
unfolding display_and_exit_if_requested
main env about show_version opts =
    display_and_exit_if_requested about show_version (main_after (execute env opts))
