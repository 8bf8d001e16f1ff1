-- ===== src/Tests/Updates.antt =====
-- The update of a daemon, at concrete inputs.
use gameapctl.Base.{
  List, Text, codes, true, false, not, ◌||◌, Option, none, some, [], ℕ, ok, err, is_empty, text_eq,
  trim_space, is_space, contains_char, split, length, ltb, ◌≡◌, ◌↔◌, refl,
}
use gameapctl.Tag.{
  normalize_tag, suffix_part, strip_v, normalize_stripped, matches_split, is_version_char,
  version_part, has_empty, by_segments,
}
use gameapctl.DaemonUpdate.{
  Event, Flags, InstallState, build_branch, choose_route, release_options, stored_github,
  no_process, running, complete, Machine, World, update_release, stop_daemon, start_daemon,
  make_backup, apply, revert, finish,
}
use gameapctl.DaemonUpdate.Options.{choose_route-build_branch, release_options-choose_route}
use gameapctl.DaemonUpdate.Outcomes.{IsUpdate, update_release-IsUpdate}
use gameapctl.DaemonUpdate.Source.{
  Build, built, start_error, handle_from_github, install_build, revert_from_backup,
}
use gameapctl.DaemonUpdate.Source.Builds.{IsBuilt, handle_from_github-IsBuilt}
use gameapctl.DaemonUpdate.Recorded.{update_release-version}

abbrev flags : Flags
flags = record { from_github = false; branch = []; version = codes "3.2.0-rc1" }

abbrev from_source : Option InstallState
from_source = some (record { from_github = true; branch = codes "develop" })

choose_route-build_branch_example :
    ((branch : Text) × (choose_route flags from_source ≡ ok (build_branch branch)))
    ↔ ((flags.version ≡ []) × ((flags.from_github || stored_github from_source) ≡ true))
choose_route-build_branch_example = choose_route-build_branch flags from_source

release_options-choose_route_example :
    (normalize_tag flags.version
      ≡ ok (record {
        full = (release_options (codes "v3.2.0-rc1") []).tag;
        prefix = (release_options (codes "v3.2.0-rc1") []).tag_prefix;
      }))
    × ((release_options (codes "v3.2.0-rc1") []).allow_prerelease
        ≡ not (is_empty (suffix_part (strip_v (trim_space flags.version)))))
unfolding choose_route normalize_tag trim_space is_space normalize_stripped matches_split
    contains_char strip_v is_version_char version_part has_empty split by_segments
release_options-choose_route_example =
    release_options-choose_route flags from_source (codes "v3.2.0-rc1") [] refl (λ e. cc)

-- The new binary, 2, does not start; the old one, 1, does.
abbrev machine : Machine ℕ
machine = record {
  stop = λ h. true;
  find_process = λ h. no_process;
  start = λ h. ltb 3 (length h);
  wait_for_process = λ h. running;
  copy = λ h. true;
  apply = λ h binary. complete;
  load_state = true;
  save_state = true;
}

abbrev installed : World ℕ
installed = record { binary = some 1; backup = none; version = codes "v3.1.0"; events = [] }

update_release-IsUpdate_example :
    IsUpdate machine
      (codes "v3.2.0")
      2
      installed
      (update_release machine (codes "v3.2.0") 2 installed)
update_release-IsUpdate_example = update_release-IsUpdate machine (codes "v3.2.0") 2 installed

-- The old binary is back, and the update counts as a success.
update_release-machine :
    ((update_release machine (codes "v3.2.0") 2 installed).0 ≡ ok tt)
    × ((update_release machine (codes "v3.2.0") 2 installed).1.binary ≡ some 1)
unfolding update_release stop_daemon start_daemon make_backup apply revert finish text_eq
update_release-machine = (refl, refl)

update_release-version_example :
    (update_release machine (codes "v3.2.0") 2 installed).1.version ≡ codes "v3.2.0"
update_release-version_example =
    update_release-version machine (codes "v3.2.0") (refl, refl, refl) 2 installed
      update_release-machine.0

-- The new binary, 2, of the build does not start.
abbrev from_branch : List Event → Build ℕ
from_branch h = built 2

handle_from_github-IsBuilt_example :
    IsBuilt machine true from_branch 1 (handle_from_github machine true from_branch installed)
handle_from_github-IsBuilt_example =
    handle_from_github-IsBuilt machine true from_branch 1 installed refl

-- In contrast to the update to a release, it counts as a failure.
handle_from_github-machine :
    (handle_from_github machine true from_branch installed).0 ≡ err start_error
unfolding handle_from_github install_build revert_from_backup stop_daemon start_daemon make_backup
    apply revert
handle_from_github-machine = refl
