-- ===== src/Lib.antt =====
-- Models and proofs for gameapctl, the command line tool that installs and updates the GameAP panel
-- and its daemon. The part that is modelled decides what to install and from where, and changes an
-- installed daemon or panel:
--
-- - Release (pkg/releasefinder/release_finder.go): the release lists of a repository, and the choice
--   of a release and its asset: findReleaseFromList is select_release, findReleaseByTagFromList is
--   select_by_tag, findReleaseFromSingleResponse is select_single, matchAsset is match_asset.
-- - Fetch (the same file): buildRequestURL, fetchRelease, handleErrorResponse, FindFromStaticList
--   (find_from_static_list), calculateWaitDuration and the retries of FindWithOptions
--   (find_with_options). The network, the clock, the context and the JSON decoder are the record Env,
--   whose answers depend on the number of the attempt.
-- - Tag (the same file): NormalizeTag, HasPrereleaseSuffix, IsMajorV3 and IsAtLeastV4_2.
-- - Source (pkg/releasesource): source.go and releasesource.go are Source and Source/Download,
--   the probes and the order of selector.go and cdn.go are Source/Order, and the lookup through the
--   ordered sources, findRelease, is Source/Find, which calls Fetch for each source. The field
--   `ordered` behind its sync.Once is passed as an Option.
-- - Service (pkg/service/service.go): the managers of services. A Shell gives the outcome of a command
--   by the commands before it.
-- - DaemonConfig (internal/pkg/daemon/config.go): the daemon's configuration; the YAML library is the
--   record Yaml.
-- - GrpcSwitch (internal/actions/daemon/update/switch_to_grpc.go): switchToGRPC, in stages that each
--   stand for the code up to the next point where it can roll back. What switchDeps injects is the
--   record Deps. It edits the file through DaemonConfig.
-- - DaemonUpdate (internal/actions/daemon/update/daemon_update.go): the options of Handle, which read
--   Tag, and the update to a release; DaemonUpdate/Source is handleFromGithub. The service operations
--   and the library selfupdate are the record Machine.
-- - Packages (pkg/package_manager/extended.go and fallback.go): the package manager that runs the steps
--   of a package's configuration around the one that it wraps, and the manager with a fallback. The
--   records Machine and Strategy are the system and the strategy of the distribution.
-- - EnvFile (internal/actions/panel/letsencrypt/letsencrypt.go): readEnv and writeEnv on the text of
--   config.env, with the limit that bufio.Scanner sets to a line; the map of the updates is a list of
--   entries, which putting keeps distinct.
-- - LetsEncrypt (setup.go and disable.go beside it): the parameters, the prompts and the checks, and in
--   LetsEncrypt/Commands the two commands, which read and write through EnvFile.
-- - Scopes (pkg/gameap/scope.go, panel_paths_unix.go, internal/pkg/panel/scope.go): the scope of an
--   installation and its paths.
-- - PanelUpdate (internal/actions/panel/update/panel_update_v4.go): the update of the panel to a release
--   from the stop on, with the record Machine for the calls and World for the files and the service;
--   PanelUpdate/Github is handleV4FromGithub, PanelUpdate/Health the endpoint of the health checks, and
--   PanelUpdate/Routes the choice of the update in panel_update.go.
-- - PanelMigration (internal/actions/panel/update/panel_update_v3_to_v4.go): handleV3toV4 in stages with
--   its rollback, where each call of Machine sees the number of the calls before it, and in
--   PanelMigration/Config the configuration of v4 that is made from the one of v3.
-- - Replacements (internal/pkg/daemon/repository_replacements.go): the entries for unreachable CDNs, put
--   into the configuration through DaemonConfig, with the value at their key as the library shows it.
-- - Apt (pkg/package_manager/apt_strategy.go): what is done around apt's installations; the record System
--   is apt and the commands. The loop of findPHPPackages takes its number of rounds, of which two are
--   enough on Ubuntu and Debian. Apt/Strategy is what transformPreInstallPackages and preRemove do,
--   and Apt/Lists is apt_search.go beside it: the parser of apt's lists, from their lines, and the search.
-- - Connect (internal/actions/daemon/install/connect_url.go and resolve_address.go): the connect URL,
--   Connect/Candidates the hosts that are tried in its place, and Connect/Resolve the choice. The record
--   Net is the network, its certificates and their addresses.
--
-- Base holds the shared names, tests, lists, results and strings, and Tests the runs at concrete
-- inputs. Each component's proofs stand in the modules below it.
--
-- Bounds: the retries of FindWithOptions are counted down from five, and the attempts of the polling
-- loop from ten, and the health checks of the panel from five, as in the code; no other definition runs on fuel. Durations and times are natural
-- numbers of nanoseconds, and a wait that is not positive counts as 0. strconv.Atoi refuses what does
-- not fit 64 bits.
--
-- Not modelled: log output and the texts of error messages; the installation of the panel and of the
-- daemon, the other package managers, the web interface and the detection of the
-- system; the Windows service manager. The timeout of one minute around each source's search is a
-- context that may be done, and shows in the network of that source.
pub mod Base
pub mod Release
pub mod Fetch
pub mod Source
pub mod Tag
pub mod Service
pub mod EnvFile
pub mod LetsEncrypt
pub mod Apt
pub mod PanelMigration
pub mod Connect
pub mod PanelUpdate
pub mod Scopes
pub mod Replacements
pub mod DaemonConfig
pub mod GrpcSwitch
pub mod DaemonUpdate
pub mod Packages
pub mod Tests
