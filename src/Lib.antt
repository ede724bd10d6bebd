-- ===== src/Lib.antt =====
-- A model of oc-mirror's file-based fork (golang-fb-mirror): the program that reads an image set
-- configuration, finds the release, operator and additional images that it asks for, and copies
-- them to disk or to a registry.
--
-- Parts and files
--   pkg/release: `Release`. Graph is the update graph, Client the queries to the server
--     (SetQueryParams, getGraphData), Search the breadth-first search inside GetUpdates, Updates
--     GetUpdates itself, Channels the queries for a channel (GetChannelMinOrMax, GetVersions,
--     GetChannels, GetUpdatesInRange, handleBlockedEdges), Names and Upgrades the way across
--     channels (getSemverFromChannels, calculate, CalculateUpgrades), Find FindRelease, and
--     Downloads GetReleaseReferenceImages, getChannelDownloads, getCrossChannelDownloads and
--     gatherUpdates. Signatures is GenerateReleaseSignatures.
--   pkg/manifest: `Manifest`. Versions is semverFindMax and semverFindRange, Related the choice of
--     bundles (getRelatedImageByDefaultChannel, getRelatedImageByFilter), Catalog the catalogs,
--     layers and releases on disk, Reader the readers of indices and manifests.
--   pkg/batch: `Batch`, the Worker that copies images in batches of eight goroutines; Batch.Race is
--     the goroutines of one batch, step by step; how long a copy takes, and whether it comes
--     back at all, is not part of it.
--   pkg/operator, pkg/additional, pkg/release/collector.go: `Collect`, what is copied where, and
--     `Names`, the parsers of image names. Collect.Catalogs is OperatorImageCollector,
--     Collect.Releases ReleaseImageCollector, Collect.Additional AdditionalImagesCollector, and
--     Collect.Interfaces the interfaces that they call.
--   pkg/config: `Config`, reading, defaults and validation.
--   pkg/diff: `Diff`. Sequence is the metadata file, Changes the comparison of two configurations,
--     Delete DeleteImages and WriteMetadata.
--   pkg/cli: `Cli`, the checks of the command line; Cli.Run is Complete, Run and the
--     command, and Cli.Program the whole program with the parts that Complete wires together.
--   pkg/mirror: `Options`, the option parsers, with Options.System the options and
--     NewSystemContext;
--     `Mirror`, what copy checks and does, with Mirror.Session as its specification, and
--     Mirror.Reexec the start in a user namespace.
--   pkg/api: `Api`, the structs, and Api.ImageTypes.
--   `Semver` states what the program relies on in github.com/blang/semver; `Base` holds strings,
--     maps, sorting results, and actions with a
--     trace of the calls outside (Base.Action). `Tests` runs the theorems at concrete inputs.
--
-- How the parts interact: the collectors ask Release and Manifest for images and turn them into
-- pairs of source and destination; Cli.Run calls them one after the other and gives their images to
-- Batch, which copies the pairs with Mirror. Diff compares the configuration with
-- that of the last run.
--
-- Conventions: a string is a list of bytes and a map an association list, so that the order in
-- which Go visits a map is fixed. A function that can fail returns `Result`, with the panics of an
-- index out of range; error texts and log output are left out. A client's URL is passed along
-- (`Release.Client.M`), from one channel to the next where the code keeps the client. An effect is a function of the state to a result and a state, with a trace
-- of the calls outside where their order matters (Base.Action). Indices into a graph are natural
-- numbers.
--
-- Fuel: the search has a round for the start and one for each edge, which is enough because each
-- round but the first takes a node that an edge leads to and that was not visited before. `worker`
-- has a call for the batches and one for the remainder, which is below the batch size. For
-- `calculate` and what calls it the fuel is an argument, one round for each minor version from that
-- of the source channel up to that of the target; towards a target that is not above the source the
-- code itself goes on until the server has no such channel.
--
-- Not modelled: HTTP, TLS, OpenPGP, JSON, YAML, TOML, archives, files and the packages of
-- containers/image, which are parameters; the declaration of the command's flags and the prompt for
-- a passphrase in pkg/mirror and pkg/cli, which only hand strings to libraries; pkg/log, and the
-- log files that the collectors write and show.
pub mod Api
pub mod Base
pub mod Batch
pub mod Cli
pub mod Collect
pub mod Config
pub mod Diff
pub mod Manifest
pub mod Mirror
pub mod Names
pub mod Options
pub mod Release
pub mod Semver
pub mod Tests
