-- ===== src/Lib.antt =====
-- A verification library for dalec-homebrew, a front end that puts Homebrew Formulae into container
-- images. A requested root is read as a Formula identity (internal/homebrew/formulaid), the resolver
-- (internal/resolver) walks the dependencies, compares the versions of the chosen bottles with the
-- required ones (internal/homebrew/version) and orders the installation, and package oci
-- (internal/homebrew/oci) names the registry repository, the tags and the files of each bottle and
-- fetches verified content from the registry. The catalog service (internal/catalogservice) numbers
-- the catalogs of a tap.
--
-- Prelude passes on the library names and adds results, lists and Go's integers; GoString models Go
-- strings as lists of bytes, with package unicode as a parameter whose ASCII behaviour is assumed.
--
-- FormulaId is internal/homebrew/formulaid/formulaid.go. `parse`, `parse_tap` and `parse_roots` are
-- Parse, ParseTap and ParseRoots; `checked_tap` and `checked_id` are newTap and newFormulaID. An index
-- past the end of a string is the error `out_of_range`.
-- Version is the ordering of internal/homebrew/version/version.go: `tokenize`, `compare_versions`
-- (Compare) and `at_least` (AtLeast). PkgName is the rest of that file.
-- Oci/Names and Oci/Reference are internal/homebrew/oci/reference.go, with validateRepository of
-- client.go; Oci/Identity is internal/homebrew/oci/identity.go. The regular expressions are written
-- as tests on bytes, that of a repository segment as an automaton. net/url is a parameter.
-- Oci/Challenge and Oci/Client are the registry client, internal/homebrew/oci/client.go. Challenge is
-- parseBearerChallenge and parseAuthParams; the outer loop of the latter takes fuel, and each round
-- takes a byte of the header, so one more unit than the header has bytes is enough. Client/Auth is
-- bearerToken and doRegistryGET, whose state is the client's two maps and the world that a request
-- changes; Client/Fetch is FetchIndex, FetchManifest, FetchConfig, FetchBlob and FetchBlobTo. The
-- transport, URLs, JSON, times and digests are the parameter `Env`; a request stands for one call of
-- the HTTP client, which may follow redirects. One goroutine uses the client; what makes a client and
-- its options, and referrers.go and resolve.go, are not modelled.
-- Metadata is internal/homebrew/metadata/types.go: the Formula of the signed metadata, and the choice
-- of a bottle file, of the dependencies and of the keg-only flag for a tag.
-- MetadataCatalog is internal/homebrew/metadata/catalog.go: Build is buildCatalog with the checks of
-- the dependencies, Migrations is normalizeMigration and resolveMigration, Lookup is Lookup and match.
-- The decoding of the payloads is not modelled. The recursions take one unit of fuel more than there
-- are names or migrations, which is enough since a call puts a new one on the stack; running out is
-- the error `walk_out_of_fuel`.
-- Catalog is internal/catalog/identity.go, the identities as strings of the catalog protocol.
-- CatalogKeys is internal/catalogkeys/policy.go: the loops of Validate over identifiers, digests and
-- sequence floors, each as the test that it adds no error, and what the policy gives its callers.
-- CatalogService/Sequence is nextSequence of internal/catalogservice/store.go: the store is what the
-- sequence directory holds, and what a call of the file system answers is an argument; atomicWrite
-- fails before its rename, after it, or not at all. The rest of the catalog service is not modelled.
-- Resolver is internal/resolver/resolver.go. Requirements is mergeRequirement, satisfies,
-- mapRequirements and validateRuntimeCompatibility; Types, Closure and Settle are Resolve: the walk
-- over the signed dependencies (`drain`), the check of the minimums (`settle`) and the order. Its maps
-- are the entry lists of GoMap. The catalog and the bottle resolver are its two interfaces, the
-- argument `sources`. The queue takes fuel, one unit for each name taken from it; running out is the
-- error `out_of_fuel`. A name is put there for a root or for a dependency of a Formula that gets its
-- node, so over an index one unit more than there are roots and dependencies is enough. What Resolve
-- copies into the record behind the order is not modelled.
-- Resolver/Topo is topoOrder of internal/resolver/resolver.go. The state of its closure is passed
-- along. Its recursion takes fuel: a call marks a new name, so one more unit than there are names is
-- enough.
--
-- Messages of errors are not modelled, only which error is returned. The packages that are not named
-- here are not modelled: they verify signatures, decode documents, work on files and archives, or
-- build images. The tables of package unicode, digests, JSON, URLs and times are parameters where the code
-- above needs them.
pub mod Prelude
pub mod GoString
pub mod GoMap
pub mod FormulaId
pub mod Version
pub mod PkgName
pub mod Oci
pub mod Metadata
pub mod Catalog
pub mod CatalogKeys
pub mod CatalogService
pub mod MetadataCatalog
pub mod Resolver
pub mod Tests
