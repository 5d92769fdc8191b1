-- ===== src/Oci.antt =====
-- internal/homebrew/oci: where a Formula's bottles are kept in the GHCR registry.
-- Names holds the names and tags of reference.go, Identity the authenticated identities of
-- identity.go, and Reference the two resolvers of reference.go.
pub mod Names
pub mod Identity
pub mod Reference
pub mod Repository
pub mod Agreement
pub mod Challenge
pub mod Client
