-- ===== src/Lib.antt =====
-- CloudPAM: the address arithmetic, the authorisation rules, the in-memory stores, the audit log,
-- drift detection and planning.
--
-- CloudPAM manages pools of IPv4 addresses. A pool has a CIDR, perhaps a parent pool and perhaps an
-- owning account. The API checks that a child lies within its parent and overlaps no sibling; the
-- planning code computes what is free in a pool; a store keeps pools and accounts. Each request has a
-- role, a session or an API key with scopes, from which its permissions follow. Collectors report
-- cloud resources; the drift detector compares them with the pools; recommendations propose pools,
-- which applying them creates.
--
-- The modules and the code they model:
--   Base      shared names, lists and their slices, maps, integers, powers of two;
--     Int64 has the int of 64 bits that a page's bounds are computed on.
--   Net.Ip    what the program uses of Go's net/netip. An address is its number.
--   Net.Cidr  internal/cidr/cidr.go: PrefixContains, PrefixContainsAddr, ParseCIDROrIP, lastAddr.
--     Net.Ip.Block describes the addresses of a prefix, independently of the code's tests.
--   Planning.Ranges  internal/planning/types.go (interval, prefixToInterval) and gaps.go
--     (findFreeRanges: sort, merge, walk). Merge and Free hold the lemmas and the theorems.
--   Planning.Cidrs   internal/planning/cidr_helpers.go: rangeToCIDRs, prefixesOverlap, isRFC1918,
--     prefixAddressCount. Tiling, Cover and Overlap hold the theorems.
--   Api.Cidr  internal/api/cidr.go: validateChildCIDR, prefixesOverlapIPv4,
--     computeSubnetsIPv4Window, lastAddr, usableHostsIPv4.
--   Domain    internal/domain/types.go: pools, accounts, the inputs, the string enumerations.
--   Storage.Memory  internal/storage/store.go: MemoryStore. The parent module has the state and the
--     operations on pools, Accounts those on accounts, Cascade the deletions that collect
--     descendants; Rooted, Sound, Kept, Steps and Lookup hold the invariant, the steps that keep it
--     and what reads see after writes.
--     Search is the search with its pages (with internal/domain/search.go), Stats has the statistics
--     and Hierarchy the trees.
--   Auth.Text      the functions of Go's package strings that the scopes are read with.
--   Auth.Catalog   internal/auth/rbac.go: PermissionCatalog and RolePermissions.
--   Auth.Identity  internal/auth/session.go and apikey.go: sessions, API keys and their validity;
--     what a request's context carries.
--   Auth.Rbac      internal/auth/rbac.go: the lookup table, the checks of roles and of scopes.
--     Cached, Envelope and Builtin hold the theorems.
--   Auth.Roles     internal/auth/rbac.go (GetRoleFromScopes, RoleLevel) and context.go
--     (GetEffectiveRole, RequirePermission); Effective holds the theorems.
--   Auth.Sessions  internal/auth/session.go: MemorySessionStore; Index, Logout and Steps hold the
--     theorems.
--   Auth.RoleStore internal/auth/role_store.go: MemoryRoleStore; Builtins holds the theorems. It is
--     what Auth.Rbac takes as the role store, by its GetRole.
--   Auth.Users     internal/auth/user_store.go: MemoryUserStore; Index, Rewrites and Steps hold the
--     invariant of its index.
--   Auth.Keys      internal/auth/apikey.go and context.go (the tests of scopes) and store.go
--     (MemoryKeyStore); Index and Revoked hold the theorems.
--   Audit          internal/audit/audit.go and memory.go: the bounded log; History compares it with
--     everything that was logged.
--   Domain.Discovery, Domain.Drift, Domain.Recommendation  internal/domain/discovery.go, drift.go and
--     recommendations.go: the records.
--   Storage.Discovery  internal/storage/discovery_memory.go: resources, sync jobs, agents. Lists has
--     the listings, Unique and Upsert the invariant of the resources, Claim that of the jobs.
--   Storage.Drift, Storage.Recommendations  internal/storage/drift_memory.go and
--     recommendations_memory.go.
--   Discovery  internal/discovery/drift.go: Passes has the items and the two passes, Detect the run;
--     Paging and Current hold the theorems.
--   Planning.Recommendations  internal/planning/recommendations.go: Apply, Dismiss; Settled holds the
--     theorem.
--   Planning.Gaps  internal/planning/gaps.go: AnalyzeGaps; Available holds the theorem.
--   Planning.Resolve  internal/planning/compliance.go: resolvePools; Ends shows that its descent ends.
--   Planning.Compliance  internal/planning/compliance.go: the checks; Siblings holds the theorem.
--   Validation  internal/validation/validation.go: CIDRs and names; Cidrs holds the theorem.
--   Tests     the theorems at concrete inputs.
--
-- A uint32 is a natural number below 2 ^ 32 with the remainder written out; the bounds of a page are
-- ints of 64 bits, with the remainder and the sign written out. A panic of the Go code (As4 of an
-- IPv6 address, a slice out of range) is `none`, in the result of `search` a case of its own. A Go
-- map is a table of entries, and an iteration over it goes through the entries in their order. The
-- store's operations run under its lock, so each is a step.
--
-- Fuel: the loop of rangeToCIDRs has one round for each address of the range and one more, since
-- each round takes at least one address; the collection of descendants has one round for each pool
-- and one more, since each round that goes on adds a pool; the loop over the pages of a listing has
-- one round for each resource found and one more, since each page that goes on has a resource;
-- resolvePools has one round for each pool of the queue and of the store, and one more. The
-- theorems show these to be enough. The statistics and the hierarchy recurse one level for each pool
-- and one more; `none` is a recursion that goes deeper, and no theorem is about it.
--
-- Not modelled: the text syntax of prefixes (the record Netip stands for it), HTTP, SQL, logging,
-- the cloud collectors, the AI assistant, and the arithmetic of float64, which is a
-- parameter. Analyze and Generate of internal/planning, the handlers and the stores of
-- conversations, settings, networks, OIDC providers and utilization are left out.
pub mod Base
pub mod Net
pub mod Planning
pub mod Domain
pub mod Storage
pub mod Api
pub mod Validation
pub mod Tests
pub mod Audit
pub mod Auth
pub mod Discovery
