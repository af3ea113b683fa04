-- ===== src/Metadata/Merge.antt =====
-- metadata/merge.go: `mergeMetadata`, which publishes the result of one category on top of a cache. The
-- clones of maps are the maps, since values do not change; what remains of them is that a nil map
-- becomes an empty one. `strings.EqualFold`, `strings.ToUpper`, `strings.TrimSpace` and the two calls of
-- `sort.Slice`, which leaves open the order of equal names, are parameters.
pub mod Patch
pub mod Externals
pub mod Marked
pub mod Groups
pub mod Publish
pub mod Marks
pub mod Combined
pub mod Columns
pub mod Catalogs
pub mod Keyed
pub mod Steps
pub mod Order
