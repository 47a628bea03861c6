-- ===== src/Filtering.antt =====
-- src/domain/filtering: filter entries, filter sets, their differences, and what passes a filter.
pub mod Entry
pub mod Filters
pub mod FiltersDiff
pub mod FilterFlow
pub mod FilterLink
pub mod FilterService
pub mod MapFilter
